-- ===== src/FramePool.antt =====
-- The pool of video frame handles, native/src/lumenrtc_impl.cpp: AllocateVideoFrameHandle,
-- FreeVideoFrameHandle and the places that call them, VideoSinkImpl::OnFrame and
-- lrtc_impl_video_frame_retain and _release. Each call holds the pool's mutex for the whole of its
-- effect on the pool, so it is one step. A handle is an address, a WebRTC frame a number.
pub mod Invariant
pub mod Reuse
use lumen_rtc.Base.{
  ℕ, Bool, true, false, List, [], ◌∷◌, Option, none, some, if◌then◌else◌, ltb, length, remove,
  update, Allocator,
}

pub record Frames : Type 0 where
  -- g_video_frame_pool, its back first.
  pub pool : List ℕ
  -- The lrtc_video_frame_t objects that were newed and not deleted.
  pub live : List ℕ
  -- Each handle's `ref`.
  pub ref : ℕ → Option ℕ

-- kVideoFramePoolMaxSize.
abbrev pub pool_max_size : ℕ
pool_max_size = 16

abbrev pub initial : Frames
initial = record { pool = []; live = []; ref = λ h. none }

unfoldable pub free_handle : Option ℕ → Frames → Frames
free_handle none s = s
free_handle (some h) s =
    let released = record s { ref = update s.ref h none } in
    if ltb (length s.pool) pool_max_size
    then record released { pool = h ∷ s.pool }
    else record released { live = remove h s.live }

-- lrtc_impl_video_frame_release.
unfoldable pub release : Option ℕ → Frames → Frames
unfolding free_handle
release = free_handle

module _ (heap : Allocator) where
  -- The pool is a parameter of its own so that the clauses can match on it.
  pop_or_new : List ℕ → Frames → ℕ × Frames
  pop_or_new [] s =
      let h = heap.fresh s.live in (h, record s { live = h ∷ s.live; ref = update s.ref h none })
  pop_or_new (h ∷ rest) s = (h, record s { pool = rest })

  unfoldable pub allocate_handle : Frames → ℕ × Frames
  unfolding pop_or_new
  allocate_handle s = pop_or_new s.pool s

  -- The common end of `OnFrame` and `retain`: a handle that owns the frame.
  unfoldable pub wrap : ℕ → Frames → ℕ × Frames
  unfolding allocate_handle
  wrap frame s =
      let (h, t) = allocate_handle s in (h, record t { ref = update t.ref h (some frame) })

  -- VideoSinkImpl::OnFrame, from the copy of the callbacks on: the handle given to `on_frame`, if
  -- the client set one and WebRTC gave a frame.
  unfoldable pub on_frame : Bool → Option ℕ → Frames → Option ℕ × Frames
  unfolding wrap
  on_frame false frame s = (none, s)
  on_frame true none s = (none, s)
  on_frame true (some frame) s = let (h, t) = wrap frame s in (some h, t)

  retain_ref : Option ℕ → Frames → Option ℕ × Frames
  unfolding wrap
  retain_ref none s = (none, s)
  retain_ref (some frame) s = let (h, t) = wrap frame s in (some h, t)

  -- lrtc_impl_video_frame_retain.
  unfoldable pub retain : Option ℕ → Frames → Option ℕ × Frames
  unfolding retain_ref
  retain none s = (none, s)
  retain (some h) s = retain_ref (s.ref h) s
