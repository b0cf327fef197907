-- ===== src/FramePool/Reuse.antt =====
-- What a client sees of the frame handle pool.
use lumen_rtc.Base.{
  ℕ, ◌+◌, ◌≤◌, ◌<◌, ◌≡◌, ◌≢◌, refl, inl, inr, true, List, [], ◌∷◌, Option, none, some, arith,
  length, count, update, Option-cases, Allocator,
}
use lumen_rtc.FramePool.{Frames, pool_max_size, release, wrap, on_frame, retain}
use lumen_rtc.FramePool.Invariant.{Inv, Reach, Reach-Inv}

abbrev state : List ℕ → List ℕ → (ℕ → Option ℕ) → Frames
state pool live ref = record { pool = pool; live = live; ref = ref }

module _ (heap : Allocator) (frame : ℕ) where
  -- The new handle is with no client, owns the frame, and no client's handle changes.
  abbrev Isolated : Frames → List ℕ → Type 0
  Isolated s held =
      (count (wrap heap frame s).0 held ≡ 0)
      × ((wrap heap frame s).1.ref (wrap heap frame s).0 ≡ some frame)
      × ((a : ℕ) → 0 < count a held → (wrap heap frame s).1.ref a ≡ s.ref a)

  wrap-Isolated : (s : Frames) (held : List ℕ) → Inv s held → Isolated s held
  unfolding wrap
  wrap-Isolated s held = go s.pool s.live s.ref
    where
      go :
          (pool live : List ℕ) (ref : ℕ → Option ℕ)
          → Inv (state pool live ref) held
          → Isolated (state pool live ref) held
      go [] live ref v = (
        ground (arith, v.counted (heap.fresh live), heap.fresh_new live),
        ground arith,
        λ a p. ground (arith, v.counted a, heap.fresh_new live),
      )
      go (h ∷ rest) live ref v = (
        ground (arith, v.counted h, v.once h),
        ground arith,
        λ a p. ground (arith, v.counted a, v.once a),
      )

-- A delivered frame comes in a handle that no client holds, which owns that frame; the handles that
-- clients hold keep theirs.
pub on_frame_isolated :
    (heap : Allocator) {s : Frames} {held : List ℕ} (frame : ℕ)
    → Reach heap s held
    → (h : ℕ) × ((on_frame heap true (some frame) s).0 ≡ some h)
      × (count h held ≡ 0)
      × ((on_frame heap true (some frame) s).1.ref h ≡ some frame)
      × ((a : ℕ) → 0 < count a held → (on_frame heap true (some frame) s).1.ref a ≡ s.ref a)
unfolding on_frame
on_frame_isolated heap {s} {held} frame r =
    let i = wrap-Isolated heap frame s held (Reach-Inv heap r) in
    ((wrap heap frame s).0, refl, i.0, i.1, i.2)

release-ref : (h a : ℕ) (s : Frames) → (release (some h) s).ref a ≡ update s.ref h none a
unfolding release
release-ref h a s = ground arith

-- Retaining a held handle gives a second one on the same frame, and releasing either leaves the
-- other's frame in place.
pub retain-release :
    (heap : Allocator) {s : Frames} {held : List ℕ} (h : ℕ)
    → Reach heap s held
    → 0 < count h held
    → (h' : ℕ) × ((retain heap (some h) s).0 ≡ some h')
      × (h' ≢ h)
      × ((release (some h) (retain heap (some h) s).1).ref h' ≡ s.ref h)
      × ((release (some h') (retain heap (some h) s).1).ref h ≡ s.ref h)
unfolding retain
retain-release heap {s} {held} h r m = elim (Option-cases (s.ref h)) [
  | inl e ↦ absurd (ground (arith, v.owning h))
  | inr (frame, e) ↦
      let i = wrap-Isolated heap frame s held v in
      let h' = (wrap heap frame s).0 in
      let t = (wrap heap frame s).1 in
      rw (e, retain)
        (
          h',
          refl,
          (λ q. ground (arith, i.0)),
          ground (arith, release-ref h h' t, i.0, i.1),
          ground (arith, release-ref h' h t, i.0, i.2 h),
        )
]
  where
    v : Inv s held
    v = Reach-Inv heap r

-- However long the program runs, the handles in memory are those that clients hold and at most
-- sixteen more.
pub live-le :
    (heap : Allocator) {s : Frames} {held : List ℕ}
    → Reach heap s held
    → length s.live ≤ length held + pool_max_size
live-le heap r = let v = Reach-Inv heap r in omega (arith, v.sized, v.bounded)
