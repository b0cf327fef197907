-- ===== src/Tracks.antt =====
-- An audio track with the client's sinks, and a video track with its own: the calls
-- lrtc_impl_audio_track_*, lrtc_impl_audio_sink_*, lrtc_impl_video_track_* and lrtc_impl_video_sink_* of
-- native/src/lumenrtc_impl.cpp, with AudioSinkImpl, VideoSinkImpl, and
-- bridge/lumenrtc_bridge/src/rtc_audio_track_impl.h and rtc_audio_track_impl.cc. One handle refers to
-- the track; a call on a null one returns at once, as the getters show. A handle of a sink stands for its sink
-- too, since it has one. WebRTC calls its sinks under its own lock, so a delivery is one step.
pub mod Entries
pub mod Sinks
use lumen_rtc.Base.{
  ℕ, Bool, true, false, List, [], ◌∷◌, ◌++◌, Option, none, some, if◌then◌else◌, ◌==◌, ℤ, pos,
  negsuc, elem, map, update, remove, Allocator,
}
use lumen_rtc.Text.{Bytes}
use lumen_rtc.Text.Copy.{copy_string}
use lumen_rtc.Renderers.{Adapter, add_renderer, remove_renderer}

-- An element of `sinks_`: a sink, and the adapter that it owns.
pub record Entry : Type 0 where
  pub sink : ℕ
  pub adapter : ℕ

-- The client's sinks: those newed and not deleted, and their callbacks.
pub record ClientSinks : Type 0 where
  pub alive : List ℕ
  pub callback : ℕ → Option ℕ

pub record AudioTrack : Type 0 where
  -- `sinks_`, in the order of AddSink.
  pub sinks : List Entry
  -- The adapters that WebRTC's track calls.
  pub added : List ℕ
  -- An adapter's `sink_`, while the adapter lives.
  pub target : ℕ → Option ℕ

abbrev pub new_track : AudioTrack
new_track = record { sinks = []; added = []; target = λ a. none }

abbrev pub adapters : List Entry → List ℕ
adapters [] = []
adapters (e ∷ es) = e.adapter ∷ adapters es

-- The adapter of a sink.
abbrev pub adapter_of : ℕ → List Entry → Option ℕ
adapter_of h [] = none
adapter_of h (e ∷ es) = let rest = adapter_of h es in if e.sink == h then some e.adapter else rest

abbrev pub erase_sink : ℕ → List Entry → List Entry
erase_sink h [] = []
erase_sink h (e ∷ es) = let rest = erase_sink h es in if e.sink == h then es else e ∷ rest

abbrev pub insert_sink : Allocator → ℕ → Option ℕ → AudioTrack → AudioTrack
insert_sink heap h (some a) t = t
insert_sink heap h none t =
    let a = heap.fresh (adapters t.sinks) in
    record {
      sinks = t.sinks ++ record { sink = h; adapter = a } ∷ [];
      added = t.added ++ a ∷ [];
      target = update t.target a (some h);
    }

-- AudioTrackImpl::AddSink.
unfoldable pub add_sink : Allocator → ℕ → AudioTrack → AudioTrack
add_sink heap h t = insert_sink heap h (adapter_of h t.sinks) t

abbrev pub drop_sink : ℕ → Option ℕ → AudioTrack → AudioTrack
drop_sink h none t = t
drop_sink h (some a) t = record {
  sinks = erase_sink h t.sinks;
  added = remove a t.added;
  target = update t.target a none;
}

-- AudioTrackImpl::RemoveSink.
unfoldable pub remove_sink : ℕ → AudioTrack → AudioTrack
remove_sink h t = drop_sink h (adapter_of h t.sinks) t

-- The loop of AudioTrackImpl::RemoveSinks over WebRTC's list.
abbrev pub remove_each : List Entry → List ℕ → List ℕ
remove_each [] xs = xs
remove_each (e ∷ es) xs = remove_each es (remove e.adapter xs)

abbrev pub forget_each : List Entry → (ℕ → Option ℕ) → ℕ → Option ℕ
forget_each [] f = f
forget_each (e ∷ es) f = forget_each es (update f e.adapter none)

-- AudioTrackImpl::RemoveSinks.
unfoldable pub remove_sinks : AudioTrack → AudioTrack
remove_sinks t = record {
  sinks = [];
  added = remove_each t.sinks t.added;
  target = forget_each t.sinks t.target;
}

-- lrtc_impl_audio_track_add_sink.
unfoldable pub audio_track_add_sink : Allocator → Option ℕ → AudioTrack → AudioTrack
audio_track_add_sink heap none t = t
audio_track_add_sink heap (some h) t = add_sink heap h t

-- lrtc_impl_audio_track_remove_sink.
unfoldable pub audio_track_remove_sink : Option ℕ → AudioTrack → AudioTrack
audio_track_remove_sink none t = t
audio_track_remove_sink (some h) t = remove_sink h t

-- lrtc_impl_audio_track_release, by ~AudioTrackImpl.
unfoldable pub audio_track_release : AudioTrack → AudioTrack
audio_track_release = remove_sinks

abbrev pub create_sink : Allocator → Option ℕ → ClientSinks → ℕ × ClientSinks
create_sink heap f s =
    let h = heap.fresh s.alive in
    (h, record { alive = h ∷ s.alive; callback = update s.callback h f })

abbrev pub release_sink : Option ℕ → ClientSinks → ClientSinks
release_sink none s = s
release_sink (some h) s = record s { alive = remove h s.alive }

-- lrtc_impl_audio_sink_create; `none` for null callbacks and for a null on_data.
unfoldable pub audio_sink_create : Allocator → Option ℕ → ClientSinks → ℕ × ClientSinks
audio_sink_create = create_sink

-- lrtc_impl_audio_sink_release.
unfoldable pub audio_sink_release : Option ℕ → ClientSinks → ClientSinks
audio_sink_release = release_sink

-- lrtc_impl_video_sink_create and _release, with on_frame.
unfoldable pub video_sink_create : Allocator → Option ℕ → ClientSinks → ℕ × ClientSinks
video_sink_create = create_sink

unfoldable pub video_sink_release : Option ℕ → ClientSinks → ClientSinks
video_sink_release = release_sink

-- lrtc_impl_video_track_add_sink and _remove_sink, on the track's adapter.
unfoldable pub video_track_add_sink : Option ℕ → Adapter → Adapter
video_track_add_sink none a = a
video_track_add_sink (some h) a = add_renderer h a

unfoldable pub video_track_remove_sink : Option ℕ → Adapter → Adapter
video_track_remove_sink none a = a
video_track_remove_sink (some h) a = remove_renderer h a

-- What a call of a sink leads to.
pub data Heard : Type 0 where
  silent : Heard
  calls : ℕ → Heard
  -- The sink or its adapter is used, and was deleted.
  dangling : Heard

abbrev pub call_of : Option ℕ → Heard
call_of none = silent
call_of (some f) = calls f

-- AudioSinkImpl::OnData, of a sink that may be deleted.
unfoldable pub sink_on_data : ClientSinks → ℕ → Heard
sink_on_data s h = if elem h s.alive then call_of (s.callback h) else dangling

-- AudioTrackSinkAdapter::OnData.
abbrev pub adapter_on_data : ClientSinks → Option ℕ → Heard
adapter_on_data s none = dangling
adapter_on_data s (some h) = sink_on_data s h

-- One piece of audio from WebRTC, to every adapter that its track calls.
abbrev pub on_audio : ClientSinks → AudioTrack → List Heard
on_audio s t = map (λ a. adapter_on_data s (t.target a)) t.added

-- What the getters read of WebRTC's track.
pub record Native : Type 0 where
  pub id : Bytes
  pub state : ℤ
  pub enabled : Bool

abbrev pub track_id : Option Native → Option Bytes → ℕ → ℤ × Option Bytes
track_id none buffer len = (negsuc 0, buffer)
track_id (some t) buffer len = copy_string t.id buffer len

abbrev pub track_state : Option Native → ℤ
track_state none = negsuc 0
track_state (some t) = t.state

abbrev pub track_enabled : Option Native → ℕ
track_enabled none = 0
track_enabled (some t) = if t.enabled then 1 else 0

-- `set` is WebRTC's set_enabled, with its answer; the flag is `enabled != 0`.
abbrev pub change_enabled :
    (Bool → Native → Bool × Native) → Bool → Option Native → ℕ × Option Native
change_enabled set on none = (0, none)
change_enabled set on (some t) = let (done, u) = set on t in (if done then 1 else 0, some u)

unfoldable pub audio_track_get_id : Option Native → Option Bytes → ℕ → ℤ × Option Bytes
audio_track_get_id = track_id

unfoldable pub audio_track_get_state : Option Native → ℤ
audio_track_get_state = track_state

unfoldable pub audio_track_get_enabled : Option Native → ℕ
audio_track_get_enabled = track_enabled

unfoldable pub audio_track_set_enabled :
    (Bool → Native → Bool × Native) → Bool → Option Native → ℕ × Option Native
audio_track_set_enabled = change_enabled

unfoldable pub video_track_get_id : Option Native → Option Bytes → ℕ → ℤ × Option Bytes
video_track_get_id = track_id

unfoldable pub video_track_get_state : Option Native → ℤ
video_track_get_state = track_state

unfoldable pub video_track_get_enabled : Option Native → ℕ
video_track_get_enabled = track_enabled

unfoldable pub video_track_set_enabled :
    (Bool → Native → Bool × Native) → Bool → Option Native → ℕ × Option Native
video_track_set_enabled = change_enabled
