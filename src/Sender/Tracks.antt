-- ===== src/Sender/Tracks.antt =====
-- Senders keep tracks of their media type.
use lumen_rtc.Base.{ℕ, ◌≡◌, ◌⊎◌, Bool, Option, none, some, ℤ, pos}
use lumen_rtc.Text.{Bytes}
use lumen_rtc.Peer.Events.{audio, video}
use lumen_rtc.Connection.Bridge.{to_native_track}
use lumen_rtc.Sender.{
  Sender, TrackHandle, null_handle, empty_handle, track_of, replace_audio_track,
  replace_video_track,
}

-- A client's call: a handle of an audio track or of a video track.
pub data Request : Type 0 where
  replaces_audio : TrackHandle → Request
  replaces_video : TrackHandle → Request

module _ (accepts : Option ℕ → Sender → Bool) (kind : ℕ → Bytes) where
  abbrev pub perform : Request → Sender → ℕ × Option Sender
  perform (replaces_audio h) s = replace_audio_track accepts h (some s)
  perform (replaces_video h) s = replace_video_track accepts h (some s)

  -- A handle's track is of the handle's kind.
  abbrev pub HandleFits : Bytes → TrackHandle → Type 0
  HandleFits k null_handle = Unit
  HandleFits k empty_handle = Unit
  HandleFits k (track_of t) = kind t.object ≡ k

  abbrev pub RequestFits : Request → Type 0
  RequestFits (replaces_audio h) = HandleFits audio h
  RequestFits (replaces_video h) = HandleFits video h

  abbrev pub TrackFits : ℤ → Option ℕ → Type 0
  TrackFits t none = Unit
  TrackFits t (some o) = (t ≡ pos 0 → kind o ≡ audio) × (t ≡ pos 1 → kind o ≡ video)

  abbrev pub requested : TrackHandle → Option ℕ
  requested null_handle = none
  requested empty_handle = none
  requested (track_of t) = to_native_track (some t)

  -- The requested track, or none for a null handle.
  abbrev pub track_in : Request → Option ℕ
  track_in (replaces_audio h) = requested h
  track_in (replaces_video h) = requested h

  -- The sender has a track that fits: the requested one, where the result is 1, or its own as before.
  abbrev pub Kept : Request → Sender → ℕ × Option Sender → Type 0
  Kept r s (n, none) = ⊥
  Kept r s (n, some s') =
      TrackFits s'.media_type s'.track
      × (((n ≡ 1) × (s' ≡ record s { track = track_in r })) ⊎ ((n ≡ 0) × (s' ≡ s)))

  abbrev NativeFits : ℤ → TrackHandle → Type 0
  NativeFits m null_handle = Unit
  NativeFits m empty_handle = Unit
  NativeFits m (track_of t) = TrackFits m (to_native_track (some t))
