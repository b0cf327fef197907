-- ===== src/MediaStream.antt =====
-- MediaStreamImpl, bridge/lumenrtc_bridge/src/rtc_media_stream_impl.cc, and the calls of
-- native/src/lumenrtc_impl.cpp on it. A WebRTC track is a number; the bridge's wrappers of tracks are objects
-- at addresses, and `next` is one past those in use.
pub mod Lists
use lumen_rtc.Base.{
  ℕ, zero, suc, ◌+◌, ◌<◌, ◌≤◌, ◌≡◌, refl, sym, ap, subst, ◌∙◌, arith, Bool, true, false, not, ◌&&◌,
  List, [], ◌∷◌, ◌++◌, map, Option, none, some, if◌then◌else◌, ◌==◌, count, length, Option-cases,
  inl, inr, ◌⊎◌,
}
use lumen_rtc.Text.{Bytes, c_string}
use lumen_rtc.MediaList.{same_text}

-- A wrapper, and WebRTC's track in it.
pub record Wrapper : Type 0 where
  pub address : ℕ
  pub track : ℕ

-- WebRTC's tracks of one kind, and the bridge's list.
pub record Tracks : Type 0 where
  pub native : List ℕ
  pub wrappers : List Wrapper

pub record Stream : Type 0 where
  pub audio : Tracks
  pub video : Tracks
  pub next : ℕ

pub data Kind : Type 0 where
  audio_kind video_kind : Kind

abbrev pub tracks_of : Kind → Stream → Tracks
tracks_of audio_kind s = s.audio
tracks_of video_kind s = s.video

abbrev pub put : Kind → Tracks → Stream → Stream
put audio_kind ts s = record s { audio = ts }
put video_kind ts s = record s { video = ts }

-- BuildAudioTracks and BuildVideoTracks: new wrappers.
unfoldable pub build_tracks : ℕ → List ℕ → List Wrapper
build_tracks next [] = []
build_tracks next (t ∷ ts) = record { address = next; track = t } ∷ build_tracks (suc next) ts

-- OnChanged.
unfoldable pub on_changed : Stream → Stream
unfolding build_tracks
on_changed s = record {
  audio = record { native = s.audio.native; wrappers = build_tracks s.next s.audio.native };
  video = record {
    native = s.video.native;
    wrappers = build_tracks (s.next + length s.audio.native) s.video.native;
  };
  next = s.next + length s.audio.native + length s.video.native;
}

-- The constructor, on WebRTC's stream.
unfoldable pub wrap_stream : ℕ → List ℕ → List ℕ → Stream
unfolding on_changed
wrap_stream next audio video = on_changed (record {
  audio = record { native = audio; wrappers = [] };
  video = record { native = video; wrappers = [] };
  next = next;
})

-- `erase` of the first wrapper at the address, which is what `find` looks for.
unfoldable pub erase : ℕ → List Wrapper → List Wrapper
erase a [] = []
erase a (w ∷ ws) = let rest = erase a ws in if w.address == a then ws else w ∷ rest

-- WebRTC's AddTrack and RemoveTrack, on its tracks of a kind: the new tracks, or `none` for `false`; and
-- whether it calls OnChanged before it returns.
pub record Native : Type 0 where
  pub add : ℕ → List ℕ → Option (List ℕ)
  pub remove : ℕ → List ℕ → Option (List ℕ)
  pub notifies : Bool

module _ (webrtc : Native) where
  abbrev pub changed : Kind → List ℕ → Stream → Stream
  changed k native s =
      let s1 = put k (record { native = native; wrappers = (tracks_of k s).wrappers }) s in
      if webrtc.notifies then on_changed s1 else s1

  abbrev pub rewrap : Kind → (List Wrapper → List Wrapper) → Stream → Stream
  rewrap k f s =
      put k (record { native = (tracks_of k s).native; wrappers = f (tracks_of k s).wrappers }) s

  -- WebRTC's answer, and the list's change behind it.
  abbrev pub when_taken :
      Kind → (List Wrapper → List Wrapper) → Option (List ℕ) → Stream → Bool × Stream
  when_taken k f none s = (false, s)
  when_taken k f (some native) s = (true, rewrap k f (changed k native s))

  -- AddTrack.
  unfoldable pub add_track : Kind → Wrapper → Stream → Bool × Stream
  add_track k w s = when_taken k (λ ws. ws ++ w ∷ []) (webrtc.add w.track (tracks_of k s).native) s

  -- RemoveTrack.
  unfoldable pub remove_track : Kind → Wrapper → Stream → Bool × Stream
  unfolding erase
  remove_track k w s =
      when_taken k (erase w.address) (webrtc.remove w.track (tracks_of k s).native) s

  -- lrtc_impl_media_stream_add_audio_track and _add_video_track, of handles that may be null or empty.
  unfoldable pub stream_add_track : Kind → Bool → Option Wrapper → Stream → Bool × Stream
  unfolding add_track
  stream_add_track k false w s = (false, s)
  stream_add_track k true none s = (false, s)
  stream_add_track k true (some w) s = add_track k w s

  -- lrtc_impl_media_stream_remove_audio_track and _remove_video_track.
  unfoldable pub stream_remove_track : Kind → Bool → Option Wrapper → Stream → Bool × Stream
  unfolding remove_track
  stream_remove_track k false w s = (false, s)
  stream_remove_track k true none s = (false, s)
  stream_remove_track k true (some w) s = remove_track k w s

-- tracks.
unfoldable pub tracks : Stream → List Wrapper
tracks s = s.audio.wrappers ++ s.video.wrappers

-- FindAudioTrack and FindVideoTrack, by the ids of WebRTC's tracks.
unfoldable pub find_track : (ℕ → Bytes) → Bytes → List Wrapper → Option Wrapper
find_track id wanted [] = none
find_track id wanted (w ∷ ws) =
    let rest = find_track id wanted ws in
    if same_text (c_string (id w.track)) (c_string wanted) then some w else rest
