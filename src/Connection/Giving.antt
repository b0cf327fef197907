-- ===== src/Connection/Giving.antt =====
-- What the calls that add tracks and transceivers ask WebRTC for, and the handles that they give.
use lumen_rtc.Base.{
  ℕ, ◌≡◌, refl, arith, Bool, true, false, [], ◌∷◌, Option, none, some, if◌then◌else◌, Allocator,
  ◌==◌, ◌||◌, ℤ,
}
use lumen_rtc.Text.{Bytes, build_string_vector, c_string}
use lumen_rtc.MediaList.{same_text}
use lumen_rtc.Peer.Events.{Track, Handles, audio, video}
use lumen_rtc.Peer.Lookup.{handle_on}
use lumen_rtc.Encoding.{Native}
use lumen_rtc.Encoding.Transceiver.{InitArguments, TransceiverInit, build_transceiver_init}
use lumen_rtc.Connection.Native.{audio_type, video_type, to_native_media_type}
use lumen_rtc.Connection.Bridge.{
  Request, add_track_of, transceiver_of_track, transceiver_of_type, WebRtc, Connection, asks,
  to_native_track,
}
use lumen_rtc.Connection.Operations.{
  add_candidate, add_track, add_track_transceiver, add_track_transceiver_init, add_type_transceiver,
  add_type_transceiver_init,
}
use lumen_rtc.Connection.Calls.{
  Texts, Given, refused, add_audio_track_sender, add_video_track_sender, add_transceiver,
  add_audio_track_transceiver, add_video_track_transceiver, add_transceiver_with_init,
  add_audio_track_transceiver_with_init, add_video_track_transceiver_with_init,
  add_ice_candidate_ex,
}

-- The calls that give a handle, with their arguments behind the connection.
pub data Giving (D : Type 0) : Type 0 where
  audio_sender video_sender : Option Track → Texts → Giving D
  transceiver : ℕ → Giving D
  audio_transceiver video_transceiver : Option Track → Giving D
  transceiver_with_init : ℕ → Option (InitArguments D) → Giving D
  audio_transceiver_with_init video_transceiver_with_init :
      Option Track → Option (InitArguments D) → Giving D

module _ (W : Native) where
  -- WebRTC's track behind a client's, if its kind is one of the two.
  abbrev pub media :
      Option Track → (ℕ → Request (TransceiverInit W.D)) → Option (Request (TransceiverInit W.D))
  media none q = none
  media (some t) q =
      if same_text (c_string t.kind) audio || same_text (c_string t.kind) video
      then some (q t.object)
      else none

  abbrev pub media_type : ℕ → Option (TransceiverInit W.D) → Option (Request (TransceiverInit W.D))
  media_type n init =
      if n == 0
      then some (transceiver_of_type audio_type init)
      else if n == 1
      then some (transceiver_of_type video_type init)
      else none

  abbrev pub needs :
      Option (InitArguments W.D)
      → (Option (TransceiverInit W.D) → Option (Request (TransceiverInit W.D)))
      → Option (Request (TransceiverInit W.D))
  needs none f = none
  needs (some init) f = f (build_transceiver_init W (some init))

  -- What a call asks WebRTC for, if it does.
  abbrev pub wanted : Giving W.D → Option (Request (TransceiverInit W.D))
  wanted (audio_sender t ids) =
      media t (λ o. add_track_of o (build_string_vector ids.items ids.count))
  wanted (video_sender t ids) =
      media t (λ o. add_track_of o (build_string_vector ids.items ids.count))
  wanted (transceiver type) = media_type type none
  wanted (audio_transceiver t) = media t (λ o. transceiver_of_track o none)
  wanted (video_transceiver t) = media t (λ o. transceiver_of_track o none)
  wanted (transceiver_with_init type init) = needs init (media_type type)
  wanted (audio_transceiver_with_init t init) =
      needs init (λ i. media t (λ o. transceiver_of_track o i))
  wanted (video_transceiver_with_init t init) =
      needs init (λ i. media t (λ o. transceiver_of_track o i))

  module _ (webrtc : WebRtc (TransceiverInit W.D)) (heap : Allocator) where
    abbrev pub give : Bool → Giving W.D → Handles → Connection → Given W webrtc heap
    give pc (audio_sender t ids) = add_audio_track_sender W webrtc heap pc t ids
    give pc (video_sender t ids) = add_video_track_sender W webrtc heap pc t ids
    give pc (transceiver type) = add_transceiver W webrtc heap pc type
    give pc (audio_transceiver t) = add_audio_track_transceiver W webrtc heap pc t
    give pc (video_transceiver t) = add_video_track_transceiver W webrtc heap pc t
    give pc (transceiver_with_init type init) = add_transceiver_with_init W webrtc heap pc type init
    give pc (audio_transceiver_with_init t init) =
        add_audio_track_transceiver_with_init W webrtc heap pc t init
    give pc (video_transceiver_with_init t init) =
        add_video_track_transceiver_with_init W webrtc heap pc t init

    -- One request, and a handle on the object that WebRTC answers with; nothing for none.
    abbrev pub given :
        Option (Request (TransceiverInit W.D)) → Handles → Connection → Given W webrtc heap
    given none hs c = refused W webrtc heap hs c
    given (some q) hs c =
        let (h, hs1) = handle_on heap (webrtc.answer q) hs in (h, hs1, c, asks q ∷ [])

    abbrev if_open :
        Option ℕ → Option (Request (TransceiverInit W.D)) → Option (Request (TransceiverInit W.D))
    if_open none q = none
    if_open (some n) q = q

    -- Each of the eight calls asks WebRTC for what its arguments say, if the connection is open, once: for the
    -- track with the client's stream ids, if its kind is "audio" or "video", or for audio or video by number,
    -- with the client's initialisation; and it gives a new handle on what WebRTC answers. Otherwise it gives
    -- none and asks nothing. The connection stays as it is.
    pub give_lem :
        (q : Giving W.D) (hs : Handles) (c : Connection)
        → give true q hs c ≡ given (if_open c.native (wanted q)) hs c
    unfolding handle_on to_native_track to_native_media_type add_track add_track_transceiver
        add_track_transceiver_init add_type_transceiver add_type_transceiver_init
        add_audio_track_sender add_video_track_sender add_transceiver add_audio_track_transceiver
        add_video_track_transceiver add_transceiver_with_init add_audio_track_transceiver_with_init
        add_video_track_transceiver_with_init build_transceiver_init
    give_lem (audio_sender none ids) hs c = ground arith
    give_lem (audio_sender (some t) ids) hs c = ground arith
    give_lem (video_sender none ids) hs c = ground arith
    give_lem (video_sender (some t) ids) hs c = ground arith
    give_lem (transceiver type) hs c = ground arith
    give_lem (audio_transceiver none) hs c = ground arith
    give_lem (audio_transceiver (some t)) hs c = ground arith
    give_lem (video_transceiver none) hs c = ground arith
    give_lem (video_transceiver (some t)) hs c = ground arith
    give_lem (transceiver_with_init type none) hs c = ground arith
    give_lem (transceiver_with_init type (some i)) hs c = ground arith
    give_lem (audio_transceiver_with_init none none) hs c = ground arith
    give_lem (audio_transceiver_with_init none (some i)) hs c = ground arith
    give_lem (audio_transceiver_with_init (some t) none) hs c = ground arith
    give_lem (audio_transceiver_with_init (some t) (some i)) hs c = ground arith
    give_lem (video_transceiver_with_init none none) hs c = ground arith
    give_lem (video_transceiver_with_init none (some i)) hs c = ground arith
    give_lem (video_transceiver_with_init (some t) none) hs c = ground arith
    give_lem (video_transceiver_with_init (some t) (some i)) hs c = ground arith

  -- Tracing changes neither what a new candidate is answered with nor what WebRTC is asked for: it only
  -- parses the candidate once more, and rejects what the connection would reject.
  pub add_ice_candidate_ex_untraced :
      (webrtc : WebRtc (TransceiverInit W.D)) (pc : Bool) (mid : Option Bytes) (index : ℤ)
      (candidate : Option Bytes) (c : Connection)
      → add_ice_candidate_ex W webrtc true pc mid index candidate c
        ≡ add_ice_candidate_ex W webrtc false pc mid index candidate c
  unfolding add_ice_candidate_ex add_candidate
  add_ice_candidate_ex_untraced webrtc pc none index candidate c = refl
  add_ice_candidate_ex_untraced webrtc pc (some mid) index none c = refl
  add_ice_candidate_ex_untraced webrtc pc (some mid) index (some s) c = ground arith
