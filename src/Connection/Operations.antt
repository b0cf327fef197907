-- ===== src/Connection/Operations.antt =====
-- What a peer connection asks WebRTC for, bridge/lumenrtc_bridge/src/rtc_peerconnection_impl.cc. A call
-- through the null `rtc_peerconnection_` of a closed connection crashes.
use lumen_rtc.Base.{
  ℕ, false, List, [], ◌∷◌, ◌++◌, Option, none, some, if◌then◌else◌, elem, remove, ℤ, pos, negsuc,
  is_some,
}
use lumen_rtc.Text.{Bytes}
use lumen_rtc.Peer.Events.{Track}
use lumen_rtc.Connection.Native.{
  MediaType, audio_type, video_type, unsupported, to_native_media_type,
}
use lumen_rtc.Connection.Bridge.{
  Outcome, crashes, returns, ChannelInit, Request, add_ice_candidate, restart_ice_gathering,
  open_channel, add_stream_of, remove_stream_of, add_track_of, remove_track_of,
  transceiver_of_track, transceiver_of_type, WebRtc, Connection, Event, asks, Reply, unit, flag,
  number, object, objects, to_native_track, close,
}

-- The reply, the new state, and what was asked and told.
abbrev pub Result : Type 0 → Type 0
Result I = Reply × Connection × List (Event I)

module _ {I : Type 0} (webrtc : WebRtc I) where
  -- AddCandidate.
  unfoldable pub add_candidate : Bytes → ℤ → Bytes → Connection → Result I
  add_candidate mid index candidate c = elim c.native [
    | none ↦ (flag false, c, [])
    | some n ↦
        if webrtc.parses_candidate mid index candidate
        then (let q = add_ice_candidate mid index candidate in
            (flag (is_some (webrtc.answer q)), c, asks q ∷ []))
        else (flag false, c, [])
  ]

  -- RestartIce.
  unfoldable pub restart_ice : Connection → Result I
  restart_ice c = elim c.native [
    | none ↦ (unit, c, [])
    | some n ↦ (unit, c, asks restart_ice_gathering ∷ [])
  ]

  -- CreateDataChannel: the new channel is remembered, if there is one.
  unfoldable pub create_data_channel : Bytes → ChannelInit → Connection → Outcome (Result I)
  create_data_channel label init c = elim c.native [
    | none ↦ crashes
    | some n ↦
        let q = open_channel label init in
        elim (webrtc.answer q) [
          | none ↦ returns (object none, c, asks q ∷ [])
          | some o ↦ returns (object (some o), record c { data_channel = some o }, asks q ∷ [])
        ]
  ]

  -- AddStream, of a wrapper with its WebRTC stream: what WebRTC answers is logged and no more.
  unfoldable pub add_stream : ℕ → ℕ → Connection → Outcome (Result I)
  add_stream stream native_stream c =
      if elem stream c.local_streams then returns (number (negsuc 0), c, []) else elim c.native [
        | none ↦ crashes
        | some n ↦ returns (
          number (pos 0),
          record c { local_streams = c.local_streams ++ stream ∷ [] },
          asks (add_stream_of native_stream) ∷ [],
        )
      ]

  -- RemoveStream.
  unfoldable pub remove_stream : ℕ → ℕ → Connection → Outcome (Result I)
  remove_stream stream native_stream c =
      if elem stream c.local_streams
      then (elim c.native [
        | none ↦ crashes
        | some n ↦ returns (
          number (pos 0),
          record c { local_streams = remove stream c.local_streams },
          asks (remove_stream_of native_stream) ∷ [],
        )
      ])
      else returns (number (negsuc 0), c, [])

  -- CreateLocalMediaStream, whose new wrapper is given; `none` without a factory of WebRTC.
  unfoldable pub create_local_stream : Option ℕ → Connection → Result I
  create_local_stream none c = (object none, c, [])
  create_local_stream (some wrapper) c =
      (object (some wrapper), record c { local_streams = c.local_streams ++ wrapper ∷ [] }, [])

  -- A request that gives an object or an error.
  abbrev pub ask_object : Request I → Connection → Result I
  ask_object q c = (object (webrtc.answer q), c, asks q ∷ [])

  abbrev pub refuse : Connection → Result I
  refuse c = (object none, c, [])

  abbrev on_native : Option ℕ → (ℕ → Request I) → Connection → Result I
  on_native none q c = refuse c
  on_native (some o) q c = ask_object (q o) c

  -- AddTransceiver, of a track or null and an initialisation or null.
  unfoldable pub add_track_transceiver_init : Option Track → Option I → Connection → Result I
  unfolding to_native_track
  add_track_transceiver_init none init c = refuse c
  add_track_transceiver_init (some t) none c = refuse c
  add_track_transceiver_init (some t) (some i) c = elim c.native [
    | none ↦ refuse c
    | some n ↦ on_native (to_native_track (some t)) (λ o. transceiver_of_track o (some i)) c
  ]

  -- AddTransceiver, of a track or null.
  unfoldable pub add_track_transceiver : Option Track → Connection → Result I
  unfolding to_native_track
  add_track_transceiver none c = refuse c
  add_track_transceiver (some t) c = elim c.native [
    | none ↦ refuse c
    | some n ↦ on_native (to_native_track (some t)) (λ o. transceiver_of_track o none) c
  ]

  abbrev on_type : MediaType → Option I → Connection → Result I
  on_type unsupported init c = refuse c
  on_type audio_type init c = ask_object (transceiver_of_type audio_type init) c
  on_type video_type init c = ask_object (transceiver_of_type video_type init) c

  -- AddTransceiver, of a media type.
  unfoldable pub add_type_transceiver : ℕ → Connection → Result I
  unfolding to_native_media_type
  add_type_transceiver type c = elim c.native [
    | none ↦ refuse c
    | some n ↦ on_type (to_native_media_type type) none c
  ]

  -- AddTransceiver, of a media type and an initialisation or null.
  unfoldable pub add_type_transceiver_init : ℕ → Option I → Connection → Result I
  unfolding to_native_media_type
  add_type_transceiver_init type none c = refuse c
  add_type_transceiver_init type (some i) c = elim c.native [
    | none ↦ refuse c
    | some n ↦ on_type (to_native_media_type type) (some i) c
  ]

  -- AddTrack.
  unfoldable pub add_track : Option Track → List Bytes → Connection → Result I
  unfolding to_native_track
  add_track none ids c = refuse c
  add_track (some t) ids c = elim c.native [
    | none ↦ refuse c
    | some n ↦ on_native (to_native_track (some t)) (λ o. add_track_of o ids) c
  ]

  -- RemoveTrack.
  unfoldable pub remove_track : ℕ → Connection → Outcome (Result I)
  remove_track sender c = elim c.native [
    | none ↦ crashes
    | some n ↦
        let q = remove_track_of sender in returns (flag (is_some (webrtc.answer q)), c, asks q ∷ [])
  ]

  abbrev listing : List ℕ → Connection → Outcome (Result I)
  listing os c = elim c.native [ none ↦ crashes | some n ↦ returns (objects os, c, []) ]

  -- senders.
  unfoldable pub senders : Connection → Outcome (Result I)
  senders = listing webrtc.senders

  -- receivers.
  unfoldable pub receivers : Connection → Outcome (Result I)
  receivers = listing webrtc.receivers

  -- transceivers.
  unfoldable pub transceivers : Connection → Outcome (Result I)
  transceivers = listing webrtc.transceivers

-- The operations of RTCPeerConnection of a connection.
pub data Operation (I : Type 0) : Type 0 where
  closing restarting listing_senders listing_receivers listing_transceivers : Operation I
  candidate_adding : Bytes → ℤ → Bytes → Operation I
  channel_creating : Bytes → ChannelInit → Operation I
  stream_adding stream_removing : ℕ → ℕ → Operation I
  stream_creating : Option ℕ → Operation I
  track_adding : Option Track → List Bytes → Operation I
  track_removing : ℕ → Operation I
  track_transceiver : Option Track → Operation I
  track_transceiver_init : Option Track → Option I → Operation I
  type_transceiver : ℕ → Operation I
  type_transceiver_init : ℕ → Option I → Operation I

unfoldable pub perform : {I : Type 0} → WebRtc I → Operation I → Connection → Outcome (Result I)
unfolding close restart_ice senders receivers transceivers add_candidate create_data_channel
    add_stream remove_stream create_local_stream add_track remove_track add_track_transceiver
    add_track_transceiver_init add_type_transceiver add_type_transceiver_init
perform w closing c = let (c1, es) = close c in returns (unit, c1, es)
perform w restarting c = returns (restart_ice w c)
perform w listing_senders c = senders w c
perform w listing_receivers c = receivers w c
perform w listing_transceivers c = transceivers w c
perform w (candidate_adding mid index candidate) c = returns (add_candidate w mid index candidate c)
perform w (channel_creating label init) c = create_data_channel w label init c
perform w (stream_adding s n) c = add_stream w s n c
perform w (stream_removing s n) c = remove_stream w s n c
perform w (stream_creating s) c = returns (create_local_stream w s c)
perform w (track_adding t ids) c = returns (add_track w t ids c)
perform w (track_removing s) c = remove_track w s c
perform w (track_transceiver t) c = returns (add_track_transceiver w t c)
perform w (track_transceiver_init t i) c = returns (add_track_transceiver_init w t i c)
perform w (type_transceiver m) c = returns (add_type_transceiver w m c)
perform w (type_transceiver_init m i) c = returns (add_type_transceiver_init w m i c)
