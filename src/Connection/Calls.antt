-- ===== src/Connection/Calls.antt =====
-- The calls of native/src/lumenrtc_impl.cpp that add candidates, streams, tracks, transceivers and channels to a peer
-- connection. `pc` tells whether the handle is there and holds the connection; a track is `none` for a null
-- handle or a handle with no `ref`.
use lumen_rtc.Base.{
  ℕ, Bool, true, false, not, List, [], ◌∷◌, Option, none, some, if◌then◌else◌, is_some, ◌==◌, ℤ,
  pos, truthy, Allocator,
}
use lumen_rtc.Text.{Bytes, build_string_vector}
use lumen_rtc.Peer.Events.{Track, Handles}
use lumen_rtc.Peer.Lookup.{handle_on}
use lumen_rtc.Encoding.{Native}
use lumen_rtc.Encoding.Transceiver.{InitArguments, TransceiverInit, build_transceiver_init}
use lumen_rtc.Connection.Bridge.{
  Outcome, crashes, returns, ChannelInit, WebRtc, Connection, Event, Reply, flag, number, object,
}
use lumen_rtc.Connection.Operations.{
  Result, add_candidate, create_data_channel, add_stream, remove_stream, remove_track, add_track,
  add_track_transceiver, add_track_transceiver_init, add_type_transceiver,
  add_type_transceiver_init,
}

-- A client's array of texts, with its count.
pub record Texts : Type 0 where
  pub items : Option (List (Option Bytes))
  pub count : ℕ

-- The arguments of a new channel: numbers where the bridge has Booleans.
pub record ChannelArguments : Type 0 where
  pub ordered : ℤ
  pub reliable : ℤ
  pub max_retransmit_time : ℤ
  pub max_retransmits : ℤ
  pub protocol : Option Bytes
  pub negotiated : ℤ
  pub id : ℤ

-- RTCDataChannelInit's own protocol, "sctp", where the client's is null.
abbrev pub or_sctp : Option Bytes → Bytes
or_sctp none = b's' ∷ b'c' ∷ b't' ∷ b'p' ∷ []
or_sctp (some p) = p

abbrev pub channel_init : ChannelArguments → ChannelInit
channel_init a = record {
  ordered = truthy a.ordered;
  reliable = truthy a.reliable;
  max_retransmit_time = a.max_retransmit_time;
  max_retransmits = a.max_retransmits;
  protocol = or_sctp a.protocol;
  negotiated = truthy a.negotiated;
  id = a.id;
}

module _ (W : Native) (webrtc : WebRtc (TransceiverInit W.D)) where
  -- `sender.get() ? 1 : 0`, and a Boolean as a number.
  abbrev truth : Reply → ℕ
  truth (object (some o)) = 1
  truth (flag true) = 1
  truth r = 0

  abbrev Answer : Type 0
  Answer = ℕ × Connection × List (Event (TransceiverInit W.D))

  -- lrtc_impl_peer_connection_add_audio_track.
  unfoldable pub add_audio_track : Bool → Option Track → Texts → Connection → Answer
  unfolding add_track
  add_audio_track pc track ids c =
      let (r, c1, es) = add_track webrtc track (build_string_vector ids.items ids.count) c in
      if pc then (if is_some track then (truth r, c1, es) else (0, c, [])) else (0, c, [])

  -- lrtc_impl_peer_connection_add_video_track.
  unfoldable pub add_video_track : Bool → Option Track → Texts → Connection → Answer
  unfolding add_track
  add_video_track pc track ids c =
      let (r, c1, es) = add_track webrtc track (build_string_vector ids.items ids.count) c in
      if pc then (if is_some track then (truth r, c1, es) else (0, c, [])) else (0, c, [])

  -- lrtc_impl_peer_connection_add_ice_candidate_ex, with the tracing switch.
  unfoldable pub add_ice_candidate_ex :
      Bool → Bool → Option Bytes → ℤ → Option Bytes → Connection → Answer
  unfolding add_candidate
  add_ice_candidate_ex trace pc none index candidate c = (0, c, [])
  add_ice_candidate_ex trace pc (some mid) index none c = (0, c, [])
  add_ice_candidate_ex trace pc (some mid) index (some candidate) c =
      let (r, c1, es) = add_candidate webrtc mid index candidate c in
      let added : Answer = (truth r, c1, es) in
      if not pc
      then (0, c, [])
      else if trace
      then (if webrtc.parses_candidate mid index candidate then added else (0, c, []))
      else added

  module _ (heap : Allocator) where
    abbrev pub Given : Type 0
    Given = Option ℕ × Handles × Connection × List (Event (TransceiverInit W.D))

    abbrev pub refused : Handles → Connection → Given
    refused hs c = (none, hs, c, [])

    -- A new handle on the object that the bridge gives; null for null.
    abbrev pub handle_of : Result (TransceiverInit W.D) → Handles → Given
    handle_of (object o, c, es) hs = let (h, hs1) = handle_on heap o hs in (h, hs1, c, es)
    handle_of (r, c, es) hs = (none, hs, c, es)

    -- lrtc_impl_peer_connection_add_audio_track_sender.
    unfoldable pub add_audio_track_sender :
        Bool → Option Track → Texts → Handles → Connection → Given
    add_audio_track_sender false track ids hs c = refused hs c
    add_audio_track_sender true none ids hs c = refused hs c
    add_audio_track_sender true (some t) ids hs c =
        handle_of (add_track webrtc (some t) (build_string_vector ids.items ids.count) c) hs

    -- lrtc_impl_peer_connection_add_video_track_sender.
    unfoldable pub add_video_track_sender :
        Bool → Option Track → Texts → Handles → Connection → Given
    add_video_track_sender false track ids hs c = refused hs c
    add_video_track_sender true none ids hs c = refused hs c
    add_video_track_sender true (some t) ids hs c =
        handle_of (add_track webrtc (some t) (build_string_vector ids.items ids.count) c) hs

    -- lrtc_impl_peer_connection_add_transceiver.
    unfoldable pub add_transceiver : Bool → ℕ → Handles → Connection → Given
    add_transceiver false type hs c = refused hs c
    add_transceiver true type hs c = handle_of (add_type_transceiver webrtc type c) hs

    -- lrtc_impl_peer_connection_add_audio_track_transceiver.
    unfoldable pub add_audio_track_transceiver : Bool → Option Track → Handles → Connection → Given
    add_audio_track_transceiver false track hs c = refused hs c
    add_audio_track_transceiver true none hs c = refused hs c
    add_audio_track_transceiver true (some t) hs c =
        handle_of (add_track_transceiver webrtc (some t) c) hs

    -- lrtc_impl_peer_connection_add_video_track_transceiver.
    unfoldable pub add_video_track_transceiver : Bool → Option Track → Handles → Connection → Given
    add_video_track_transceiver false track hs c = refused hs c
    add_video_track_transceiver true none hs c = refused hs c
    add_video_track_transceiver true (some t) hs c =
        handle_of (add_track_transceiver webrtc (some t) c) hs

    -- lrtc_impl_peer_connection_add_transceiver_with_init.
    unfoldable pub add_transceiver_with_init :
        Bool → ℕ → Option (InitArguments W.D) → Handles → Connection → Given
    add_transceiver_with_init false type init hs c = refused hs c
    add_transceiver_with_init true type none hs c = refused hs c
    add_transceiver_with_init true type (some init) hs c =
        handle_of (add_type_transceiver_init webrtc type (build_transceiver_init W (some init)) c)
          hs

    -- lrtc_impl_peer_connection_add_audio_track_transceiver_with_init.
    unfoldable pub add_audio_track_transceiver_with_init :
        Bool → Option Track → Option (InitArguments W.D) → Handles → Connection → Given
    add_audio_track_transceiver_with_init false track init hs c = refused hs c
    add_audio_track_transceiver_with_init true none init hs c = refused hs c
    add_audio_track_transceiver_with_init true (some t) none hs c = refused hs c
    add_audio_track_transceiver_with_init true (some t) (some init) hs c =
        handle_of
          (add_track_transceiver_init webrtc (some t) (build_transceiver_init W (some init)) c) hs

    -- lrtc_impl_peer_connection_add_video_track_transceiver_with_init.
    unfoldable pub add_video_track_transceiver_with_init :
        Bool → Option Track → Option (InitArguments W.D) → Handles → Connection → Given
    add_video_track_transceiver_with_init false track init hs c = refused hs c
    add_video_track_transceiver_with_init true none init hs c = refused hs c
    add_video_track_transceiver_with_init true (some t) none hs c = refused hs c
    add_video_track_transceiver_with_init true (some t) (some init) hs c =
        handle_of
          (add_track_transceiver_init webrtc (some t) (build_transceiver_init W (some init)) c) hs

    -- lrtc_impl_peer_connection_create_data_channel, of a label and a protocol that may be null.
    unfoldable pub create_data_channel_handle :
        Bool → Option Bytes → ChannelArguments → Handles → Connection → Outcome Given
    create_data_channel_handle false label a hs c = returns (refused hs c)
    create_data_channel_handle true none a hs c = returns (refused hs c)
    create_data_channel_handle true (some label) a hs c =
        elim (create_data_channel webrtc label (channel_init a) c) [
          | crashes ↦ crashes
          | returns r ↦ returns (handle_of r hs)
        ]

  -- A Boolean answer, of a call that may crash.
  abbrev truth_of :
      Outcome (Result (TransceiverInit W.D))
      → Outcome (Bool × Connection × List (Event (TransceiverInit W.D)))
  truth_of crashes = crashes
  truth_of (returns (number (pos n), c, es)) = returns (n == 0, c, es)
  truth_of (returns (flag b, c, es)) = returns (b, c, es)
  truth_of (returns (r, c, es)) = returns (false, c, es)

  -- lrtc_impl_peer_connection_add_stream, of a stream's wrapper with its WebRTC stream, or `none`.
  unfoldable pub add_stream_handle :
      Bool
      → Option (ℕ × ℕ)
      → Connection
      → Outcome (Bool × Connection × List (Event (TransceiverInit W.D)))
  add_stream_handle false stream c = returns (false, c, [])
  add_stream_handle true none c = returns (false, c, [])
  add_stream_handle true (some s) c = truth_of (add_stream webrtc s.0 s.1 c)

  -- lrtc_impl_peer_connection_remove_stream.
  unfoldable pub remove_stream_handle :
      Bool
      → Option (ℕ × ℕ)
      → Connection
      → Outcome (Bool × Connection × List (Event (TransceiverInit W.D)))
  remove_stream_handle false stream c = returns (false, c, [])
  remove_stream_handle true none c = returns (false, c, [])
  remove_stream_handle true (some s) c = truth_of (remove_stream webrtc s.0 s.1 c)

  -- lrtc_impl_peer_connection_remove_track, whose 1 and 0 are true and false.
  unfoldable pub remove_track_handle :
      Bool
      → Option ℕ
      → Connection
      → Outcome (Bool × Connection × List (Event (TransceiverInit W.D)))
  remove_track_handle false sender c = returns (false, c, [])
  remove_track_handle true none c = returns (false, c, [])
  remove_track_handle true (some s) c = truth_of (remove_track webrtc s c)
