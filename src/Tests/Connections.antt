-- ===== src/Tests/Connections.antt =====
-- Examples on peer connections of the bridge.
use lumen_rtc.Base.{ℕ, ◌≡◌, refl, true, [], ◌∷◌, none, some, take, bump, ◌↔◌}
use lumen_rtc.Peer.Config.{copy_config, copied_count}
use lumen_rtc.Peer.Events.{Observer, Handles, Track, audio, no_callbacks}
use lumen_rtc.Connection.Native.{
  default_configuration, native_configuration, disable_encryption, named, bundle_number,
  semantics_number, network_number, tcp_number, transport_number, mux_number, in_range,
  native_configuration-copy_config,
}
use lumen_rtc.Connection.Bridge.{WebRtc, Connection, on_add_stream}
use lumen_rtc.Connection.Life.{Run, rest, then_step, gains_stream, wrappers}
use lumen_rtc.Connection.Streams.{replay}
use lumen_rtc.Connection.Follow.{Inv, Run-Followed}
use lumen_rtc.Encoding.Transceiver.{TransceiverInit}
use lumen_rtc.Connection.Giving.{audio_sender, give, given, wanted, give_lem}
use lumen_rtc.Tests.Peers.{arguments}
use lumen_rtc.Tests.Encodings.{native}

native_configuration-copy_config_example :
    let config = copy_config (some arguments) default_configuration in
    let n = native_configuration config in
    (n.servers ≡ named (take (copied_count 2) arguments.ice_servers))
    × (bundle_number n.bundle_policy ≡ in_range 2 0 0)
    × (semantics_number n.sdp_semantics ≡ in_range 1 1 1)
    × (network_number n.candidate_network_policy ≡ in_range 1 0 0)
    × (tcp_number n.tcp_candidate_policy ≡ in_range 1 0 0)
    × (transport_number n.type ≡ in_range 3 3 0)
    × (mux_number n.rtcp_mux_policy ≡ in_range 1 1 1)
    × ((disable_encryption config ≡ true) ↔ (arguments.options.srtp_type ≡ 0))
native_configuration-copy_config_example = native_configuration-copy_config arguments refl

abbrev listener : Observer
listener = record { callbacks = record no_callbacks { on_signaling_state = true }; user_data = 5 }

abbrev no_handles : Handles
no_handles = record { live = []; ref = λ a. 0 }

abbrev webrtc : (I : Type 0) → WebRtc I
webrtc I = record {
  answer = λ q. some 70;
  parses_candidate = λ mid index candidate. true;
  senders = 71 ∷ [];
  receivers = [];
  transceivers = [];
}

abbrev open_connection : Connection
open_connection = record {
  native = some 1;
  observer = some 2;
  local_streams = [];
  remote_streams = [];
  data_channel = none;
  configuration = default_configuration;
}

abbrev closed_connection : Connection
closed_connection = record open_connection { native = none }

abbrev with_stream : Connection
with_stream = (on_add_stream {I = ℕ} 40 41 open_connection).0

gained : Run {I = ℕ} open_connection with_stream (on_add_stream {I = ℕ} 40 41 open_connection).1
gained = then_step rest (gains_stream 40 41 refl)

open-Inv : Inv open_connection
open-Inv = record { distinct = tt; address = 2; observed = refl }

Run-Followed_example :
    Inv with_stream
    × (replay (on_add_stream {I = ℕ} 40 41 open_connection).1 []
        ≡ wrappers with_stream.remote_streams)
unfolding gained
Run-Followed_example = Run-Followed gained (tt, tt) open-Inv

abbrev voice : Track
voice = record { object = 42; kind = audio }

give_lem_example :
    let q = audio_sender (some voice) (record { items = none; count = 0 }) in
    give native (webrtc (TransceiverInit native.D)) bump true q no_handles open_connection
    ≡ given native
        (webrtc (TransceiverInit native.D))
        bump
        (wanted native q)
        no_handles
        open_connection
give_lem_example =
    give_lem native (webrtc (TransceiverInit native.D)) bump
      (audio_sender (some voice) (record { items = none; count = 0 })) no_handles open_connection
