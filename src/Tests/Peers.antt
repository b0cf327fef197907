-- ===== src/Tests/Peers.antt =====
-- Examples on peer connections, DTMF senders and data channels.
use lumen_rtc.Base.{
  ℕ, ◌<◌, ◌≡◌, ◌⊎◌, refl, true, false, List, [], ◌∷◌, none, some, arith, bump, count, All, pos,
  negsuc,
}
use lumen_rtc.Peer.Config.{Arguments, Configuration, Options, Server, ServerArguments}
use lumen_rtc.Peer.Events.{
  Observer, Handles, Notification, no_callbacks, notify, track_added, video,
}
use lumen_rtc.Peer.Delivery.{given_onto, Allowed, notify-Delivered}
use lumen_rtc.Peer.Lookup.{Objects}
use lumen_rtc.Channel
use lumen_rtc.Channel.States.{
  View, new_view, channel_open, on_state_change, Run, rest, then_step, sets_both, changes,
}
use lumen_rtc.Dtmf.{
  Dtmf, untouched, get_dtmf_sender, set_callbacks, on_tone_change, Reach, start, next, looks_up,
  sets, silent, calls, on_tone_change-safe,
}

abbrev observer : Observer
observer = record {
  callbacks = record no_callbacks { on_track = true; on_video_track = true };
  user_data = 5;
}

abbrev camera : Notification
camera = track_added (
    some (record {
      object = 40;
      receiver = some (record { object = 41; track = some (record { object = 42; kind = video }) });
    }))

abbrev none_yet : Handles
none_yet = record { live = []; ref = λ a. 0 }

notify-Delivered_example :
    let (hs1, told) = notify bump observer camera none_yet in
    (hs1.live ≡ given_onto told none_yet.live) × All (Allowed observer) told
notify-Delivered_example = notify-Delivered bump observer camera none_yet

abbrev options : Options
options = record {
  type = 0;
  bundle_policy = 0;
  rtcp_mux_policy = 1;
  candidate_network_policy = 0;
  tcp_candidate_policy = 0;
  ice_candidate_pool_size = pos 0;
  srtp_type = 1;
  sdp_semantics = 1;
  offer_to_receive_audio = true;
  offer_to_receive_video = true;
  disable_ipv6 = false;
  disable_ipv6_on_wifi = false;
  max_ipv6_networks = pos 5;
  disable_link_local_networks = false;
  screencast_min_bitrate = negsuc 0;
  enable_dscp = false;
  use_rtp_mux = true;
  local_audio_bandwidth = 0;
  local_video_bandwidth = 0;
}

abbrev eight {ℓ} : {A : Type ℓ} → A → List A
eight a = a ∷ a ∷ a ∷ a ∷ a ∷ a ∷ a ∷ a ∷ []

abbrev stun : ServerArguments
stun = record { uri = some (b's' ∷ []); username = none; password = none }

abbrev blank : Server
blank = record { uri = []; username = []; password = [] }

abbrev pub arguments : Arguments
arguments = record { ice_servers = eight stun; ice_server_count = 2; options = options }

abbrev configuration : Configuration
configuration = record { ice_servers = eight blank; options = options }

abbrev transceivers : Objects
transceivers = some (some 60 ∷ none ∷ [])

abbrev with_handle : Dtmf
with_handle = (get_dtmf_sender bump untouched).1

abbrev listening : Dtmf
listening = set_callbacks (some 1) (some 90) with_handle

abbrev listening_Reach : Reach bump listening
unfolding get_dtmf_sender
listening_Reach = next (next start looks_up) (sets 1 (some 90) (omega arith))

on_tone_change-safe_example :
    (on_tone_change listening ≡ silent)
    ⊎ ((h : ℕ) × (f : ℕ) × (0 < count h listening.live)
        × (listening.callback h ≡ some f)
        × (on_tone_change listening ≡ calls f))
on_tone_change-safe_example = on_tone_change-safe bump listening_Reach

abbrev open_view : View
open_view =
    (on_state_change channel_open (record new_view {
      channel = Channel.set_callbacks (some 80) Channel.opened;
      on_state = some 81;
    })).0

abbrev open_view_Run : Run new_view open_view
open_view_Run =
    then_step (then_step rest (sets_both (some 80) (some 81) refl)) (changes channel_open)

abbrev closed_view : View
closed_view = record open_view { channel = Channel.close open_view.channel }
