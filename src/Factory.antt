-- ===== src/Factory.antt =====
-- RTCPeerConnectionFactoryImpl, bridge/lumenrtc_bridge/src/rtc_peerconnection_factory_impl.cc: its threads,
-- its devices and the capabilities. A thread of WebRTC is a number.
pub mod Invariant
pub mod Devices
pub mod Lifetime
use lumen_rtc.Base.{
  ℕ, Bool, true, false, not, ◌&&◌, ◌||◌, List, [], ◌∷◌, ◌++◌, Option, none, some, if◌then◌else◌,
  ◌==◌, ℤ, pos, negsuc,
}
use lumen_rtc.Connection.Bridge.{Outcome, crashes, returns}

pub record Factory : Type 0 where
  pub worker_thread : Option ℕ
  pub signaling_thread : Option ℕ
  pub network_thread : Option ℕ
  -- Whether `rtc_peerconnection_factory_` is set, and so on.
  pub native : Bool
  pub audio_device_module : Bool
  pub audio_processing : Bool
  pub task_queue_factory : Bool
  -- A device's wrapper, with the thread that it was given, null or not.
  pub audio_device : Option (Option ℕ)
  pub video_device : Option (Option ℕ)
  pub desktop_device : Option (Option ℕ)
  -- `peerconnections_`.
  pub connections : List ℕ

-- A new thread, and whether it starts.
pub record Start : Type 0 where
  pub thread : ℕ
  pub starts : Bool

-- What the system and WebRTC give.
pub record System : Type 0 where
  pub worker : Start
  pub signaling : Start
  pub network : Start
  pub has_audio : Bool
  pub creates : Bool

-- A new factory.
abbrev pub blank : Factory
blank = record {
  worker_thread = none;
  signaling_thread = none;
  network_thread = none;
  native = false;
  audio_device_module = false;
  audio_processing = false;
  task_queue_factory = false;
  audio_device = none;
  video_device = none;
  desktop_device = none;
  connections = [];
}

-- Terminate: on the worker thread, or on the caller's where there is none, the same members are cleared, and
-- then the threads.
unfoldable pub terminate : Factory → Factory
terminate f =
    let cleared : Factory = record f {
      connections = [];
      desktop_device = none;
      audio_device = none;
      video_device = none;
      audio_processing = false;
      native = false;
      audio_device_module = false;
      task_queue_factory = false;
    } in
    record cleared { network_thread = none; signaling_thread = none; worker_thread = none }

-- Initialize behind the start of the threads.
abbrev create_native : System → Factory → Factory × Bool
create_native w f =
    let prepared : Factory = record f {
      task_queue_factory = true;
      audio_device_module = f.audio_device_module || w.has_audio;
      audio_processing = true;
    } in
    if w.creates then (record prepared { native = true }, true) else (terminate prepared, false)

-- Initialize.
unfoldable pub initialize : System → Factory → Factory × Bool
unfolding terminate
initialize w f =
    let f1 : Factory = record f { worker_thread = some w.worker.thread } in
    let f2 : Factory = record f1 { signaling_thread = some w.signaling.thread } in
    let f3 : Factory = record f2 { network_thread = some w.network.thread } in
    if f.native
    then (f, true)
    else if not w.worker.starts
    then (record f { worker_thread = none }, false)
    else if not w.signaling.starts
    then (terminate f2, false)
    else if not w.network.starts
    then (terminate f3, false)
    else create_native w f3

-- lrtc_impl_factory_initialize, of a handle that is null or not.
pub data FactoryResult : Type 0 where
  lrtc_ok lrtc_error lrtc_invalid_arg : FactoryResult

unfoldable pub factory_initialize : System → Bool → Factory → Factory × FactoryResult
unfolding initialize
factory_initialize w false f = (f, lrtc_invalid_arg)
factory_initialize w true f =
    let (f1, ok) = initialize w f in (f1, if ok then lrtc_ok else lrtc_error)

-- lrtc_impl_factory_terminate.
unfoldable pub factory_terminate : Bool → Factory → Factory
unfolding terminate
factory_terminate factory f = if factory then terminate f else f

-- Create, with the constructor of the connection, which uses `rtc_peerconnection_factory_` without a test:
-- the new wrapper is kept whatever WebRTC answers to it.
unfoldable pub create : ℕ → Factory → Outcome Factory
create connection f =
    if f.native
    then returns (record f { connections = f.connections ++ connection ∷ [] })
    else crashes

abbrev pub without : ℕ → List ℕ → List ℕ
without c [] = []
without c (x ∷ xs) = let rest = without c xs in if x == c then rest else x ∷ rest

-- Delete.
unfoldable pub delete : ℕ → Factory → Factory
delete connection f = record f { connections = without connection f.connections }

abbrev kept : Option (Option ℕ) → Option ℕ → Option ℕ
kept none thread = thread
kept (some t) thread = t

-- GetAudioDevice: the thread of the device, with the new state.
unfoldable pub get_audio_device : System → Factory → Outcome (Option ℕ × Factory)
get_audio_device w f =
    let t = kept f.audio_device f.worker_thread in
    if f.audio_device_module
    then returns (t, record f { audio_device = some t })
    else elim f.worker_thread [
      | none ↦ crashes
      | some worker ↦
          returns (t, record f { audio_device = some t; audio_device_module = w.has_audio })
    ]

-- GetVideoDevice.
unfoldable pub get_video_device : Factory → Option ℕ × Factory
get_video_device f =
    let t = kept f.video_device f.worker_thread in (t, record f { video_device = some t })

-- GetDesktopDevice.
unfoldable pub get_desktop_device : Factory → Option ℕ × Factory
get_desktop_device f =
    let t = kept f.desktop_device f.signaling_thread in (t, record f { desktop_device = some t })

-- webrtc::MediaType of the capabilities: audio for every number but that of video.
unfoldable pub is_video : ℕ → Bool
is_video type = type == 1

abbrev pub is_on : Option ℕ → Option ℕ → Bool
is_on none none = true
is_on (some a) (some b) = a == b
is_on a b = false

-- WebRTC's capabilities, for video or for audio.
pub record Capabilities (C : Type 0) : Type 0 where
  pub of_senders : Bool → C
  pub of_receivers : Bool → C

module _ {C : Type 0} (webrtc : Capabilities C) where
  abbrev on_signaling : (Bool → C) → ℕ → Factory → Outcome C
  on_signaling of type f = if f.native then returns (of (is_video type)) else crashes

  -- GetRtpSenderCapabilities, called on a thread of WebRTC or on none.
  unfoldable pub get_rtp_sender_capabilities : Option ℕ → ℕ → Factory → Outcome C
  unfolding is_video
  get_rtp_sender_capabilities current type f =
      if is_on current f.signaling_thread
      then on_signaling webrtc.of_senders type f
      else elim f.signaling_thread [
        | none ↦ crashes
        | some t ↦ on_signaling webrtc.of_senders type f
      ]

  -- GetRtpReceiverCapabilities.
  unfoldable pub get_rtp_receiver_capabilities : Option ℕ → ℕ → Factory → Outcome C
  unfolding is_video get_rtp_sender_capabilities
  get_rtp_receiver_capabilities current type f =
      if is_on current f.signaling_thread
      then on_signaling webrtc.of_receivers type f
      else elim f.signaling_thread [
        | none ↦ crashes
        | some t ↦ get_rtp_sender_capabilities (some t) type f
      ]
