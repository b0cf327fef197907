-- ===== src/Factory/Devices.antt =====
-- The devices and the capabilities that a factory gives, against its threads.
use lumen_rtc.Base.{ℕ, ◌≡◌, arith, true, false, Option, none, some, if◌then◌else◌}
use lumen_rtc.Connection.Bridge.{crashes, returns}
use lumen_rtc.Factory.{
  Factory, System, Capabilities, initialize, get_video_device, get_desktop_device, is_on, is_video,
  get_rtp_sender_capabilities, get_rtp_receiver_capabilities,
}
use lumen_rtc.Factory.Invariant.{Reach, reached}

-- All threads start, and WebRTC gives its factory.
abbrev pub Succeeds : System → Type 0
Succeeds w =
    (w.worker.starts ≡ true)
    × (w.signaling.starts ≡ true)
    × (w.network.starts ≡ true)
    × (w.creates ≡ true)

-- The thread of the video device behind a successful Initialize is the worker thread, unless the client
-- asked for the device before: then the device has no thread for good, and so it is with the desktop device
-- and the signaling thread.
pub device_threads :
    {f : Factory} (w : System)
    → Reach f
    → f.native ≡ false
    → f.video_device ≡ none
    → f.desktop_device ≡ none
    → Succeeds w
    → ((get_video_device (initialize w f).0).0 ≡ some w.worker.thread)
      × ((get_desktop_device (initialize w f).0).0 ≡ some w.signaling.thread)
      × ((get_video_device (initialize w (get_video_device f).1).0).0 ≡ none)
      × ((get_desktop_device (initialize w (get_desktop_device f).1).0).0 ≡ none)
unfolding initialize get_video_device get_desktop_device
device_threads {f} w r n v d s = (
  ground arith,
  ground arith,
  ground (arith, (reached r).worker),
  ground (arith, (reached r).signaling),
)

-- Behind Initialize the sender's capabilities are WebRTC's for senders on any thread; the receiver's are
-- WebRTC's for receivers on the signaling thread only, and those for senders on every other. Without
-- Initialize both calls crash.
pub capabilities_lem :
    {C : Type 0} (webrtc : Capabilities C) (current : Option ℕ) (type : ℕ) {f : Factory}
    → Reach f
    → (get_rtp_sender_capabilities webrtc current type f
        ≡ (if f.native then returns (webrtc.of_senders (is_video type)) else crashes))
      × (get_rtp_receiver_capabilities webrtc current type f ≡ (
          if f.native
          then returns (
              if is_on current f.signaling_thread
              then webrtc.of_receivers (is_video type)
              else webrtc.of_senders (is_video type))
          else crashes))
unfolding get_rtp_sender_capabilities get_rtp_receiver_capabilities
capabilities_lem webrtc current type {f} r =
    (ground (arith, (reached r).signaling), ground (arith, (reached r).signaling))
