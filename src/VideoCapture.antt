-- ===== src/VideoCapture.antt =====
-- Cameras: the calls lrtc_impl_video_device_* and lrtc_impl_video_capturer_* of native/src/lumenrtc_impl.cpp,
-- over bridge/lumenrtc_bridge/src/rtc_video_device_impl.cc and
-- bridge/lumenrtc_bridge/src/internal/vcm_capturer.cc. What WebRTC's capture modules answer is a parameter, and
-- modules are their addresses.
pub mod Life
pub mod Choice
use lumen_rtc.Base.{
  ℕ, Bool, true, false, List, [], ◌∷◌, Option, none, some, if◌then◌else◌, ℤ, negsuc, to_i32, zero,
  suc, ◌+◌,
}
use lumen_rtc.Text.{Bytes}

-- VideoCaptureCapability; its type is always kI420.
pub record Capability : Type 0 where
  pub width : ℤ
  pub height : ℤ
  pub max_fps : ℤ
  pub interlaced : Bool

-- VcmCapturer.
pub record VcmCapturer : Type 0 where
  pub vcm : Option ℕ
  pub capability : Capability

-- The calls of a capture module.
pub data Call : Type 0 where
  registers : ℕ → Call
  deregisters : ℕ → Call
  starts : ℕ → Capability → Call
  stops : ℕ → Call

-- What WebRTC answers: the unique name of a device, the module for a name, and the `interlaced` that
-- GetCapability finds for a module.
pub record Cameras : Type 0 where
  pub device_name : ℕ → Option Bytes
  pub create_module : Bytes → Option ℕ
  pub interlaced : ℕ → Bool

-- VcmCapturer::Init with Create. Where it fails there is no module, and Destroy does nothing.
unfoldable pub create_vcm : Cameras → ℕ → ℕ → ℕ → ℕ → Option VcmCapturer × List Call
create_vcm w width height fps index = elim (w.device_name index) [
  | none ↦ (none, [])
  | some name ↦ elim (w.create_module name) [
    | none ↦ (none, [])
    | some m ↦ (
      some (record {
        vcm = some m;
        capability = record {
          width = to_i32 width;
          height = to_i32 height;
          max_fps = to_i32 fps;
          interlaced = w.interlaced m;
        };
      }),
      registers m ∷ [],
    )
  ]
]

-- A call through a null pointer is `crashes`.
pub data Outcome (A : Type 0) : Type 0 where
  done : A → VcmCapturer → List Call → Outcome A
  crashes : Outcome A

-- VcmCapturer::StopCapture.
unfoldable pub stop_capture : VcmCapturer → Outcome Unit
stop_capture c = elim c.vcm [
  | none ↦ crashes
  | some m ↦ done tt (record c { vcm = none }) (stops m ∷ [])
]

-- VcmCapturer::Destroy, which the destructor calls.
unfoldable pub destroy : VcmCapturer → VcmCapturer × List Call
destroy c = elim c.vcm [
  | none ↦ (c, [])
  | some m ↦ (record c { vcm = none }, deregisters m ∷ stops m ∷ [])
]

-- VcmCapturer::StartCapture, where the module answers 0 if `ok`.
unfoldable pub start_capture : Bool → VcmCapturer → Outcome Bool
start_capture ok c = elim c.vcm [
  | none ↦ crashes
  | some m ↦
      if ok
      then done true c (starts m c.capability ∷ [])
      else done false (record c { vcm = none })
          (starts m c.capability ∷ deregisters m ∷ stops m ∷ [])
]

-- VcmCapturer::CaptureStarted, where the module answers `on`.
unfoldable pub capture_started : Bool → VcmCapturer → Bool
capture_started on c = elim c.vcm [ none ↦ false | some m ↦ on ]

-- lrtc_impl_video_device_number_of_devices with RTCVideoDeviceImpl::NumberOfDevices: of a handle that is null,
-- of one without device information, or of one with it.
unfoldable pub number_of_devices : Option (Option ℕ) → ℕ
number_of_devices none = 0
number_of_devices (some none) = 0
number_of_devices (some (some n)) = n

-- lrtc_impl_video_device_get_device_name with RTCVideoDeviceImpl::GetDeviceName, of buffers that may be null,
-- where WebRTC answers by the index.
unfoldable pub get_device_name : Option (Option (ℕ → ℤ)) → ℕ → Bool → Bool → ℤ
get_device_name none index name? id? = negsuc 0
get_device_name (some info) index name? id? =
    if name?
    then (if id? then elim info [ none ↦ negsuc 0 | some f ↦ f index ] else negsuc 0)
    else negsuc 0

-- lrtc_impl_video_device_create_capturer with RTCVideoDeviceImpl::Create, which reads no name.
unfoldable pub create_capturer :
    Option Cameras → Bool → ℕ → ℕ → ℕ → ℕ → Option VcmCapturer × List Call
unfolding create_vcm
create_capturer none name? index width height fps = (none, [])
create_capturer (some w) name? index width height fps =
    if name? then create_vcm w width height fps index else (none, [])

-- lrtc_impl_video_capturer_start, _capture_started, _stop and _release, of the handle of a capturer.
pub data Request : Type 0 where
  start : Bool → Request
  is_started : Bool → Request
  stop : Request

-- What a request answers, `none` if nothing.
unfoldable pub request : Request → VcmCapturer → Outcome (Option Bool)
unfolding start_capture stop_capture capture_started
request (start ok) c = elim (start_capture ok c) [
  | done b d calls ↦ done (some b) d calls
  | crashes ↦ crashes
]
request (is_started on) c = done (some (capture_started on c)) c []
request stop c = elim (stop_capture c) [ done u d calls ↦ done none d calls | crashes ↦ crashes ]

-- The capturer with its calls if there is one, else the later result.
abbrev pub or_next :
    Option VcmCapturer × List Call → Option VcmCapturer × List Call → Option VcmCapturer × List Call
or_next (none, calls) later = later
or_next (some c, calls) later = (some c, calls)

-- CapturerTrackSource::Create's loop, with `n` of the devices left from the index `i` on.
unfoldable pub first_from : Cameras → ℕ → ℕ → Option VcmCapturer × List Call
first_from w zero i = (none, [])
first_from w (suc n) i = or_next (create_vcm w 640 480 30 i) (first_from w n (i + 1))

-- CapturerTrackSource::Create, of device information that may be null, with its number of devices.
unfoldable pub create_track_source : Cameras → Option ℕ → Option VcmCapturer × List Call
unfolding first_from
create_track_source w none = (none, [])
create_track_source w (some n) = first_from w n 0
