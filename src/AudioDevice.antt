-- ===== src/AudioDevice.antt =====
-- Audio devices: the calls lrtc_impl_audio_device_* of native/src/lumenrtc_impl.cpp over
-- bridge/lumenrtc_bridge/src/rtc_audio_device_impl.cc. WebRTC's audio device module is a parameter, with a state
-- of its own. Each call is there for playout and for recording: one definition serves both, with the side as an
-- argument. (The speaker is on the playout side, the microphone on the other.)
pub mod Switch
use lumen_rtc.Base.{
  ℕ, Bool, List, [], ◌∷◌, Option, none, some, if◌then◌else◌, ℤ, pos, negsuc, ltb, ◌&&◌, ◌++◌, ◌==◌,
  true, false, not,
}
use lumen_rtc.Text.{Bytes}

-- One side of webrtc::AudioDeviceModule.
pub record Side (S : Type 0) : Type 0 where
  -- Playing() or Recording().
  pub active : S → Bool
  pub device : S → ℕ
  pub set_device : ℕ → S → S
  pub halt : S → S
  pub init : S → S
  pub begin : S → S
  pub devices : S → ℤ
  -- The result, and the texts that it writes for the name and the GUID.
  pub device_name : ℕ → S → ℤ × (Bytes × Bytes)
  pub volume : S → ℤ × ℕ
  pub set_volume : ℕ → S → ℤ × S

-- The task that SetPlayoutDevice and SetRecordingDevice post.
unfoldable pub switch_device : {S : Type 0} → Side S → ℕ → S → S
switch_device side index s =
    if side.active s
    then side.begin (side.init (side.set_device index (side.halt s)))
    else side.set_device index s

-- The module, and the tasks posted to the worker thread.
pub record Devices (S : Type 0) : Type 0 where
  pub state : S
  pub posted : List (Side S × ℕ)

-- lrtc_impl_audio_device_playout_devices and _recording_devices, of a handle that may be null.
unfoldable pub device_count : {S : Type 0} → Side S → Option (Devices S) → ℤ
device_count side none = negsuc 0
device_count side (some d) = side.devices d.state

-- A buffer of the client, with its size; `none` if it is null.
abbrev pub at_least : ℕ → Option ℕ → Bool
at_least n none = false
at_least n (some size) = not (ltb size n)

-- kAdmMaxDeviceNameSize, and kAdmMaxGuidSize too.
abbrev pub max_name_size : ℕ
max_name_size = 128

-- lrtc_impl_audio_device_playout_device_name and _recording_device_name: the result, and what is written.
unfoldable pub name_of_device :
    {S : Type 0}
    → Side S
    → Option (Devices S)
    → ℕ
    → Option ℕ
    → Option ℕ
    → ℤ × Option (Bytes × Bytes)
name_of_device side none index name guid = (negsuc 0, none)
name_of_device side (some d) index name guid =
    let answer = side.device_name index d.state in
    if at_least max_name_size name && at_least max_name_size guid
    then (answer.0, some answer.1)
    else (negsuc 0, none)

-- lrtc_impl_audio_device_set_playout_device and _set_recording_device with the bridge's, which answer 0.
unfoldable pub choose_device :
    {S : Type 0} → Side S → ℕ → Option (Devices S) → ℤ × Option (Devices S)
choose_device side index none = (negsuc 0, none)
choose_device side index (some d) =
    (pos 0, some (record d { posted = d.posted ++ (side, index) ∷ [] }))

-- lrtc_impl_audio_device_set_microphone_volume and _set_speaker_volume.
unfoldable pub change_volume :
    {S : Type 0} → Side S → ℕ → Option (Devices S) → ℤ × Option (Devices S)
change_volume side v none = (negsuc 0, none)
change_volume side v (some d) =
    let answer = side.set_volume v d.state in (answer.0, some (record d { state = answer.1 }))

abbrev is_zero : ℤ → Bool
is_zero (pos n) = n == 0
is_zero (negsuc n) = false

-- lrtc_impl_audio_device_microphone_volume and _speaker_volume: the result, and what is stored where the client
-- asks it to be, if it does.
unfoldable pub read_volume : {S : Type 0} → Side S → Option (Devices S) → Bool → ℤ × Option ℕ
read_volume side none out? = (negsuc 0, none)
read_volume side (some d) out? =
    let answer = side.volume d.state in
    if out? then (answer.0, if is_zero answer.0 then some answer.1 else none) else (negsuc 0, none)

-- The worker thread runs a task, if there is one.
unfoldable pub run_task : {S : Type 0} → Devices S → Devices S
unfolding switch_device
run_task d = elim d.posted [
  | [] ↦ d
  | t ∷ ts ↦ record { state = switch_device t.0 t.1 d.state; posted = ts }
]
