-- ===== src/Capturer.antt =====
-- The desktop capturer, bridge/lumenrtc_bridge/src/rtc_desktop_capturer_impl.cc, on the systems that
-- are not Windows: Start, Stop, IsRunning, OnCaptureResult and CaptureFrame. Each of them is one
-- step; what waits on the capture thread is the number of CaptureFrame tasks that were posted and
-- have not run. What WebRTC's capturer does is a parameter of each step.
pub mod Invariant
pub mod Restart
use lumen_rtc.Base.{
  ℕ, ◌+◌, ◌-◌, ◌/◌, Bool, true, false, not, ◌&&◌, ◌||◌, List, [], ◌∷◌, ◌++◌, Option, none, some,
  if◌then◌else◌, ◌==◌, ltb, ℤ, pos, negsuc,
}

pub data CaptureState : Type 0 where
  running stopped failed : CaptureState

-- webrtc::DesktopCapturer::Result.
pub data CaptureResult : Type 0 where
  success error_temporary error_permanent : CaptureResult

pub data DesktopType : Type 0 where
  screen window : DesktopType

pub record Capturer : Type 0 where
  -- Whether `capturer_` is set.
  pub has_capturer : Bool
  pub desktop_type : DesktopType
  pub source_id : ℤ
  pub capture_state : CaptureState
  pub capture_delay : ℕ
  pub result : CaptureResult
  pub x : ℕ
  pub y : ℕ
  pub w : ℕ
  pub h : ℕ
  -- Whether `observer_` is set.
  pub has_observer : Bool
  -- The posted CaptureFrame tasks.
  pub tasks : ℕ

-- What goes out: the observer's calls, a start of WebRTC's capturer, a posted task with its delay, and
-- a frame of a size.
pub data Event : Type 0 where
  on_start on_stop on_paused on_error capturer_start : Event
  post : ℕ → Event
  frame : ℕ → ℕ → Event

-- What SelectSource and FocusOnSelectedSource answer.
pub record Platform : Type 0 where
  pub select_source : ℤ → Bool
  pub focus : Bool

abbrev pub notify : Capturer → Event → List Event
notify c e = if c.has_observer then e ∷ [] else []

abbrev pub is_running : CaptureState → Bool
is_running running = true
is_running stopped = false
is_running failed = false

abbrev fail : Capturer → Capturer × List Event
fail c = (record c { capture_state = failed }, [])

-- `if (capture_delay_ == 0) capture_delay_ = 1` behind the quotient of 1000 by the bounded rate, which
-- the conversion to uint32_t cuts down to a whole number.
abbrev pub delay_of : ℕ → ℕ
delay_of fps =
    let bounded = if ltb 240 fps then 240 else fps in
    let delay = 1000 / bounded in if delay == 0 then 1 else delay

-- `source_id_ != -1`.
abbrev pub has_source : ℤ → Bool
has_source (pos n) = true
has_source (negsuc n) = not (n == 0)

abbrev pub needs_focus : DesktopType → Bool
needs_focus screen = false
needs_focus window = true

-- Whether the source can be selected and, for a window, brought to the front.
abbrev pub source_ready : Platform → Capturer → Bool
source_ready p c =
    not (has_source c.source_id)
    || (p.select_source c.source_id && (not (needs_focus c.desktop_type) || p.focus))

-- The end of Start, once every test has passed.
abbrev run : Capturer → Capturer × List Event
run c = (
  record c { capture_state = running; tasks = c.tasks + 1 },
  capturer_start ∷ post 0 ∷ notify c on_start,
)

start_idle : Platform → ℕ → Capturer → Capturer × List Event
start_idle p fps c =
    if fps == 0
    then fail c
    else if not c.has_capturer
    then fail c
    else let d = record c { capture_delay = delay_of fps } in
      if source_ready p d then run d else fail d

-- RTCDesktopCapturerImpl::Start(fps). Its result is the state that it leaves.
unfoldable pub start : Platform → ℕ → Capturer → Capturer × List Event
unfolding start_idle
start p fps c = if is_running c.capture_state then (c, []) else start_idle p fps c

-- RTCDesktopCapturerImpl::Start(fps, x, y, w, h).
unfoldable pub start_region : Platform → ℕ → ℕ → ℕ → ℕ → ℕ → Capturer → Capturer × List Event
unfolding start
start_region p fps x y w h c =
    if w == 0 || h == 0
    then start p fps (record c { x = 0; y = 0; w = w; h = h })
    else start p fps (record c { x = x; y = y; w = w; h = h })

-- RTCDesktopCapturerImpl::Stop.
unfoldable pub stop : Capturer → Capturer × List Event
stop c = (record c { capture_state = stopped }, notify c on_stop)

-- The part of OnCaptureResult behind the tests: the frame's size, if there is a frame, and whether
-- ConvertToI420 succeeded.
abbrev deliver : Capturer → Option (ℕ × ℕ) → Bool → List Event
deliver c none converted = []
deliver c (some (width, height)) converted =
    if converted
    then frame (if ltb 0 c.w then c.w else width) (if ltb 0 c.h then c.h else height) ∷ []
    else []

-- RTCDesktopCapturerImpl::OnCaptureResult, by the new result and `result_`.
on_result : CaptureResult → CaptureResult → Option (ℕ × ℕ) → Bool → Capturer → Capturer × List Event
on_result error_permanent error_permanent size converted c = (c, deliver c size converted)
on_result error_permanent old size converted c =
    (record c { capture_state = failed }, notify c on_error)
on_result error_temporary error_temporary size converted c = (c, [])
on_result error_temporary old size converted c =
    (record c { result = error_temporary }, notify c on_paused)
on_result success success size converted c = (c, deliver c size converted)
on_result success old size converted c =
    (record c { result = success }, notify c on_start ++ deliver c size converted)

unfoldable pub on_capture_result :
    CaptureResult → Option (ℕ × ℕ) → Bool → Capturer → Capturer × List Event
unfolding on_result
on_capture_result r size converted c = on_result r c.result size converted c

-- What WebRTC's CaptureFrame does before it returns: how long it takes, and the results that it
-- reports.
pub record Capture : Type 0 where
  pub millis : ℕ
  pub reported : Option CaptureResult
  pub size : Option (ℕ × ℕ)
  pub converted : Bool

report : Option CaptureResult → Capture → Capturer → Capturer × List Event
unfolding on_capture_result
report none k c = (c, [])
report (some r) k c = on_capture_result r k.size k.converted c

-- One CaptureFrame task: it is off the queue when it runs. `-` stops at 0, as `next_delay` does.
unfoldable pub capture_frame : Capture → Capturer → Capturer × List Event
unfolding report
capture_frame k c =
    let d = record c { tasks = c.tasks - 1 } in
    let (e, events) = report k.reported k d in
    if is_running c.capture_state
    then if not c.has_capturer
      then fail d
      else (record e { tasks = e.tasks + 1 }, events ++ post (e.capture_delay - k.millis) ∷ [])
    else (d, [])
