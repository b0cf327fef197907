-- ===== src/Capturer/Invariant.antt =====
-- What stays true of the desktop capturer, whatever its client does and its platform answers.
use lumen_rtc.Base.{
  ℕ, ◌/◌, ◌≤◌, ◌<◌, ◌≡◌, ◌≢◌, Bool, true, false, Option, arith, ltb, Bool-cases, inl, inr, ℤ, ◌==◌,
  ◌||◌,
}
use lumen_rtc.Capturer.{
  Capturer, stopped, CaptureResult, success, error_permanent, DesktopType, Platform, Capture, start,
  start_region, stop, on_capture_result, capture_frame, delay_of, is_running,
}

pub record IsSteady (c : Capturer) : Type 0 where
  -- A capturer that runs has a WebRTC capturer, and a task that will capture its next frame.
  pub capturer : is_running c.capture_state ≡ true → c.has_capturer ≡ true
  pub pending : is_running c.capture_state ≡ true → 1 ≤ c.tasks
  -- Its frames are between 4 milliseconds and a second apart.
  pub delay_lo : 4 ≤ c.capture_delay
  pub delay_hi : c.capture_delay ≤ 1000
  pub reported : c.result ≢ error_permanent

quotient_bounds : (d : ℕ) → 0 < d → d ≤ 240 → (4 ≤ 1000 / d) × (1000 / d ≤ 1000)
quotient_bounds d lo hi = (grind arith, grind arith)

delay_of_bounds : (fps : ℕ) → 0 < fps → (4 ≤ delay_of fps) × (delay_of fps ≤ 1000)
delay_of_bounds fps h = elim (Bool-cases (ltb 240 fps)) [
  | inl high ↦ rw high (omega arith)
  | inr low ↦ rw low (ground (arith, quotient_bounds fps))
]

start-IsSteady : (p : Platform) (fps : ℕ) (c : Capturer) → IsSteady c → IsSteady (start p fps c).0
unfolding start
start-IsSteady p fps c v = ground (arith, delay_of_bounds fps)

stop-IsSteady : (c : Capturer) → IsSteady c → IsSteady (stop c).0
unfolding stop
stop-IsSteady c v = ground arith

on_capture_result-IsSteady :
    (r : CaptureResult) (size : Option (ℕ × ℕ)) (converted : Bool) (c : Capturer)
    → IsSteady c
    → IsSteady (on_capture_result r size converted c).0
unfolding on_capture_result
on_capture_result-IsSteady r size converted c v = ground arith

capture_frame-IsSteady : (k : Capture) (c : Capturer) → IsSteady c → IsSteady (capture_frame k c).0
unfolding capture_frame
capture_frame-IsSteady k c v = ground arith

start_region-IsSteady :
    (p : Platform) (fps x y w h : ℕ) (c : Capturer)
    → IsSteady c
    → IsSteady (start_region p fps x y w h c).0
unfolding start_region
start_region-IsSteady p fps x y w h c v = elim (Bool-cases (w == 0 || h == 0)) [
  | inl whole ↦ rw whole (
      start-IsSteady p fps (record c { x = 0; y = 0; w = w; h = h })
        (record {
          capturer = v.capturer;
          pending = v.pending;
          delay_lo = v.delay_lo;
          delay_hi = v.delay_hi;
          reported = v.reported;
        }))
  | inr part ↦ rw part (
      start-IsSteady p fps (record c { x = x; y = y; w = w; h = h })
        (record {
          capturer = v.capturer;
          pending = v.pending;
          delay_lo = v.delay_lo;
          delay_hi = v.delay_hi;
          reported = v.reported;
        }))
]

-- The constructor's state.
abbrev pub created : Bool → DesktopType → ℤ → Capturer
created has type source = record {
  has_capturer = has;
  desktop_type = type;
  source_id = source;
  capture_state = stopped;
  capture_delay = 1000;
  result = success;
  x = 0;
  y = 0;
  w = 0;
  h = 0;
  has_observer = false;
  tasks = 0;
}

-- A call of the client, a task of the capture thread, or a result that WebRTC reports on its own.
pub data Step (c : Capturer) : Capturer → Type 0 where
  starts : (p : Platform) (fps : ℕ) → Step c (start p fps c).0
  starts_region : (p : Platform) (fps x y w h : ℕ) → Step c (start_region p fps x y w h c).0
  stops : Step c (stop c).0
  observes : (set : Bool) → Step c (record c { has_observer = set })
  captures : (k : Capture) → 0 < c.tasks → Step c (capture_frame k c).0
  reports :
      (r : CaptureResult) (size : Option (ℕ × ℕ)) (converted : Bool)
      → Step c (on_capture_result r size converted c).0

pub data Reach : Capturer → Type 0 where
  new : (has : Bool) (type : DesktopType) (source : ℤ) → Reach (created has type source)
  next : {c d : Capturer} → Reach c → Step c d → Reach d

step-IsSteady : {c d : Capturer} → IsSteady c → Step c d → IsSteady d
step-IsSteady {c} v (starts p fps) = start-IsSteady p fps c v
step-IsSteady {c} v (starts_region p fps x y w h) = start_region-IsSteady p fps x y w h c v
step-IsSteady {c} v stops = stop-IsSteady c v
step-IsSteady v (observes set) = record {
  capturer = v.capturer;
  pending = v.pending;
  delay_lo = v.delay_lo;
  delay_hi = v.delay_hi;
  reported = v.reported;
}
step-IsSteady {c} v (captures k m) = capture_frame-IsSteady k c v
step-IsSteady {c} v (reports r size converted) = on_capture_result-IsSteady r size converted c v

-- Whatever the client calls, in any order, and whatever WebRTC reports: a capturer in the running
-- state has a WebRTC capturer and a posted task, so that it goes on capturing; its delay stays between
-- 4 and 1000 milliseconds; and the last result it recorded is no permanent error.
pub Reach-IsSteady : {c : Capturer} → Reach c → IsSteady c
Reach-IsSteady (new has type source) = record {
  capturer = λ h. cc;
  pending = λ h. cc;
  delay_lo = omega arith;
  delay_hi = omega arith;
  reported = λ h. cc;
}
Reach-IsSteady (next r st) = step-IsSteady (Reach-IsSteady r) st
