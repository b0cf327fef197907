-- ===== src/Capturer/Restart.antt =====
-- The capture thread's tasks across stops and starts of the desktop capturer.
use lumen_rtc.Base.{
  ℕ, ◌+◌, ◌-◌, ◌<◌, ◌≡◌, ◌≢◌, refl, ap, sym, ◌∙◌, true, false, List, [], ◌∷◌, ◌++◌, some, arith,
  length,
}
use lumen_rtc.Capturer.{
  Capturer, error_permanent, Platform, Capture, Event, start, stop, capture_frame,
  on_capture_result, is_running,
}
use lumen_rtc.Capturer.Invariant.{Reach, Reach-IsSteady}

-- CaptureFrame tasks, one after the other, with what they send out.
pub run_tasks : List Capture → Capturer → Capturer × List Event
run_tasks [] c = (c, [])
run_tasks (k ∷ ks) c =
    let (d, events) = capture_frame k c in let (e, later) = run_tasks ks d in (e, events ++ later)

capture_idle :
    (k : Capture) (c : Capturer)
    → is_running c.capture_state ≡ false
    → capture_frame k c ≡ (record c { tasks = c.tasks - 1 }, [])
unfolding capture_frame
capture_idle k c h = rw h

-- A capturer that is not running drains: each task that is left runs, captures no frame, calls no
-- observer and posts no other, and as many as are posted leave none.
pub run_tasks_idle :
    (ks : List Capture) (c : Capturer)
    → is_running c.capture_state ≡ false
    → length ks ≡ c.tasks
    → run_tasks ks c ≡ (record c { tasks = 0 }, [])
unfolding run_tasks
run_tasks_idle [] c h e = ap (λ n. (record c { tasks = n }, [])) (sym e)
run_tasks_idle (k ∷ ks) c h e =
    rw (
      capture_idle k c h,
      run_tasks_idle ks (record c { tasks = c.tasks - 1 }) h (omega (arith, e)),
    )

-- Results that leave the capturer running.
abbrev pub NoPermanentError : List Capture → Type 0
NoPermanentError [] = Unit
NoPermanentError (k ∷ ks) = (k.reported ≢ some error_permanent) × NoPermanentError ks

capture_running :
    (k : Capture) (c : Capturer)
    → is_running c.capture_state ≡ true
    → c.has_capturer ≡ true
    → 0 < c.tasks
    → k.reported ≢ some error_permanent
    → (is_running (capture_frame k c).0.capture_state ≡ true)
      × ((capture_frame k c).0.has_capturer ≡ true)
      × ((capture_frame k c).0.tasks ≡ c.tasks)
unfolding capture_frame on_capture_result
capture_running k c r h t n = ground arith

run_tasks_running :
    (ks : List Capture) (c : Capturer)
    → is_running c.capture_state ≡ true
    → c.has_capturer ≡ true
    → 0 < c.tasks
    → NoPermanentError ks
    → (run_tasks ks c).0.tasks ≡ c.tasks
unfolding run_tasks
run_tasks_running [] c r h t n = refl
run_tasks_running (k ∷ ks) c r h t n =
    let (r', h', e) = capture_running k c r h t n.0 in
    run_tasks_running ks (capture_frame k c).0 r' h' (omega (arith, e)) n.1 ∙ e

restarted :
    (p : Platform) (fps : ℕ) (c : Capturer)
    → c.has_capturer ≡ true
    → is_running (start p fps (stop c).0).0.capture_state ≡ true
    → ((start p fps (stop c).0).0.has_capturer ≡ true)
      × ((start p fps (stop c).0).0.tasks ≡ c.tasks + 1)
unfolding start stop
restarted p fps c h s = ground arith

-- Stop does not take the posted task back, so a start behind it, before that task has run, adds a
-- second loop: from a running capturer with `n` tasks, a stop and a start that succeeds leave `n + 1`,
-- and they stay `n + 1` however many tasks run, as long as no permanent error is reported.
pub restart_adds_task :
    {c : Capturer} (p : Platform) (fps : ℕ) (ks : List Capture)
    → Reach c
    → is_running c.capture_state ≡ true
    → is_running (start p fps (stop c).0).0.capture_state ≡ true
    → NoPermanentError ks
    → (run_tasks ks (start p fps (stop c).0).0).0.tasks ≡ c.tasks + 1
restart_adds_task {c} p fps ks reach r s n =
    let v = Reach-IsSteady reach in
    let (h, e) = restarted p fps c (v.capturer r) s in
    run_tasks_running ks (start p fps (stop c).0).0 s h (omega (arith, e)) n ∙ e
