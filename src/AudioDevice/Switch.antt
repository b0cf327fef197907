-- ===== src/AudioDevice/Switch.antt =====
-- The order in which the worker thread switches devices.
use lumen_rtc.Base.{
  ℕ, zero, suc, length, ◌≡◌, refl, ap, ◌∙◌, List, [], ◌∷◌, ◌++◌, append_assoc, append-nil, Option,
  some, sym,
}
use lumen_rtc.AudioDevice.{Side, Devices, switch_device, choose_device, run_task}

-- A client's calls, each with its side and its index.
abbrev pub choose_all : {S : Type 0} → List (Side S × ℕ) → Option (Devices S) → Option (Devices S)
choose_all [] d = d
choose_all (c ∷ cs) d = choose_all cs (choose_device c.0 c.1 d).1

abbrev pub run_tasks : {S : Type 0} → ℕ → Devices S → Devices S
run_tasks zero d = d
run_tasks (suc n) d = run_tasks n (run_task d)

-- The switches one after the other.
abbrev pub switch_all : {S : Type 0} → List (Side S × ℕ) → S → S
switch_all [] s = s
switch_all (c ∷ cs) s = switch_all cs (switch_device c.0 c.1 s)

module _ {S : Type 0} where
  choose_all_lem :
      (cs ts : List (Side S × ℕ)) (s : S)
      → choose_all cs (some (record { state = s; posted = ts }))
        ≡ some (record { state = s; posted = ts ++ cs })
  unfolding choose_device
  choose_all_lem [] ts s = ap (λ us. some (record { state = s; posted = us })) (sym (append-nil ts))
  choose_all_lem (c ∷ cs) ts s =
      choose_all_lem cs (ts ++ c ∷ []) s
      ∙ ap (λ us. some (record { state = s; posted = us })) (append_assoc ts (c ∷ []) cs)

  run_tasks_lem :
      (ts : List (Side S × ℕ)) (s : S)
      → run_tasks (length ts) (record { state = s; posted = ts })
        ≡ record { state = switch_all ts s; posted = [] }
  unfolding run_task
  run_tasks_lem [] s = refl
  run_tasks_lem (t ∷ ts) s = run_tasks_lem ts (switch_device t.0 t.1 s)

  same : {a b : Devices S} → some a ≡ some b → a ≡ b
  same e = cc

  -- Of any calls that choose devices, for playout and for recording, where tasks may wait already: when the worker
  -- thread has run as many tasks as there are then, none is left, and the devices were switched in the order of
  -- the calls, behind those that waited.
  pub switched_in_order :
      (cs ts : List (Side S × ℕ)) (s : S) (d : Devices S)
      → choose_all cs (some (record { state = s; posted = ts })) ≡ some d
      → run_tasks (length (ts ++ cs)) d ≡ record { state = switch_all (ts ++ cs) s; posted = [] }
  switched_in_order cs ts s d e =
      ap (run_tasks (length (ts ++ cs))) (sym (same (sym (choose_all_lem cs ts s) ∙ e)))
      ∙ run_tasks_lem (ts ++ cs) s
