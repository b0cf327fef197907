-- ===== src/AudioProcessing/Rates.antt =====
-- The rate that a processor was told of when it gets a buffer, over any order of calls.
use lumen_rtc.Base.{
  ℕ, ◌≡◌, ◌*◌, refl, arith, Bool, true, false, ◌||◌, ◌∙◌, List, [], ◌∷◌, ◌++◌, Option, none, some,
  if◌then◌else◌, ◌==◌,
}
use lumen_rtc.AudioProcessing.{
  Adapter, Call, initializes, resets, processes, new_adapter, set_processor, set_bypass, initialize,
  process,
}
use lumen_rtc.AudioProcessing.Runs.{
  Request, sets, bypasses, begins, buffers, add_calls, continue, run, adapter_of,
}
use lumen_rtc.AudioProcessing.Delivery.{due, Delivers, run-Delivers}

-- Whether some call sets null once WebRTC has begun, which the flag says that it has.
abbrev pub null_late : Bool → List Request → Bool
null_late begun [] = false
null_late begun (sets none ∷ rs) = begun || null_late begun rs
null_late begun (sets (some p) ∷ rs) = null_late begun rs
null_late begun (bypasses b ∷ rs) = null_late begun rs
null_late begun (begins rate channels ∷ rs) = null_late true rs
null_late begun (buffers bands frames ∷ rs) = null_late begun rs

-- Who was told of a rate last, and of which: each buffer goes to that processor, at that rate.
abbrev pub Informed : Option (ℕ × ℕ) → List Call → Type 0
Informed k [] = Unit
Informed k (initializes p rate channels ∷ cs) = Informed (some (p, rate)) cs
Informed k (resets p rate ∷ cs) = Informed (some (p, rate)) cs
Informed k (processes p bands frames ∷ cs) = (k ≡ some (p, frames * 100)) × Informed k cs

abbrev after : Option (ℕ × ℕ) → List Call → Option (ℕ × ℕ)
after k [] = k
after k (initializes p rate channels ∷ cs) = after (some (p, rate)) cs
after k (resets p rate ∷ cs) = after (some (p, rate)) cs
after k (processes p bands frames ∷ cs) = after k cs

Informed-append :
    (k : Option (ℕ × ℕ)) (cs ds : List Call)
    → Informed k cs
    → Informed (after k cs) ds
    → Informed k (cs ++ ds)
Informed-append k [] ds h i = i
Informed-append k (initializes p rate channels ∷ cs) ds h i = Informed-append _ cs ds h i
Informed-append k (resets p rate ∷ cs) ds h i = Informed-append _ cs ds h i
Informed-append k (processes p bands frames ∷ cs) ds h i = (h.0, Informed-append k cs ds h.1 i)

-- The run crashes exactly if null is set late; and if it does not crash, each buffer goes to an informed processor.
abbrev pub Justified : Option (ℕ × ℕ) → Bool → List Request → Option (Adapter × List Call) → Type 0
Justified k begun rs none = null_late begun rs ≡ true
Justified k begun rs (some x) = (null_late begun rs ≡ false) × Informed k x.1

-- One call in front of a run.
add_calls-Justified :
    (k : Option (ℕ × ℕ)) (b c : Bool) (rs qs : List Request) (cs : List Call)
    (o : Option (Adapter × List Call))
    → null_late b rs ≡ null_late c qs
    → Informed k cs
    → Justified (after k cs) c qs o
    → Justified k b rs (add_calls cs o)
add_calls-Justified k b c rs qs cs none e h i = e ∙ i
add_calls-Justified k b c rs qs cs (some x) e h i = (e ∙ i.0, Informed-append k cs x.1 h i.1)

-- A processor that is set while the adapter is initialised was told of its rate last.
abbrev Known : Option (ℕ × ℕ) → Option ℕ → Bool → ℕ → Type 0
Known k none initialized rate = Unit
Known k (some p) false rate = Unit
Known k (some p) true rate = k ≡ some (p, rate)

run-Justified :
    (rs : List Request) (k : Option (ℕ × ℕ)) (p : Option ℕ) (b i : Bool) (r c : ℕ)
    → Known k p i r
    → Justified k i rs (run rs (adapter_of p b i r c))
unfolding set_processor set_bypass initialize process
run-Justified [] k p b i r c h = (refl, tt)
run-Justified (sets none ∷ rs) k p b true r c h = refl
run-Justified (sets (some q) ∷ rs) k p b true r c h =
    add_calls-Justified k true true (sets (some q) ∷ rs) rs (initializes q r c ∷ [])
      (run rs (adapter_of (some q) b true r c)) refl tt
      (run-Justified rs (some (q, r)) (some q) b true r c refl)
run-Justified (sets none ∷ rs) k p b false r c h =
    add_calls-Justified k false false (sets none ∷ rs) rs [] (run rs (adapter_of none b false r c))
      refl tt (run-Justified rs k none b false r c tt)
run-Justified (sets (some q) ∷ rs) k p b false r c h =
    add_calls-Justified k false false (sets (some q) ∷ rs) rs []
      (run rs (adapter_of (some q) b false r c)) refl tt
      (run-Justified rs k (some q) b false r c tt)
run-Justified (bypasses b' ∷ rs) k p b i r c h =
    add_calls-Justified k i i (bypasses b' ∷ rs) rs [] (run rs (adapter_of p b' i r c)) refl tt
      (run-Justified rs k p b' i r c h)
run-Justified (begins r' c' ∷ rs) k none b i r c h =
    add_calls-Justified k i true (begins r' c' ∷ rs) rs [] (run rs (adapter_of none b true r' c'))
      refl tt (run-Justified rs k none b true r' c' tt)
run-Justified (begins r' c' ∷ rs) k (some p) b i r c h =
    add_calls-Justified k i true (begins r' c' ∷ rs) rs (initializes p r' c' ∷ [])
      (run rs (adapter_of (some p) b true r' c')) refl tt
      (run-Justified rs (some (p, r')) (some p) b true r' c' refl)
run-Justified (buffers n f ∷ rs) k none b i r c h =
    add_calls-Justified k i i (buffers n f ∷ rs) rs [] (run rs (adapter_of none b i r c)) refl tt
      (run-Justified rs k none b i r c tt)
run-Justified (buffers n f ∷ rs) k (some p) true i r c h =
    add_calls-Justified k i i (buffers n f ∷ rs) rs [] (run rs (adapter_of (some p) true i r c))
      refl tt (run-Justified rs k (some p) true i r c h)
run-Justified (buffers n f ∷ rs) k (some p) false false r c h =
    add_calls-Justified k false false (buffers n f ∷ rs) rs []
      (run rs (adapter_of (some p) false false r c)) refl tt
      (run-Justified rs k (some p) false false r c tt)
run-Justified (buffers n f ∷ rs) k (some p) false true r c h =
    go (f * 100 == r) refl (run-Justified rs k (some p) false true r c h)
      (run-Justified rs (some (p, f * 100)) (some p) false true (f * 100) c refl)
  where
    go :
        (t : Bool)
        → (f * 100 == r) ≡ t
        → Justified k true rs (run rs (adapter_of (some p) false true r c))
        → Justified
            (some (p, f * 100))
            true
            rs
            (run rs (adapter_of (some p) false true (f * 100) c))
        → Justified k true (buffers n f ∷ rs) (
            continue (run rs) (
              if t
              then some (adapter_of (some p) false true r c, processes p n f ∷ [])
              else some (
                adapter_of (some p) false true (f * 100) c,
                resets p (f * 100) ∷ processes p n f ∷ [],
              )))
    go true e same other =
        add_calls-Justified k true true (buffers n f ∷ rs) rs (processes p n f ∷ [])
          (run rs (adapter_of (some p) false true r c)) refl (ground (arith, e, h), tt) same
    go false e same other =
        add_calls-Justified k true true (buffers n f ∷ rs) rs
          (resets p (f * 100) ∷ processes p n f ∷ [])
          (run rs (adapter_of (some p) false true (f * 100) c)) refl (refl, tt) other

-- From a new adapter, any calls crash exactly when null is set in place of a processor once WebRTC has begun.
-- If they do not crash, each buffer that comes behind WebRTC's begin goes to the processor that is set, unless there
-- is none or it is bypassed, and no other buffer goes to any; and the processor that gets one is the one that
-- was told of a rate last, at that buffer's rate.
pub run_informed :
    (rs : List Request)
    → Justified none false rs (run rs new_adapter)
      × Delivers (due none false false rs) (run rs new_adapter)
run_informed rs =
    (run-Justified rs none none false false 0 0 tt, run-Delivers rs none false false 0 0)
