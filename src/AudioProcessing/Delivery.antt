-- ===== src/AudioProcessing/Delivery.antt =====
-- Which buffers an adapter hands to its processors.
use lumen_rtc.Base.{
  ℕ, ◌≡◌, ◌*◌, refl, Bool, true, false, ◌∙◌, ap, List, [], ◌∷◌, ◌++◌, Option, none, some,
  if◌then◌else◌, ◌==◌,
}
use lumen_rtc.AudioProcessing.{
  Adapter, Call, initializes, resets, processes, set_processor, set_bypass, initialize, process,
}
use lumen_rtc.AudioProcessing.Runs.{
  Request, sets, bypasses, begins, buffers, add_calls, continue, run, adapter_of,
}

-- The buffers that processors got, with their bands and frames.
abbrev pub delivered : List Call → List (ℕ × ℕ × ℕ)
delivered [] = []
delivered (processes p bands frames ∷ cs) = (p, bands, frames) ∷ delivered cs
delivered (initializes p rate channels ∷ cs) = delivered cs
delivered (resets p rate ∷ cs) = delivered cs

-- The buffers that are due by the processor that is set, whether it is bypassed, and whether WebRTC has begun.
abbrev pub due : Option ℕ → Bool → Bool → List Request → List (ℕ × ℕ × ℕ)
due p bypass begun [] = []
due p bypass begun (sets q ∷ rs) = due q bypass begun rs
due p bypass begun (bypasses b ∷ rs) = due p b begun rs
due p bypass begun (begins rate channels ∷ rs) = due p bypass true rs
due (some p) false true (buffers bands frames ∷ rs) =
    (p, bands, frames) ∷ due (some p) false true rs
due p bypass begun (buffers bands frames ∷ rs) = due p bypass begun rs

delivered-append : (cs ds : List Call) → delivered (cs ++ ds) ≡ delivered cs ++ delivered ds
delivered-append [] ds = refl
delivered-append (initializes p rate channels ∷ cs) ds = delivered-append cs ds
delivered-append (resets p rate ∷ cs) ds = delivered-append cs ds
delivered-append (processes p bands frames ∷ cs) ds =
    ap (λ bs. (p, bands, frames) ∷ bs) (delivered-append cs ds)

-- A run that does not crash delivers these buffers.
abbrev pub Delivers : List (ℕ × ℕ × ℕ) → Option (Adapter × List Call) → Type 0
Delivers bs none = Unit
Delivers bs (some x) = delivered x.1 ≡ bs

add_calls-Delivers :
    (cs : List Call) (bs : List (ℕ × ℕ × ℕ)) (o : Option (Adapter × List Call))
    → Delivers bs o
    → Delivers (delivered cs ++ bs) (add_calls cs o)
add_calls-Delivers cs bs none h = tt
add_calls-Delivers cs bs (some x) h = delivered-append cs x.1 ∙ ap (λ l. delivered cs ++ l) h

pub run-Delivers :
    (rs : List Request) (p : Option ℕ) (b i : Bool) (r c : ℕ)
    → Delivers (due p b i rs) (run rs (adapter_of p b i r c))
unfolding set_processor set_bypass initialize process
run-Delivers [] p b i r c = refl
run-Delivers (sets none ∷ rs) p b true r c = tt
run-Delivers (sets (some q) ∷ rs) p b true r c =
    add_calls-Delivers (initializes q r c ∷ []) _ (run rs (adapter_of (some q) b true r c))
      (run-Delivers rs (some q) b true r c)
run-Delivers (sets q ∷ rs) p b false r c =
    add_calls-Delivers [] _ (run rs (adapter_of q b false r c)) (run-Delivers rs q b false r c)
run-Delivers (bypasses b' ∷ rs) p b i r c =
    add_calls-Delivers [] _ (run rs (adapter_of p b' i r c)) (run-Delivers rs p b' i r c)
run-Delivers (begins r' c' ∷ rs) none b i r c =
    add_calls-Delivers [] _ (run rs (adapter_of none b true r' c'))
      (run-Delivers rs none b true r' c')
run-Delivers (begins r' c' ∷ rs) (some p) b i r c =
    add_calls-Delivers (initializes p r' c' ∷ []) _ (run rs (adapter_of (some p) b true r' c'))
      (run-Delivers rs (some p) b true r' c')
run-Delivers (buffers n f ∷ rs) none b i r c =
    add_calls-Delivers [] _ (run rs (adapter_of none b i r c)) (run-Delivers rs none b i r c)
run-Delivers (buffers n f ∷ rs) (some p) true i r c =
    add_calls-Delivers [] _ (run rs (adapter_of (some p) true i r c))
      (run-Delivers rs (some p) true i r c)
run-Delivers (buffers n f ∷ rs) (some p) false false r c =
    add_calls-Delivers [] _ (run rs (adapter_of (some p) false false r c))
      (run-Delivers rs (some p) false false r c)
run-Delivers (buffers n f ∷ rs) (some p) false true r c =
    go (f * 100 == r) (run-Delivers rs (some p) false true r c)
      (run-Delivers rs (some p) false true (f * 100) c)
  where
    go :
        (t : Bool)
        → Delivers (due (some p) false true rs) (run rs (adapter_of (some p) false true r c))
        → Delivers
            (due (some p) false true rs)
            (run rs (adapter_of (some p) false true (f * 100) c))
        → Delivers ((p, n, f) ∷ due (some p) false true rs) (
            continue (run rs) (
              if t
              then some (adapter_of (some p) false true r c, processes p n f ∷ [])
              else some (
                adapter_of (some p) false true (f * 100) c,
                resets p (f * 100) ∷ processes p n f ∷ [],
              )))
    go true same other =
        add_calls-Delivers (processes p n f ∷ []) _ (run rs (adapter_of (some p) false true r c))
          same
    go false same other =
        add_calls-Delivers (resets p (f * 100) ∷ processes p n f ∷ []) _
          (run rs (adapter_of (some p) false true (f * 100) c)) other
