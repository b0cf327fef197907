-- ===== src/VideoCapture/Life.antt =====
-- A camera's capturer from its creation to its release.
use lumen_rtc.Base.{
  ℕ, ◌≡◌, ◌+◌, ◌∙◌, sym, refl, ap, arith, Bool, true, false, List, [], ◌∷◌, ◌++◌, Option, none,
  some, if◌then◌else◌, is_some, not, append_assoc, subst,
}
use lumen_rtc.VideoCapture.{
  VcmCapturer, Call, registers, deregisters, starts, stops, done, crashes, destroy, Request, start,
  is_started, stop, request, start_capture, stop_capture, capture_started,
}

abbrev pub add_calls :
    List Call → Option (VcmCapturer × List Call) → Option (VcmCapturer × List Call)
add_calls calls none = none
add_calls calls (some x) = some (x.0, calls ++ x.1)

-- Requests in their order, and the calls that they make; `none` if one crashes.
abbrev pub requests : List Request → VcmCapturer → Option (VcmCapturer × List Call)
requests [] c = some (c, [])
requests (r ∷ rs) c = elim (request r c) [
  | crashes ↦ none
  | done b d calls ↦ add_calls calls (requests rs d)
]

-- Whether the capturer may be asked this: once it was stopped, or failed to start, only whether it is started.
abbrev pub allowed : Bool → List Request → Bool
allowed spent [] = true
allowed true (start ok ∷ rs) = false
allowed false (start true ∷ rs) = allowed false rs
allowed false (start false ∷ rs) = allowed true rs
allowed spent (is_started on ∷ rs) = allowed spent rs
allowed true (stop ∷ rs) = false
allowed false (stop ∷ rs) = allowed true rs

add_calls-is_some :
    (calls : List Call) (o : Option (VcmCapturer × List Call))
    → is_some (add_calls calls o) ≡ is_some o
add_calls-is_some calls none = refl
add_calls-is_some calls (some x) = refl

allowed-is_started :
    (spent on : Bool) (rs : List Request) → allowed spent (is_started on ∷ rs) ≡ allowed spent rs
allowed-is_started true on rs = refl
allowed-is_started false on rs = refl

-- Requests of a capturer crash just if it is asked to start or to stop after a stop or a failed start.
pub requests-allowed :
    (rs : List Request) (c : VcmCapturer)
    → is_some (requests rs c) ≡ allowed (not (is_some c.vcm)) rs
unfolding request start_capture stop_capture capture_started
requests-allowed [] c = ground arith
requests-allowed (start ok ∷ rs) c = starting ok c.vcm (λ d. requests-allowed rs d)
  where
    starting :
        (ok : Bool) (v : Option ℕ)
        → ((d : VcmCapturer) → is_some (requests rs d) ≡ allowed (not (is_some d.vcm)) rs)
        → is_some (requests (start ok ∷ rs) (record c { vcm = v }))
          ≡ allowed (not (is_some v)) (start ok ∷ rs)
    starting ok none ih = refl
    starting true (some m) ih =
        add_calls-is_some (starts m c.capability ∷ []) (requests rs (record c { vcm = some m }))
        ∙ ih (record c { vcm = some m })
    starting false (some m) ih =
        add_calls-is_some (starts m c.capability ∷ deregisters m ∷ stops m ∷ [])
          (requests rs (record c { vcm = none }))
        ∙ ih (record c { vcm = none })
requests-allowed (is_started on ∷ rs) c =
    add_calls-is_some [] (requests rs c)
    ∙ requests-allowed rs c
    ∙ sym (allowed-is_started (not (is_some c.vcm)) on rs)
requests-allowed (stop ∷ rs) c = stopping c.vcm (λ d. requests-allowed rs d)
  where
    stopping :
        (v : Option ℕ)
        → ((d : VcmCapturer) → is_some (requests rs d) ≡ allowed (not (is_some d.vcm)) rs)
        → is_some (requests (stop ∷ rs) (record c { vcm = v }))
          ≡ allowed (not (is_some v)) (stop ∷ rs)
    stopping none ih = refl
    stopping (some m) ih =
        add_calls-is_some (stops m ∷ []) (requests rs (record c { vcm = none }))
        ∙ ih (record c { vcm = none })

abbrev pub stopped : List Call → ℕ
stopped [] = 0
stopped (stops m ∷ cs) = 1 + stopped cs
stopped (registers m ∷ cs) = stopped cs
stopped (deregisters m ∷ cs) = stopped cs
stopped (starts m k ∷ cs) = stopped cs

abbrev pub deregistered : List Call → ℕ
deregistered [] = 0
deregistered (deregisters m ∷ cs) = 1 + deregistered cs
deregistered (registers m ∷ cs) = deregistered cs
deregistered (stops m ∷ cs) = deregistered cs
deregistered (starts m k ∷ cs) = deregistered cs

-- Whether the request that ends the capture is a stop.
abbrev pub ends_by_stop : List Request → Bool
ends_by_stop [] = false
ends_by_stop (stop ∷ rs) = true
ends_by_stop (start true ∷ rs) = ends_by_stop rs
ends_by_stop (start false ∷ rs) = false
ends_by_stop (is_started on ∷ rs) = ends_by_stop rs

stopped-append : (xs ys : List Call) → stopped (xs ++ ys) ≡ stopped xs + stopped ys
stopped-append [] ys = omega arith
stopped-append (registers m ∷ xs) ys = stopped-append xs ys
stopped-append (deregisters m ∷ xs) ys = stopped-append xs ys
stopped-append (starts m k ∷ xs) ys = stopped-append xs ys
stopped-append (stops m ∷ xs) ys = ap (λ n. 1 + n) (stopped-append xs ys) ∙ omega arith

deregistered-append :
    (xs ys : List Call) → deregistered (xs ++ ys) ≡ deregistered xs + deregistered ys
deregistered-append [] ys = omega arith
deregistered-append (registers m ∷ xs) ys = deregistered-append xs ys
deregistered-append (stops m ∷ xs) ys = deregistered-append xs ys
deregistered-append (starts m k ∷ xs) ys = deregistered-append xs ys
deregistered-append (deregisters m ∷ xs) ys =
    ap (λ n. 1 + n) (deregistered-append xs ys) ∙ omega arith

-- The calls of the requests and of the destructor then.
abbrev pub whole : VcmCapturer × List Call → List Call
whole x = x.1 ++ (destroy x.0).1

-- Where no request crashes, the module is stopped so often and its callback deregistered so often.
abbrev Counted : ℕ → ℕ → Option (VcmCapturer × List Call) → Type 0
Counted n k none = Unit
Counted n k (some x) = (stopped (whole x) ≡ n) × (deregistered (whole x) ≡ k)

add_calls-Counted :
    (calls : List Call) (n k : ℕ) (o : Option (VcmCapturer × List Call))
    → Counted n k o
    → Counted (stopped calls + n) (deregistered calls + k) (add_calls calls o)
add_calls-Counted calls n k none h = tt
add_calls-Counted calls n k (some x) h = (
  ap stopped (append_assoc calls x.1 _)
      ∙ stopped-append calls (whole x)
      ∙ ap (λ i. stopped calls + i) h.0,
  ap deregistered (append_assoc calls x.1 _)
      ∙ deregistered-append calls (whole x)
      ∙ ap (λ i. deregistered calls + i) h.1,
)

quiet-Counted :
    (calls : List Call) (n k : ℕ) (o : Option (VcmCapturer × List Call))
    → stopped calls ≡ 0
    → deregistered calls ≡ 0
    → Counted n k o
    → Counted n k (add_calls calls o)
quiet-Counted calls n k none s d h = tt
quiet-Counted calls n k (some x) s d h =
    let counted = add_calls-Counted calls n k (some x) h in
    (counted.0 ∙ omega (arith, s), counted.1 ∙ omega (arith, d))

spent-Counted :
    (rs : List Request) (c : VcmCapturer) → Counted 0 0 (requests rs (record c { vcm = none }))
unfolding request start_capture stop_capture capture_started destroy
spent-Counted [] c = (refl, refl)
spent-Counted (start ok ∷ rs) c = tt
spent-Counted (is_started on ∷ rs) c =
    add_calls-Counted [] 0 0 (requests rs (record c { vcm = none })) (spent-Counted rs c)
spent-Counted (stop ∷ rs) c = tt

requests-Counted :
    (rs : List Request) (c : VcmCapturer) (m : ℕ)
    → Counted 1 (if ends_by_stop rs then 0 else 1) (requests rs (record c { vcm = some m }))
unfolding request start_capture stop_capture capture_started destroy
requests-Counted [] c m = (refl, refl)
requests-Counted (start true ∷ rs) c m =
    quiet-Counted (starts m c.capability ∷ []) 1 (if ends_by_stop rs then 0 else 1)
      (requests rs (record c { vcm = some m })) refl refl (requests-Counted rs c m)
requests-Counted (start false ∷ rs) c m =
    add_calls-Counted (starts m c.capability ∷ deregisters m ∷ stops m ∷ []) 0 0
      (requests rs (record c { vcm = none })) (spent-Counted rs c)
requests-Counted (is_started on ∷ rs) c m =
    quiet-Counted [] 1 (if ends_by_stop rs then 0 else 1) (requests rs (record c { vcm = some m }))
      refl refl (requests-Counted rs c m)
requests-Counted (stop ∷ rs) c m =
    add_calls-Counted (stops m ∷ []) 0 0 (requests rs (record c { vcm = none }))
      (spent-Counted rs c)

-- A capturer's module, from its creation over requests that do not crash to the destructor, is stopped once.
-- Its callback, which it registered, is deregistered once, unless the capture ends by a request to stop: then
-- it never is.
pub released_once :
    (rs : List Request) (c : VcmCapturer) (m : ℕ) (x : VcmCapturer × List Call)
    → c.vcm ≡ some m
    → requests rs c ≡ some x
    → (stopped (x.1 ++ (destroy x.0).1) ≡ 1)
      × (deregistered (x.1 ++ (destroy x.0).1) ≡ (if ends_by_stop rs then 0 else 1))
released_once rs c m x v e =
    subst (Counted 1 (if ends_by_stop rs then 0 else 1)) (same c v ∙ e) (requests-Counted rs c m)
  where
    same :
        (d : VcmCapturer) → d.vcm ≡ some m → requests rs (record d { vcm = some m }) ≡ requests rs d
    same d h = ap (λ o. requests rs (record d { vcm = o })) (sym h)
