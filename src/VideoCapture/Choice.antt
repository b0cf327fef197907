-- ===== src/VideoCapture/Choice.antt =====
-- Which camera CapturerTrackSource::Create takes.
use lumen_rtc.Base.{
  ℕ, ◌≡◌, ◌<◌, ◌+◌, zero, suc, refl, ap, arith, Bool, true, false, ltb, ◌≤◌, ◌∙◌, sym, subst, List,
  [], Option, none, some,
}
use lumen_rtc.VideoCapture.{
  Cameras, VcmCapturer, Call, or_next, create_vcm, first_from, create_track_source,
}

or_next-some :
    (x y : Option VcmCapturer × List Call) (c : VcmCapturer) → x.0 ≡ some c → or_next x y ≡ x
or_next-some (none, calls) y c e = cc
or_next-some (some d, calls) y c e = refl

or_next-none : (x y : Option VcmCapturer × List Call) → x.0 ≡ none → or_next x y ≡ y
or_next-none (none, calls) y e = refl
or_next-none (some d, calls) y e = cc

module _ (w : Cameras) where
  abbrev at_index : ℕ → Option VcmCapturer × List Call
  at_index i = create_vcm w 640 480 30 i

  first_from-some :
      (n i k : ℕ) (c : VcmCapturer)
      → i ≤ k
      → k < i + n
      → ((j : ℕ) → i ≤ j → j < k → (at_index j).0 ≡ none)
      → (at_index k).0 ≡ some c
      → first_from w n i ≡ at_index k
  unfolding first_from
  first_from-some zero i k c l u before here = absurd (omega (arith, l, u))
  first_from-some (suc n) i k c l u before here = go (ltb i k) refl (λ q.
      first_from-some n (i + 1) k c (omega (arith, q)) (omega (arith, u))
        (λ j a b. before j (omega (arith, a)) b) here)
    where
      go :
          (b : Bool)
          → ltb i k ≡ b
          → (i < k → first_from w n (i + 1) ≡ at_index k)
          → first_from w (suc n) i ≡ at_index k
      go true e later =
          or_next-none (at_index i) _ (before i (omega arith) (ground (arith, e)))
          ∙ later (ground (arith, e))
      go false e later =
          let k_is : k ≡ i = ground (arith, e, l) in
          subst (λ m. first_from w (suc n) i ≡ at_index m) (sym k_is)
            (or_next-some (at_index i) _ c (ap (λ m. (at_index m).0) (sym k_is) ∙ here))

  first_from-none :
      (n i : ℕ)
      → ((j : ℕ) → i ≤ j → j < i + n → (at_index j).0 ≡ none)
      → first_from w n i ≡ (none, [])
  unfolding first_from
  first_from-none zero i none_opens = refl
  first_from-none (suc n) i none_opens =
      or_next-none (at_index i) _ (none_opens i (omega arith) (omega arith))
      ∙ first_from-none n (i + 1) (λ j a b. none_opens j (omega (arith, a)) (omega (arith, b)))

-- CapturerTrackSource::Create takes the first camera that can be had, at 640 by 480 and 30 frames a second,
-- with no call of another camera's module.
pub create_track_source-first :
    (w : Cameras) (n k : ℕ) (c : VcmCapturer)
    → k < n
    → ((j : ℕ) → j < k → (create_vcm w 640 480 30 j).0 ≡ none)
    → (create_vcm w 640 480 30 k).0 ≡ some c
    → create_track_source w (some n) ≡ create_vcm w 640 480 30 k
unfolding create_track_source
create_track_source-first w n k c l before here =
    first_from-some w n 0 k c (omega arith) (omega (arith, l)) (λ j a b. before j b) here

-- It gives none if no camera can be had, and calls no module.
pub create_track_source-none :
    (w : Cameras) (n : ℕ)
    → ((j : ℕ) → j < n → (create_vcm w 640 480 30 j).0 ≡ none)
    → create_track_source w (some n) ≡ (none, [])
unfolding create_track_source
create_track_source-none w n none_opens =
    first_from-none w n 0 (λ j a b. none_opens j (omega (arith, b)))
