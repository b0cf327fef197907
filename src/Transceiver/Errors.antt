-- ===== src/Transceiver/Errors.antt =====
-- How the calls that change a transceiver report WebRTC's errors.
use lumen_rtc.Base.{ℕ, ◌≡◌, ◌↔◌, refl, arith, [], ◌∷◌, Option, none, some, ℤ}
use lumen_rtc.Text.{Bytes}
use lumen_rtc.Transceiver.{Transceiver, WebRtc, report, set_direction, stop}

-- WebRTC's error says something.
abbrev pub Says : Option Bytes → Type 0
Says none = ⊥
Says (some []) = ⊥
Says (some (c ∷ cs)) = Unit

report_iff :
    (answer : Option Bytes) (error : Option Bytes) (len : ℕ)
    → ((report (elim answer [ none ↦ [] | some message ↦ message ]) error len).0 ≡ 0) ↔ Says answer
report_iff none error len = ((λ e. absurd (omega (arith, e))), λ h. absurd h)
report_iff (some []) error len = ((λ e. absurd (omega (arith, e))), λ h. absurd h)
report_iff (some (c ∷ cs)) error len = ((λ e. tt), λ h. ground arith)

-- Setting the direction of a transceiver, and stopping it, do with it what WebRTC does, and answer 0 exactly if
-- WebRTC has an error with a message: an error without one is reported as success.
pub transceiver_errors :
    (w : WebRtc) (d : ℤ) (error : Option Bytes) (len : ℕ) (t : Transceiver)
    → ((set_direction w d error len (some t)).1 ≡ some (w.set_direction d t).1)
      × (((set_direction w d error len (some t)).0.0 ≡ 0) ↔ Says (w.set_direction d t).0)
      × ((stop w error len (some t)).1 ≡ some (w.stop_standard t).1)
      × (((stop w error len (some t)).0.0 ≡ 0) ↔ Says (w.stop_standard t).0)
unfolding set_direction stop
transceiver_errors w d error len t = (
  refl,
  report_iff (w.set_direction d t).0 error len,
  refl,
  report_iff (w.stop_standard t).0 error len,
)
