-- ===== src/Dtmf/Insert.antt =====
-- The tones of a DTMF sender: lrtc_impl_dtmf_sender_can_insert, _insert, _tones, _duration,
-- _inter_tone_gap and _comma_delay, with RTCDtmfSenderImpl::InsertDtmf. What WebRTC's sender answers is an
-- argument; a handle that is null or has no `ref` is `none`.
use lumen_rtc.Base.{ℕ, ◌≡◌, refl, Bool, true, false, Option, none, some, ℤ, pos, negsuc}
use lumen_rtc.Text.{Bytes, c_string}
use lumen_rtc.Text.Copy.{copy_string}

-- WebRTC's sender: what it answers to InsertDtmf with the tones, the duration, the gap and, if it is told one,
-- the delay of a comma, and what it says of itself.
pub record NativeDtmf : Type 0 where
  pub insert_dtmf : Bytes → ℤ → ℤ → Option ℤ → Bool
  pub can_insert_dtmf : Bool
  pub tones : Bytes
  pub duration : ℤ
  pub inter_tone_gap : ℤ
  pub comma_delay : ℤ

-- A comma delay that is below 0 is not passed on.
abbrev pub delay_given : ℤ → Option ℤ
delay_given (pos n) = some (pos n)
delay_given (negsuc n) = none

-- `? 1 : 0`.
abbrev flag : Bool → ℕ
flag true = 1
flag false = 0

-- lrtc_impl_dtmf_sender_can_insert.
unfoldable pub dtmf_sender_can_insert : Option NativeDtmf → ℕ
dtmf_sender_can_insert none = 0
dtmf_sender_can_insert (some d) = flag d.can_insert_dtmf

-- lrtc_impl_dtmf_sender_insert, by both forms of InsertDtmf.
unfoldable pub dtmf_sender_insert : Option NativeDtmf → Option Bytes → ℤ → ℤ → ℤ → ℕ
dtmf_sender_insert none tones duration gap delay = 0
dtmf_sender_insert (some d) none duration gap delay = 0
dtmf_sender_insert (some d) (some tones) duration gap delay =
    flag (d.insert_dtmf (c_string tones) duration gap (delay_given delay))

-- lrtc_impl_dtmf_sender_tones, with the buffer afterwards.
unfoldable pub dtmf_sender_tones : Option NativeDtmf → Option Bytes → ℕ → ℤ × Option Bytes
dtmf_sender_tones none buffer len = (negsuc 0, buffer)
dtmf_sender_tones (some d) buffer len = copy_string d.tones buffer len

-- lrtc_impl_dtmf_sender_duration.
unfoldable pub dtmf_sender_duration : Option NativeDtmf → ℤ
dtmf_sender_duration none = negsuc 0
dtmf_sender_duration (some d) = d.duration

-- lrtc_impl_dtmf_sender_inter_tone_gap.
unfoldable pub dtmf_sender_inter_tone_gap : Option NativeDtmf → ℤ
dtmf_sender_inter_tone_gap none = negsuc 0
dtmf_sender_inter_tone_gap (some d) = d.inter_tone_gap

-- lrtc_impl_dtmf_sender_comma_delay.
unfoldable pub dtmf_sender_comma_delay : Option NativeDtmf → ℤ
dtmf_sender_comma_delay none = negsuc 0
dtmf_sender_comma_delay (some d) = d.comma_delay

-- Where WebRTC's sender takes no tones while it says that it can take none, neither does the call.
pub insert_refused :
    (d : NativeDtmf) (tones : Option Bytes) (duration gap delay : ℤ)
    → (d.can_insert_dtmf ≡ false
        → (t : Bytes) (l : Option ℤ) → d.insert_dtmf t duration gap l ≡ false)
    → dtmf_sender_can_insert (some d) ≡ 0
    → dtmf_sender_insert (some d) tones duration gap delay ≡ 0
unfolding dtmf_sender_can_insert dtmf_sender_insert
insert_refused d none duration gap delay h e = refl
insert_refused d (some tones) duration gap delay h e = go d.can_insert_dtmf refl e
  where
    go :
        (b : Bool)
        → d.can_insert_dtmf ≡ b
        → flag b ≡ 0
        → dtmf_sender_insert (some d) (some tones) duration gap delay ≡ 0
    go true k e = absurd (let z : flag true ≡ 0 = e in cc)
    go false k e = rw (h k (c_string tones) (delay_given delay)) refl
