-- ===== src/Transceiver.antt =====
-- RTP transceivers: the calls lrtc_impl_rtp_transceiver_* of native/src/lumenrtc_impl.cpp, over
-- bridge/lumenrtc_bridge/src/rtc_rtp_transceiver_impl.cc. A handle that is null or has no `ref` is `none`; a
-- direction is the number of its enumerator.
pub mod Errors
use lumen_rtc.Base.{
  ℕ, Bool, true, false, List, [], ◌∷◌, Option, none, some, if◌then◌else◌, ltb, length, ◌%◌, ◌^◌, ℤ,
  pos, negsuc,
}
use lumen_rtc.Text.{Bytes}
use lumen_rtc.Text.Copy.{copy_string}

-- webrtc::RtpTransceiverInterface, with the number of its wrapper's address in text.
pub record Transceiver : Type 0 where
  pub media_type : ℤ
  pub mid : Option Bytes
  pub direction : ℤ
  pub current_direction : Option ℤ
  pub fired_direction : Option ℤ
  pub stopped : Bool
  pub stopping : Bool
  pub address : Bytes

-- What WebRTC does for a request: its error's message, `none` if there is no error, and the new state.
pub record WebRtc : Type 0 where
  pub set_direction : ℤ → Transceiver → Option Bytes × Transceiver
  pub stop_standard : Transceiver → Option Bytes × Transceiver

-- RTCRtpTransceiverImpl::SetDirectionWithError.
unfoldable pub set_direction_with_error : WebRtc → ℤ → Transceiver → Bytes × Transceiver
set_direction_with_error w d t =
    let answer = w.set_direction d t in
    (elim answer.0 [ none ↦ [] | some message ↦ message ], answer.1)

-- RTCRtpTransceiverImpl::StopStandard; the message of no error is empty.
unfoldable pub stop_standard : WebRtc → Transceiver → Bytes × Transceiver
stop_standard w t =
    let answer = w.stop_standard t in
    (elim answer.0 [ none ↦ [] | some message ↦ message ], answer.1)

-- The result for an error text, and the client's buffer for it afterwards.
abbrev pub report : Bytes → Option Bytes → ℕ → ℕ × Option Bytes
report [] error error_len = (1, error)
report (c ∷ cs) error error_len =
    if ltb 0 error_len
    then elim error [ none ↦ (0, none) | some b ↦ (0, (copy_string (c ∷ cs) (some b) error_len).1) ]
    else (0, error)

-- lrtc_impl_rtp_transceiver_set_direction.
unfoldable pub set_direction :
    WebRtc → ℤ → Option Bytes → ℕ → Option Transceiver → (ℕ × Option Bytes) × Option Transceiver
unfolding set_direction_with_error
set_direction w d error error_len none = ((0, error), none)
set_direction w d error error_len (some t) =
    let answer = set_direction_with_error w d t in (report answer.0 error error_len, some answer.1)

-- lrtc_impl_rtp_transceiver_stop.
unfoldable pub stop :
    WebRtc → Option Bytes → ℕ → Option Transceiver → (ℕ × Option Bytes) × Option Transceiver
unfolding stop_standard
stop w error error_len none = ((0, error), none)
stop w error error_len (some t) =
    let answer = stop_standard w t in (report answer.0 error error_len, some answer.1)

-- The number of an enumerator of a transceiver that may be missing.
abbrev pub number_or_minus_one : (Transceiver → ℤ) → Option Transceiver → ℤ
number_or_minus_one f none = negsuc 0
number_or_minus_one f (some t) = f t

-- lrtc_impl_rtp_transceiver_get_media_type.
unfoldable pub get_media_type : Option Transceiver → ℤ
get_media_type = number_or_minus_one (λ t. t.media_type)

-- lrtc_impl_rtp_transceiver_get_direction.
unfoldable pub get_direction : Option Transceiver → ℤ
get_direction = number_or_minus_one (λ t. t.direction)

-- kInactive.
abbrev pub or_inactive : Option ℤ → ℤ
or_inactive none = pos 3
or_inactive (some d) = d

-- lrtc_impl_rtp_transceiver_get_current_direction with RTCRtpTransceiverImpl::current_direction.
unfoldable pub get_current_direction : Option Transceiver → ℤ
get_current_direction = number_or_minus_one (λ t. or_inactive t.current_direction)

-- lrtc_impl_rtp_transceiver_get_fired_direction with RTCRtpTransceiverImpl::fired_direction.
unfoldable pub get_fired_direction : Option Transceiver → ℤ
get_fired_direction = number_or_minus_one (λ t. or_inactive t.fired_direction)

-- RTCRtpTransceiverImpl::mid.
unfoldable pub bridge_mid : Transceiver → Bytes
bridge_mid t = elim t.mid [ none ↦ [] | some m ↦ m ]

-- lrtc_impl_rtp_transceiver_get_mid.
unfoldable pub get_mid : Option Transceiver → Option Bytes → ℕ → ℤ × Option Bytes
unfolding copy_string bridge_mid
get_mid none buffer len = (negsuc 0, buffer)
get_mid (some t) buffer len = copy_string (bridge_mid t) buffer len

-- lrtc_impl_rtp_transceiver_get_stopped.
unfoldable pub get_stopped : Option Transceiver → ℕ
get_stopped none = 0
get_stopped (some t) = if t.stopped then 1 else 0

-- lrtc_impl_rtp_transceiver_get_stopping.
unfoldable pub get_stopping : Option Transceiver → ℕ
get_stopping none = 0
get_stopping (some t) = if t.stopping then 1 else 0
