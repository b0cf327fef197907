-- ===== src/Exchange/Closed.antt =====
-- The nine calls on a closed connection, and the limits of SetRemoteDescription.
use lumen_rtc.Base.{
  ℕ, ◌≡◌, ◌<◌, ◌≤◌, ◌*◌, ◌-◌, ◌^◌, refl, arith, true, false, not, Option, none, some, if◌then◌else◌,
  pos, negsuc,
}
use lumen_rtc.Text.{Bytes}
use lumen_rtc.Exchange.{
  Message, not_initialized, invalid_arguments, invalid_type, unparsable, Callbacks, Session, Native,
  Ask, create_offer, create_answer, set_local_description, set_remote_description,
  get_local_description, get_remote_description, get_stats, get_sender_stats, get_receiver_stats,
  fail, call_now, ask, create_description, set_local, set_remote, get_description, collect, limit,
}

-- The failure that a closed connection reports; `none` where the call crashes.
abbrev pub text_failure : Native → Option Bytes → Option Bytes → Option Message
text_failure w none type = some invalid_arguments
text_failure w (some sdp) none = some invalid_arguments
text_failure w (some sdp) (some type) =
    if not (w.is_type type)
    then some invalid_type
    else if not (w.parses type sdp)
    then some unparsable
    else none

abbrev pub object_failure : Option ℕ → Option Message
object_failure none = some invalid_arguments
object_failure (some o) = some not_initialized

abbrev pub shut_failure : Native → Ask → Option Message
shut_failure w (create_offer constraints) = some not_initialized
shut_failure w (create_answer constraints) = some not_initialized
shut_failure w (set_local_description sdp type) = text_failure w sdp type
shut_failure w (set_remote_description sdp type) = text_failure w sdp type
shut_failure w get_local_description = none
shut_failure w get_remote_description = none
shut_failure w get_stats = some not_initialized
shut_failure w (get_sender_stats sender) = object_failure sender
shut_failure w (get_receiver_stats receiver) = object_failure receiver

abbrev pub report : Callbacks → Session → Option Message → Option Session
report cb s none = none
report cb s (some m) = some (call_now (fail cb m) s)

-- On a closed connection the creation of descriptions and the statistics report at once that the
-- connection is not initialised, and asking for a description crashes; setting one reports a null or a bad
-- argument, and crashes on arguments that are right.
pub ask-shut :
    (w : Native) (cb : Callbacks) (s : Session) (q : Ask)
    → s.is_open ≡ false
    → ask w cb s true q ≡ report cb s (shut_failure w q)
unfolding ask create_description set_local set_remote get_description collect
ask-shut w cb s (create_offer constraints) e = ground arith
ask-shut w cb s (create_answer constraints) e = ground arith
ask-shut w cb s (set_local_description none type) e = refl
ask-shut w cb s (set_local_description (some sdp) none) e = refl
ask-shut w cb s (set_local_description (some sdp) (some type)) e = ground arith
ask-shut w cb s (set_remote_description none type) e = refl
ask-shut w cb s (set_remote_description (some sdp) none) e = refl
ask-shut w cb s (set_remote_description (some sdp) (some type)) e = ground arith
ask-shut w cb s get_local_description e = ground arith
ask-shut w cb s get_remote_description e = ground arith
ask-shut w cb s get_stats e = ground arith
ask-shut w cb s (get_sender_stats none) e = refl
ask-shut w cb s (get_sender_stats (some o)) e = ground arith
ask-shut w cb s (get_receiver_stats none) e = refl
ask-shut w cb s (get_receiver_stats (some o)) e = ground arith

-- SetRemoteDescription limits a content to the configured kilobits per second, and does not where none are
-- configured, as long as they are fewer than 2^31 bits; from there to 2^32 the limit is negative.
pub limit_bounds :
    (bandwidth : ℕ)
    → (limit false bandwidth ≡ none)
      × (limit true 0 ≡ none)
      × (0 < bandwidth
          → bandwidth * 1000 < 2 ^ 31
          → limit true bandwidth ≡ some (pos (bandwidth * 1000)))
      × (2 ^ 31 ≤ bandwidth * 1000
          → bandwidth * 1000 < 2 ^ 32
          → limit true bandwidth ≡ some (negsuc (2 ^ 32 - bandwidth * 1000 - 1)))
unfolding limit
limit_bounds bandwidth = (refl, refl, (λ p h. ground arith), λ h k. ground arith)
