-- ===== src/Json/Key.antt =====
-- The keys of the capabilities document.
use lumen_rtc.Base.{[], ◌∷◌}
use lumen_rtc.Text.{Bytes}

abbrev pub mime_type : Bytes
mime_type = b'm' ∷ b'i' ∷ b'm' ∷ b'e' ∷ b'T' ∷ b'y' ∷ b'p' ∷ b'e' ∷ []

abbrev pub clock_rate : Bytes
clock_rate = b'c' ∷ b'l' ∷ b'o' ∷ b'c' ∷ b'k' ∷ b'R' ∷ b'a' ∷ b't' ∷ b'e' ∷ []

abbrev pub channels : Bytes
channels = b'c' ∷ b'h' ∷ b'a' ∷ b'n' ∷ b'n' ∷ b'e' ∷ b'l' ∷ b's' ∷ []

abbrev pub sdp_fmtp_line : Bytes
sdp_fmtp_line = b's' ∷ b'd' ∷ b'p' ∷ b'F' ∷ b'm' ∷ b't' ∷ b'p' ∷ b'L' ∷ b'i' ∷ b'n' ∷ b'e' ∷ []

abbrev pub codecs : Bytes
codecs = b'c' ∷ b'o' ∷ b'd' ∷ b'e' ∷ b'c' ∷ b's' ∷ []

abbrev pub header_extensions : Bytes
header_extensions =
    b'h' ∷ b'e' ∷ b'a' ∷ b'd' ∷ b'e' ∷ b'r' ∷ b'E' ∷ b'x' ∷ b't' ∷ b'e' ∷ b'n' ∷ b's' ∷ b'i' ∷ b'o'
    ∷ b'n' ∷ b's' ∷ []

abbrev pub uri : Bytes
uri = b'u' ∷ b'r' ∷ b'i' ∷ []

abbrev pub preferred_id : Bytes
preferred_id = b'p' ∷ b'r' ∷ b'e' ∷ b'f' ∷ b'e' ∷ b'r' ∷ b'r' ∷ b'e' ∷ b'd' ∷ b'I' ∷ b'd' ∷ []

abbrev pub preferred_encrypt : Bytes
preferred_encrypt =
    b'p' ∷ b'r' ∷ b'e' ∷ b'f' ∷ b'e' ∷ b'r' ∷ b'r' ∷ b'e' ∷ b'd' ∷ b'E' ∷ b'n' ∷ b'c' ∷ b'r' ∷ b'y'
    ∷ b'p' ∷ b't' ∷ []
