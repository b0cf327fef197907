-- ===== src/Json/Piece.antt =====
-- The literal pieces of the JSON texts, native/src/lumenrtc_impl.cpp.
use lumen_rtc.Base.{ℕ, [], ◌∷◌}
use lumen_rtc.Text.{Bytes}

-- A double quote, and a backslash.
abbrev pub q : ℕ
q = b'"'

abbrev pub backslash : ℕ
backslash = b'\\'

-- Those of BuildRtpCapabilitiesJson.
abbrev pub mime_type : Bytes
mime_type = q ∷ b'm' ∷ b'i' ∷ b'm' ∷ b'e' ∷ b'T' ∷ b'y' ∷ b'p' ∷ b'e' ∷ q ∷ b':' ∷ []

abbrev pub clock_rate : Bytes
clock_rate = b',' ∷ q ∷ b'c' ∷ b'l' ∷ b'o' ∷ b'c' ∷ b'k' ∷ b'R' ∷ b'a' ∷ b't' ∷ b'e' ∷ q ∷ b':' ∷ []

abbrev pub channels : Bytes
channels = b',' ∷ q ∷ b'c' ∷ b'h' ∷ b'a' ∷ b'n' ∷ b'n' ∷ b'e' ∷ b'l' ∷ b's' ∷ q ∷ b':' ∷ []

abbrev pub sdp_fmtp_line : Bytes
sdp_fmtp_line =
    b',' ∷ q ∷ b's' ∷ b'd' ∷ b'p' ∷ b'F' ∷ b'm' ∷ b't' ∷ b'p' ∷ b'L' ∷ b'i' ∷ b'n' ∷ b'e' ∷ q ∷ b':'
    ∷ []

abbrev pub codecs : Bytes
codecs = b'{' ∷ q ∷ b'c' ∷ b'o' ∷ b'd' ∷ b'e' ∷ b'c' ∷ b's' ∷ q ∷ b':' ∷ b'[' ∷ []

abbrev pub header_extensions : Bytes
header_extensions =
    b']' ∷ b',' ∷ q ∷ b'h' ∷ b'e' ∷ b'a' ∷ b'd' ∷ b'e' ∷ b'r' ∷ b'E' ∷ b'x' ∷ b't' ∷ b'e' ∷ b'n'
    ∷ b's' ∷ b'i' ∷ b'o' ∷ b'n' ∷ b's' ∷ q ∷ b':' ∷ b'[' ∷ []

abbrev pub uri : Bytes
uri = q ∷ b'u' ∷ b'r' ∷ b'i' ∷ q ∷ b':' ∷ []

abbrev pub preferred_id : Bytes
preferred_id =
    b',' ∷ q ∷ b'p' ∷ b'r' ∷ b'e' ∷ b'f' ∷ b'e' ∷ b'r' ∷ b'r' ∷ b'e' ∷ b'd' ∷ b'I' ∷ b'd' ∷ q ∷ b':'
    ∷ []

abbrev pub preferred_encrypt : Bytes
preferred_encrypt =
    b',' ∷ q ∷ b'p' ∷ b'r' ∷ b'e' ∷ b'f' ∷ b'e' ∷ b'r' ∷ b'r' ∷ b'e' ∷ b'd' ∷ b'E' ∷ b'n' ∷ b'c'
    ∷ b'r' ∷ b'y' ∷ b'p' ∷ b't' ∷ q ∷ b':' ∷ []
