-- ===== src/Json.antt =====
-- The JSON texts that the library writes, native/src/lumenrtc_impl.cpp: AppendJsonEscaped,
-- AppendJsonString, BuildStatsJson, BuildCodecMimeJson and BuildRtpCapabilitiesJson. `std::string` is
-- a list of bytes that grows at its end.
pub mod Piece
pub mod Key
pub mod Escape
pub mod Value
pub mod Documents
pub mod Numbers
pub mod Parser
pub mod Steps
pub mod RoundTrip
pub mod Reading
use lumen_rtc.Base.{
  ℕ, zero, suc, ◌+◌, ◌-◌, ◌/◌, ◌%◌, Bool, true, false, List, [], ◌∷◌, ◌++◌, Option, none, some,
  if◌then◌else◌, ◌==◌, ltb, ℤ, pos, negsuc,
}
use lumen_rtc.Text.{Bytes, c_string}
use lumen_rtc.Codecs.{Codec}
use Piece
use Piece.{q, backslash}

-- What AppendJsonEscaped appends for one byte.
unfoldable pub escape_byte : ℕ → Bytes
escape_byte c =
    if c == q
    then backslash ∷ q ∷ []
    else if c == backslash
    then backslash ∷ backslash ∷ []
    else if c == 0x08
    then backslash ∷ b'b' ∷ []
    else if c == 0x0c
    then backslash ∷ b'f' ∷ []
    else if c == 0x0a
    then backslash ∷ b'n' ∷ []
    else if c == 0x0d
    then backslash ∷ b'r' ∷ []
    else if c == 0x09
    then backslash ∷ b't' ∷ []
    else c ∷ []

-- The loop of AppendJsonEscaped.
unfoldable pub escape_onto : Bytes → Bytes → Bytes
unfolding escape_byte
escape_onto out [] = out
escape_onto out (c ∷ cs) = escape_onto (out ++ escape_byte c) cs

unfoldable pub append_json_escaped : Bytes → Option Bytes → Bytes
unfolding escape_onto
append_json_escaped out none = out
append_json_escaped out (some value) = escape_onto out value

unfoldable pub append_json_string : Bytes → Option Bytes → Bytes
unfolding append_json_escaped
append_json_string out value = append_json_escaped (out ++ q ∷ []) value ++ q ∷ []

-- std::to_string of an unsigned value: its decimal digits. `fuel` bounds their number.
unfoldable pub digits_from : ℕ → ℕ → Bytes
digits_from zero n = []
digits_from (suc fuel) n =
    let more = digits_from fuel (n / 10) ++ (b'0' + n % 10) ∷ [] in
    if ltb n 10 then (b'0' + n) ∷ [] else more

unfoldable pub to_string : ℤ → Bytes
unfolding digits_from
to_string (pos n) = digits_from (suc n) n
to_string (negsuc n) = b'-' ∷ digits_from (suc (suc n)) (suc n)

-- The comma in front of each element but the first; the flag is `i > 0`.
abbrev pub comma : Bool → Bytes → Bytes
comma false json = json
comma true json = json ++ b',' ∷ []

-- The loop of BuildStatsJson. A report is its `ToJson()`, and `none` a null one.
unfoldable pub stats_onto : Bool → Bytes → List (Option Bytes) → Bytes
stats_onto more json [] = json
stats_onto more json (none ∷ reports) =
    stats_onto true (comma more json ++ b'n' ∷ b'u' ∷ b'l' ∷ b'l' ∷ []) reports
stats_onto more json (some report ∷ reports) = stats_onto true (comma more json ++ report) reports

unfoldable pub build_stats_json : List (Option Bytes) → Bytes
unfolding stats_onto
build_stats_json reports = stats_onto false (b'[' ∷ []) reports ++ b']' ∷ []

-- The body of the loop of BuildCodecMimeJson.
abbrev pub mime_body : Bytes → Option Codec → Bytes
mime_body json none = json
mime_body json (some c) = append_json_escaped json (some (c_string c.mime_type))

-- The loop of BuildCodecMimeJson.
unfoldable pub mimes_onto : Bool → Bytes → List (Option Codec) → Bytes
unfolding append_json_escaped
mimes_onto more json [] = json
mimes_onto more json (c ∷ codecs) =
    mimes_onto true (mime_body (comma more json ++ q ∷ []) c ++ q ∷ []) codecs

unfoldable pub build_codec_mime_json : List (Option Codec) → Bytes
unfolding mimes_onto
build_codec_mime_json codecs = mimes_onto false (b'[' ∷ []) codecs ++ b']' ∷ []

-- RTCRtpHeaderExtensionCapability.
pub record Extension : Type 0 where
  pub uri : Bytes
  pub preferred_id : ℤ
  pub preferred_encrypt : Bool

-- RTCRtpCapabilities.
pub record Capabilities : Type 0 where
  pub codecs : List Codec
  pub header_extensions : List Extension

-- One codec object of BuildRtpCapabilitiesJson.
unfoldable pub append_codec : Bytes → Codec → Bytes
unfolding append_json_string to_string
append_codec json c =
    let mime = append_json_string (json ++ b'{' ∷ Piece.mime_type) (some (c_string c.mime_type)) in
    let rate = mime ++ Piece.clock_rate ++ to_string c.clock_rate in
    let channels = rate ++ Piece.channels ++ to_string c.channels in
    append_json_string (channels ++ Piece.sdp_fmtp_line) (some (c_string c.sdp_fmtp_line))
    ++ b'}' ∷ []

unfoldable pub codecs_onto : Bool → Bytes → List Codec → Bytes
codecs_onto more json [] = json
codecs_onto more json (c ∷ cs) = codecs_onto true (append_codec (comma more json) c) cs

abbrev pub true_or_false : Bool → Bytes
true_or_false true = b't' ∷ b'r' ∷ b'u' ∷ b'e' ∷ []
true_or_false false = b'f' ∷ b'a' ∷ b'l' ∷ b's' ∷ b'e' ∷ []

-- One header extension of BuildRtpCapabilitiesJson.
unfoldable pub append_extension : Bytes → Extension → Bytes
unfolding append_json_string to_string
append_extension json e =
    let uri = append_json_string (json ++ b'{' ∷ Piece.uri) (some (c_string e.uri)) in
    let id = uri ++ Piece.preferred_id ++ to_string e.preferred_id in
    id ++ Piece.preferred_encrypt ++ true_or_false e.preferred_encrypt ++ b'}' ∷ []

unfoldable pub extensions_onto : Bool → Bytes → List Extension → Bytes
extensions_onto more json [] = json
extensions_onto more json (e ∷ es) = extensions_onto true (append_extension (comma more json) e) es

-- BuildRtpCapabilitiesJson. Its codecs and extensions are not null: it reads them with no test.
unfoldable pub build_rtp_capabilities_json : Option Capabilities → Bytes
build_rtp_capabilities_json none = b'{' ∷ b'}' ∷ []
build_rtp_capabilities_json (some caps) =
    let codecs = codecs_onto false Piece.codecs caps.codecs in
    extensions_onto false (codecs ++ Piece.header_extensions) caps.header_extensions
    ++ b']' ∷ b'}' ∷ []
