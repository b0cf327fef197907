-- ===== src/Tests/Documents.antt =====
-- Examples on the JSON texts.
use lumen_rtc.Base.{arith, ◌≡◌, refl, [], ◌∷◌, ◌++◌, none, some, pos, if◌then◌else◌}
use lumen_rtc.Text.{Bytes}
use lumen_rtc.Codecs.{Codec}
use lumen_rtc.Json.{Capabilities, append_json_string, build_rtp_capabilities_json}
use lumen_rtc.Json.Escape.{read_string, all_writable, read_string-append_json_string}
use lumen_rtc.Json.Documents.{capabilities_value}
use lumen_rtc.Json.Parser.{parse}
use lumen_rtc.Json.Reading.{parse-build_rtp_capabilities_json}

abbrev text : Bytes
text = b'a' ∷ 0x0a ∷ b'"' ∷ 0x01 ∷ []

read_string-append_json_string_example :
    read_string (append_json_string [] (some text) ++ (b',' ∷ []))
    ≡ (if all_writable text then some (text, b',' ∷ []) else none)
read_string-append_json_string_example = read_string-append_json_string text (b',' ∷ [])

abbrev vp8 : Codec
vp8 = record {
  address = 4;
  mime_type = b'V' ∷ b'P' ∷ b'8' ∷ [];
  clock_rate = pos 90000;
  channels = pos 1;
  sdp_fmtp_line = [];
}

abbrev capabilities : Capabilities
capabilities = record { codecs = vp8 ∷ []; header_extensions = [] }

parse-build_rtp_capabilities_json_example :
    parse 25 (build_rtp_capabilities_json (some capabilities))
    ≡ some (capabilities_value (some capabilities), [])
parse-build_rtp_capabilities_json_example =
    parse-build_rtp_capabilities_json 25 capabilities (omega arith) (refl, refl, tt) tt
