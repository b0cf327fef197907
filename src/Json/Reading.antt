-- ===== src/Json/Reading.antt =====
-- The texts of BuildRtpCapabilitiesJson, read back by a reader of any document.
use lumen_rtc.Base.{
  ℕ, ◌+◌, ◌*◌, ◌≤◌, ◌≡◌, refl, ◌∙◌, sym, ap, arith, true, List, [], ◌∷◌, some, length, append-nil,
}
use lumen_rtc.Text.{c_string}
use lumen_rtc.Codecs.{Codec}
use lumen_rtc.Json.{Capabilities, Extension, build_rtp_capabilities_json}
use lumen_rtc.Json.Escape.{all_writable}
use lumen_rtc.Json.Value.{render}
use lumen_rtc.Json.Parser.{parse}
use lumen_rtc.Json.Steps.{size, size_items, Writable, WritableItems}
use lumen_rtc.Json.RoundTrip.{parse-render}
use lumen_rtc.Json.Documents.{
  codec_items, extension_items, capabilities_value, build_rtp_capabilities_json_lem,
}

-- The texts of every codec can stand in a JSON string.
abbrev pub CodecTexts : List Codec → Type 0
CodecTexts [] = Unit
CodecTexts (c ∷ cs) =
    (all_writable (c_string c.mime_type) ≡ true)
    × (all_writable (c_string c.sdp_fmtp_line) ≡ true)
    × CodecTexts cs

abbrev pub ExtensionTexts : List Extension → Type 0
ExtensionTexts [] = Unit
ExtensionTexts (e ∷ es) = (all_writable (c_string e.uri) ≡ true) × ExtensionTexts es

codecs_size : (cs : List Codec) → size_items (codec_items cs) ≡ 1 + 15 * length cs
unfolding size
codecs_size [] = refl
codecs_size (c ∷ cs) = omega (arith, codecs_size cs)

extensions_size : (es : List Extension) → size_items (extension_items es) ≡ 1 + 12 * length es
unfolding size
extensions_size [] = refl
extensions_size (e ∷ es) = omega (arith, extensions_size es)

codecs-WritableItems : (cs : List Codec) → CodecTexts cs → WritableItems (codec_items cs)
unfolding Writable
codecs-WritableItems [] h = tt
codecs-WritableItems (c ∷ cs) h =
    ((refl, h.0, (refl, tt, (refl, tt, (refl, h.1, tt)))), codecs-WritableItems cs h.2)

extensions-WritableItems :
    (es : List Extension) → ExtensionTexts es → WritableItems (extension_items es)
unfolding Writable
extensions-WritableItems [] h = tt
extensions-WritableItems (e ∷ es) h =
    ((refl, h.0, (refl, tt, (refl, tt, tt))), extensions-WritableItems es h.1)

capabilities_size :
    (caps : Capabilities)
    → size (capabilities_value (some caps))
      ≡ 10 + 15 * length caps.codecs + 12 * length caps.header_extensions
unfolding size
capabilities_size caps =
    omega (arith, codecs_size caps.codecs, extensions_size caps.header_extensions)

capabilities-Writable :
    (caps : Capabilities)
    → CodecTexts caps.codecs
    → ExtensionTexts caps.header_extensions
    → Writable (capabilities_value (some caps))
unfolding Writable
capabilities-Writable caps cs es = (
  refl,
  codecs-WritableItems caps.codecs cs,
  (refl, extensions-WritableItems caps.header_extensions es, tt),
)

-- Where the codecs' and the extensions' texts have no control character but those with an escape, a
-- reader of JSON documents that may take that many steps reads the text of BuildRtpCapabilitiesJson
-- to its end, as the object with the arrays of the codecs and of the extensions.
pub parse-build_rtp_capabilities_json :
    (fuel : ℕ) (caps : Capabilities)
    → 10 + 15 * length caps.codecs + 12 * length caps.header_extensions ≤ fuel
    → CodecTexts caps.codecs
    → ExtensionTexts caps.header_extensions
    → parse fuel (build_rtp_capabilities_json (some caps))
      ≡ some (capabilities_value (some caps), [])
parse-build_rtp_capabilities_json fuel caps h cs es =
    ap (parse fuel) (
      build_rtp_capabilities_json_lem (some caps)
      ∙ sym (append-nil (render (capabilities_value (some caps)))))
    ∙ parse-render fuel (capabilities_value (some caps)) []
        (omega (arith, h, capabilities_size caps)) (capabilities-Writable caps cs es) tt
