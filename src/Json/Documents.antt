-- ===== src/Json/Documents.antt =====
-- Which JSON values the texts of BuildCodecMimeJson and BuildRtpCapabilitiesJson are.
use lumen_rtc.Base.{
  ◌≡◌, refl, sym, ◌∙◌, Bool, true, false, List, [], ◌∷◌, ◌++◌, Option, none, some, append_assoc,
  append-nil,
}
use lumen_rtc.Text.{Bytes, c_string}
use lumen_rtc.Codecs.{Codec}
use lumen_rtc.Json.Key
use lumen_rtc.Json.Escape.{escaped, escape_onto_lem, append_json_escaped_lem}
use lumen_rtc.Json.Value.{
  Value, null, num, bool, str, arr, obj, Items, nil, cons, end, field, render, render_items,
}
use lumen_rtc.Json.{
  mime_body, mimes_onto, build_codec_mime_json, stats_onto, build_stats_json, append_codec,
  codecs_onto, append_extension, extensions_onto, Extension, Capabilities,
  build_rtp_capabilities_json, escape_byte,
}

-- The MIME type of a codec; of a null one, the empty text.
abbrev pub mime_text : Option Codec → Bytes
mime_text none = []
mime_text (some c) = c_string c.mime_type

abbrev pub mime_items : List (Option Codec) → Items
mime_items [] = nil
mime_items (c ∷ cs) = cons (str (mime_text c)) (mime_items cs)

mime_body_lem : (json : Bytes) (c : Option Codec) → mime_body json c ≡ json ++ escaped (mime_text c)
mime_body_lem json none = sym (append-nil json)
mime_body_lem json (some c) = append_json_escaped_lem json (c_string c.mime_type)

mimes_onto_lem :
    (more : Bool) (json : Bytes) (cs : List (Option Codec))
    → mimes_onto more json cs ≡ json ++ render_items more (mime_items cs)
unfolding mimes_onto render
mimes_onto_lem more json [] = sym (append-nil json)
mimes_onto_lem true json (c ∷ cs) = mimes_onto_lem true _ cs ∙ simp (mime_body_lem, append_assoc)
mimes_onto_lem false json (c ∷ cs) = mimes_onto_lem true _ cs ∙ simp (mime_body_lem, append_assoc)

-- BuildCodecMimeJson writes the array of the codecs' MIME types, in their order, as strings.
pub build_codec_mime_json_lem :
    (codecs : List (Option Codec)) → build_codec_mime_json codecs ≡ render (arr (mime_items codecs))
unfolding build_codec_mime_json render
build_codec_mime_json_lem codecs = rw (mimes_onto_lem false (b'[' ∷ []) codecs)

abbrev pub codec_value : Codec → Value
codec_value c = obj (
    field Key.mime_type (str (c_string c.mime_type)) (
      field Key.clock_rate (num c.clock_rate) (
        field Key.channels (num c.channels)
          (field Key.sdp_fmtp_line (str (c_string c.sdp_fmtp_line)) end))))

abbrev pub extension_value : Extension → Value
extension_value e = obj (
    field Key.uri (str (c_string e.uri)) (
      field Key.preferred_id (num e.preferred_id)
        (field Key.preferred_encrypt (bool e.preferred_encrypt) end)))

abbrev pub codec_items : List Codec → Items
codec_items [] = nil
codec_items (c ∷ cs) = cons (codec_value c) (codec_items cs)

abbrev pub extension_items : List Extension → Items
extension_items [] = nil
extension_items (e ∷ es) = cons (extension_value e) (extension_items es)

abbrev pub capabilities_value : Option Capabilities → Value
capabilities_value none = obj end
capabilities_value (some caps) = obj (
    field Key.codecs (arr (codec_items caps.codecs))
      (field Key.header_extensions (arr (extension_items caps.header_extensions)) end))

append_codec_lem : (json : Bytes) (c : Codec) → append_codec json c ≡ json ++ render (codec_value c)
unfolding append_codec render escape_byte
append_codec_lem json c = simp (escape_onto_lem, append_assoc)

append_extension_lem :
    (json : Bytes) (e : Extension) → append_extension json e ≡ json ++ render (extension_value e)
unfolding append_extension render escape_byte
append_extension_lem json e = simp (escape_onto_lem, append_assoc)

codecs_onto_lem :
    (more : Bool) (json : Bytes) (cs : List Codec)
    → codecs_onto more json cs ≡ json ++ render_items more (codec_items cs)
unfolding codecs_onto render_items
codecs_onto_lem more json [] = sym (append-nil json)
codecs_onto_lem true json (c ∷ cs) =
    codecs_onto_lem true _ cs ∙ simp (append_codec_lem, append_assoc)
codecs_onto_lem false json (c ∷ cs) =
    codecs_onto_lem true _ cs ∙ simp (append_codec_lem, append_assoc)

extensions_onto_lem :
    (more : Bool) (json : Bytes) (es : List Extension)
    → extensions_onto more json es ≡ json ++ render_items more (extension_items es)
unfolding extensions_onto render_items
extensions_onto_lem more json [] = sym (append-nil json)
extensions_onto_lem true json (e ∷ es) =
    extensions_onto_lem true _ es ∙ simp (append_extension_lem, append_assoc)
extensions_onto_lem false json (e ∷ es) =
    extensions_onto_lem true _ es ∙ simp (append_extension_lem, append_assoc)

-- BuildRtpCapabilitiesJson writes the object with the arrays `codecs` and `headerExtensions`, whose
-- elements are the capabilities' in their order, each with its fields; for a null answer it writes
-- the empty object.
pub build_rtp_capabilities_json_lem :
    (caps : Option Capabilities)
    → build_rtp_capabilities_json caps ≡ render (capabilities_value caps)
unfolding build_rtp_capabilities_json
build_rtp_capabilities_json_lem none = unfold render in refl
build_rtp_capabilities_json_lem (some caps) =
    simp (codecs_onto_lem, extensions_onto_lem, append_assoc)
      (unfold render escape_byte in simp append_assoc)

-- The reports as WebRTC writes them.
abbrev pub report_texts : List (Option Value) → List (Option Bytes)
report_texts [] = []
report_texts (none ∷ rs) = none ∷ report_texts rs
report_texts (some v ∷ rs) = some (render v) ∷ report_texts rs

abbrev pub report_items : List (Option Value) → Items
report_items [] = nil
report_items (none ∷ rs) = cons null (report_items rs)
report_items (some v ∷ rs) = cons v (report_items rs)

stats_onto_lem :
    (more : Bool) (json : Bytes) (rs : List (Option Value))
    → stats_onto more json (report_texts rs) ≡ json ++ render_items more (report_items rs)
unfolding stats_onto render_items
stats_onto_lem more json [] = sym (append-nil json)
stats_onto_lem true json (none ∷ rs) = stats_onto_lem true _ rs ∙ simp append_assoc
stats_onto_lem false json (none ∷ rs) = stats_onto_lem true _ rs ∙ simp append_assoc
stats_onto_lem true json (some v ∷ rs) = stats_onto_lem true _ rs ∙ simp append_assoc
stats_onto_lem false json (some v ∷ rs) = stats_onto_lem true _ rs ∙ simp append_assoc

-- Where each report's text is a JSON value, BuildStatsJson writes the array of these values in their
-- order, with `null` for a null report.
pub build_stats_json_lem :
    (rs : List (Option Value)) → build_stats_json (report_texts rs) ≡ render (arr (report_items rs))
unfolding build_stats_json render
build_stats_json_lem rs = rw (stats_onto_lem false (b'[' ∷ []) rs)
