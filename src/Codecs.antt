-- ===== src/Codecs.antt =====
-- RTP capabilities and the choice of codecs, native/src/lumenrtc_impl.cpp: BuildCodecPreferences and
-- the two calls that apply it. A codec object is its address with the values that its getters return.
pub mod Selection
pub mod Preferences
use lumen_rtc.Base.{
  ℕ, zero, suc, Bool, true, false, List, [], ◌∷◌, ◌++◌, Option, none, some, if◌then◌else◌, ◌==◌,
  elem, ℤ,
}
use lumen_rtc.Text.{Bytes, mime_equals}

-- RTCRtpCodecCapability.
pub record Codec : Type 0 where
  pub address : ℕ
  pub mime_type : Bytes
  pub clock_rate : ℤ
  pub channels : ℤ
  pub sdp_fmtp_line : Bytes

-- `selected` and `seen`.
pub record Selected : Type 0 where
  pub selected : List Codec
  pub seen : List ℕ

abbrev pub nothing_selected : Selected
nothing_selected = record { selected = []; seen = [] }

-- `if (seen.insert(codec.get()).second) selected.push_back(codec)`.
abbrev pub insert_new : Codec → Selected → Selected
insert_new c s =
    if elem c.address s.seen
    then s
    else record { selected = s.selected ++ c ∷ []; seen = c.address ∷ s.seen }

-- The loop over the codecs, for one MIME type.
unfoldable pub select_mime : Bytes → List (Option Codec) → Selected → Selected
select_mime mime [] s = s
select_mime mime (none ∷ codecs) s = select_mime mime codecs s
select_mime mime (some c ∷ codecs) s =
    select_mime mime codecs (if mime_equals c.mime_type (some mime) then insert_new c s else s)

-- The loop over the first `count` MIME types.
unfoldable pub select_all : ℕ → List (Option Bytes) → List (Option Codec) → Selected → Selected
unfolding select_mime
select_all zero mimes codecs s = s
select_all (suc count) [] codecs s = s
select_all (suc count) (none ∷ mimes) codecs s = select_all count mimes codecs s
select_all (suc count) (some mime ∷ mimes) codecs s =
    select_all count mimes codecs (select_mime mime codecs s)

-- BuildCodecPreferences. The array of MIME types is the client's, with `count` entries or more.
unfoldable pub build_codec_preferences :
    List (Option Codec) → Option (List (Option Bytes)) → ℕ → List Codec
unfolding select_all
build_codec_preferences codecs none count = []
build_codec_preferences codecs (some mimes) count =
    if count == 0 then [] else (select_all count mimes codecs nothing_selected).selected
