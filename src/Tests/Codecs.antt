-- ===== src/Tests/Codecs.antt =====
-- Examples on the choice of codecs.
use lumen_rtc.Base.{◌≡◌, true, List, [], ◌∷◌, Option, none, some, In, elem, pos}
use lumen_rtc.Text.{Bytes, build_string_vector}
use lumen_rtc.Codecs.{Codec, build_codec_preferences}
use lumen_rtc.Codecs.Selection.{addresses, Wanted, preferences_sound_complete}
use lumen_rtc.Codecs.Preferences.{Connection}

abbrev opus : Codec
opus = record {
  address = 4;
  mime_type = b'o' ∷ b'p' ∷ [];
  clock_rate = pos 48000;
  channels = pos 2;
  sdp_fmtp_line = [];
}

abbrev capabilities : List (Option Codec)
capabilities = none ∷ some opus ∷ some opus ∷ []

abbrev wanted : Option (List (Option Bytes))
wanted = some (some (b'O' ∷ b'P' ∷ []) ∷ none ∷ [])

preferences_sound_complete_example :
    (In opus (build_codec_preferences capabilities wanted 2)
      → Wanted opus (build_string_vector wanted 2) capabilities)
    × (Wanted opus (build_string_vector wanted 2) capabilities
        → elem opus.address (addresses (build_codec_preferences capabilities wanted 2)) ≡ true)
preferences_sound_complete_example = preferences_sound_complete capabilities wanted 2 opus

abbrev connection : Connection
connection = record {
  open? = true;
  factory = some (λ m. some capabilities);
  transceivers = some (record { address = 30; media_type = 0 }) ∷ none ∷ [];
}
