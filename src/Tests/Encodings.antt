-- ===== src/Tests/Encodings.antt =====
-- Examples on encodings, with natural numbers in place of floating-point ones.
use lumen_rtc.Base.{
  ℕ, ◌≡◌, ◌≢◌, refl, Bool, true, false, [], ◌∷◌, none, some, arith, length, if◌then◌else◌,
  get_elem?, ltb, pos, negsuc,
}
use lumen_rtc.Text.{Bytes, c_string}
use lumen_rtc.Text.Copy.{copy_string}
use lumen_rtc.Encoding.{
  Native, Double, Settings, Encoding, apply_settings, to_native_degradation, put_adaptive_ptime,
  put_rid, put_scalability_mode,
}
use lumen_rtc.Encoding.Calls.{
  Parameters, set_encoding_parameters, set_encoding_parameters_at, get_encoding_info, info_of,
}
use lumen_rtc.Encoding.Laws.{get_info-set_at, set_each, set_all-set_each}
use lumen_rtc.Encoding.Texts.{get_encoding_scalability_mode, get_mode-set_at}
use lumen_rtc.Encoding.Transceiver.{InitArguments}

abbrev natural : Double
natural = record {
  D = ℕ;
  zero = 0;
  one = 1;
  is_positive = λ x. ltb 0 x;
  is_nonnegative = λ x. true;
}

abbrev plain : Encoding ℕ
plain = record {
  ssrc = none;
  max_bitrate_bps = none;
  min_bitrate_bps = none;
  max_framerate = none;
  scale_resolution_down_by = none;
  active = true;
  bitrate_priority = 1;
  network_priority = 1;
  num_temporal_layers = none;
  scalability_mode = none;
  rid = [];
  adaptive_ptime = false;
}

abbrev pub native : Native
native = record { double = natural; created = plain }

abbrev mode : Bytes
mode = b'L' ∷ b'1' ∷ b'T' ∷ b'2' ∷ []

abbrev settings : Settings ℕ
settings = record {
  max_bitrate_bps = pos 500000;
  min_bitrate_bps = negsuc 0;
  max_framerate = 30;
  scale_resolution_down_by = 0;
  active = pos 0;
  degradation_preference = pos 2;
  bitrate_priority = 2;
  network_priority = pos 7;
  num_temporal_layers = negsuc 0;
  scalability_mode = some mode;
  rid = none;
  adaptive_ptime = pos 1;
}

abbrev two_layers : Parameters ℕ
two_layers = record { encodings = plain ∷ plain ∷ []; degradation_preference = none }

abbrev accepts : Parameters ℕ → Parameters ℕ → Bool
accepts p q = true

get_info-set_at_example :
    (e : Encoding ℕ) × (q : Parameters ℕ) × (get_elem? two_layers.encodings 1 ≡ some e)
    × (set_encoding_parameters_at native accepts (some two_layers) 1 (some settings)
        ≡ (if accepts two_layers q then (1, some q) else (0, some two_layers)))
    × (get_encoding_info native (some q) 1
        ≡ some (info_of native (apply_settings native settings e)))
    × ((j : ℕ)
        → 1 ≢ j
        → get_encoding_info native (some q) j ≡ get_encoding_info native (some two_layers) j)
    × (length q.encodings ≡ length two_layers.encodings)
get_info-set_at_example = get_info-set_at native accepts settings two_layers 1 (omega arith)

abbrev applied : Encoding ℕ
applied = apply_settings native settings plain

abbrev all_set : Parameters ℕ
all_set = record {
  encodings = applied ∷ applied ∷ [];
  degradation_preference = some (to_native_degradation (pos 2));
}

set_all-set_each_example :
    set_encoding_parameters native accepts (some two_layers) (some settings)
    ≡ (if accepts two_layers all_set then (1, some all_set) else (0, some two_layers))
unfolding set_each set_encoding_parameters_at
set_all-set_each_example =
    set_all-set_each native accepts settings two_layers all_set (λ e. cc) refl

abbrev buffer : Bytes
buffer = 9 ∷ 9 ∷ 9 ∷ 9 ∷ 9 ∷ []

abbrev second_set : Parameters ℕ
second_set = record {
  encodings = plain ∷ applied ∷ [];
  degradation_preference = some (to_native_degradation (pos 2));
}

get_mode-set_at_example :
    (b : Bytes) × (get_encoding_scalability_mode native (some second_set) 1 (some buffer) 5
      ≡ (pos (length mode), some b))
    × (c_string b ≡ mode)
unfolding set_encoding_parameters_at get_encoding_scalability_mode copy_string apply_settings
    put_adaptive_ptime put_rid put_scalability_mode
get_mode-set_at_example =
    get_mode-set_at native accepts settings two_layers second_set 1 b'L' (b'1' ∷ b'T' ∷ b'2' ∷ [])
      buffer 5 (omega arith) refl (omega arith) refl refl refl

abbrev init : InitArguments ℕ
init = record {
  direction = pos 1;
  stream_ids = none;
  stream_id_count = 0;
  send_encodings = some (settings ∷ []);
  send_encoding_count = 1;
}
