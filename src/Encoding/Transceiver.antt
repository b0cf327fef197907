-- ===== src/Encoding/Transceiver.antt =====
-- What a client passes for a new transceiver, native/src/lumenrtc_impl.cpp:
-- NormalizeTransceiverDirection and BuildTransceiverInit.
use lumen_rtc.Base.{
  ℕ, zero, suc, ◌≤◌, ◌<◌, ◌≡◌, refl, ◌∙◌, List, [], ◌∷◌, map, take, Option, none, some, arith,
  if◌then◌else◌, ◌==◌, ltb, ℤ, pos, negsuc, length, get_elem?, length-map, get_elem?-map-some,
}
use lumen_rtc.Text.{Bytes, build_string_vector}
use lumen_rtc.Encoding.{Native, Settings, Encoding, build_encoding_parameters, apply_settings}

-- RTCRtpTransceiverDirection.
pub data Direction : Type 0 where
  send_recv send_only recv_only inactive stopped : Direction

-- The enumerator of a number that is one.
abbrev pub direction_of : ℕ → Direction
direction_of n =
    if n == 0
    then send_recv
    else if n == 1
    then send_only
    else if n == 2
    then recv_only
    else if n == 3
    then inactive
    else stopped

abbrev pub number_of : Direction → ℕ
number_of send_recv = 0
number_of send_only = 1
number_of recv_only = 2
number_of inactive = 3
number_of stopped = 4

unfoldable pub normalize_direction : ℤ → Direction
normalize_direction (pos n) = if ltb 4 n then send_recv else direction_of n
normalize_direction (negsuc n) = send_recv

-- A direction is kept if its number is that of an enumerator, and is "send and receive" otherwise.
pub normalize_direction_lem :
    (d : ℤ)
    → pos (number_of (normalize_direction d))
      ≡ elim d [ pos n ↦ if ltb 4 n then pos 0 else pos n | negsuc n ↦ pos 0 ]
unfolding normalize_direction
normalize_direction_lem (pos n) = ground arith
normalize_direction_lem (negsuc n) = refl

-- lrtc_rtp_transceiver_init_t. The arrays are the client's, with their counts of entries or more.
pub record InitArguments (D : Type 0) : Type 0 where
  pub direction : ℤ
  pub stream_ids : Option (List (Option Bytes))
  pub stream_id_count : ℕ
  pub send_encodings : Option (List (Settings D))
  pub send_encoding_count : ℕ

-- RTCRtpTransceiverInit.
pub record TransceiverInit (D : Type 0) : Type 0 where
  pub direction : Direction
  pub stream_ids : List Bytes
  pub send_encodings : List (Encoding D)

module _ (W : Native) where
  -- The loop over the first `count` settings.
  abbrev pub build_encodings : Option (List (Settings W.D)) → ℕ → List (Encoding W.D)
  build_encodings none count = []
  build_encodings (some settings) count =
      map (λ s. build_encoding_parameters W (some s)) (take count settings)

  unfoldable pub build_transceiver_init : Option (InitArguments W.D) → Option (TransceiverInit W.D)
  build_transceiver_init none = none
  build_transceiver_init (some init) = some (record {
    direction = normalize_direction init.direction;
    stream_ids = build_string_vector init.stream_ids init.stream_id_count;
    send_encodings = build_encodings init.send_encodings init.send_encoding_count;
  })

  get_elem?-take :
      {A : Type 0} (n i : ℕ) (xs : List A) → i < n → get_elem? (take n xs) i ≡ get_elem? xs i
  get_elem?-take zero i xs h = absurd (omega arith)
  get_elem?-take (suc n) i [] h = refl
  get_elem?-take (suc n) zero (x ∷ xs) h = refl
  get_elem?-take (suc n) (suc i) (x ∷ xs) h = get_elem?-take n i xs (omega arith)

  length-take : {A : Type 0} (n : ℕ) (xs : List A) → n ≤ length xs → length (take n xs) ≡ n
  length-take zero xs h = refl
  length-take (suc n) [] h = absurd (omega arith)
  length-take (suc n) (x ∷ xs) h = omega (arith, length-take n xs)

  -- From an array with the entries that its count says, a new transceiver gets that many encodings,
  -- each one what its own settings make of a created one.
  pub build_transceiver_init_encodings :
      (init : InitArguments W.D) (settings : List (Settings W.D))
      → init.send_encodings ≡ some settings
      → init.send_encoding_count ≤ length settings
      → (t : TransceiverInit W.D) × (build_transceiver_init (some init) ≡ some t)
        × (length t.send_encodings ≡ init.send_encoding_count)
        × ((i : ℕ) (s : Settings W.D)
            → i < init.send_encoding_count
            → get_elem? settings i ≡ some s
            → get_elem? t.send_encodings i ≡ some (apply_settings W s W.created))
  unfolding build_transceiver_init build_encoding_parameters
  build_transceiver_init_encodings init settings e h = (
    _,
    refl,
    rw e (length-map _ (take n settings) ∙ length-take n settings h),
    λ i s lt g.
        rw e (get_elem?-map-some _ (take n settings) i (get_elem?-take n i settings lt ∙ g)),
  )
    where
      n : ℕ
      n = init.send_encoding_count
