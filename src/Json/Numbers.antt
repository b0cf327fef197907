-- ===== src/Json/Numbers.antt =====
-- Decimal numbers read from a text, and those that `std::to_string` writes read back.
use lumen_rtc.Base.{
  ℕ, zero, suc, ◌+◌, ◌-◌, ◌*◌, ◌/◌, ◌%◌, ◌<◌, ◌≤◌, ◌≡◌, refl, ◌∙◌, ap, arith, Bool, true, false,
  ◌&&◌, [], ◌∷◌, ◌++◌, append_assoc, if◌then◌else◌, leb, ltb, ℤ, pos, negsuc,
}
use lumen_rtc.Text.{Bytes}
use lumen_rtc.Json.{digits_from}

abbrev pub is_digit : ℕ → Bool
is_digit c = leb b'0' c && leb c b'9'

-- The value of the digits, behind others of the value `acc`, and what follows.
unfoldable pub read_digits : ℕ → Bytes → ℕ × Bytes
read_digits acc [] = (acc, [])
read_digits acc (c ∷ cs) =
    let more = read_digits (acc * 10 + (c - b'0')) cs in if is_digit c then more else (acc, c ∷ cs)

abbrev pub negated : ℕ → ℤ
negated zero = pos 0
negated (suc n) = negsuc n

-- No digit stands next.
abbrev pub NoDigit : Bytes → Type 0
NoDigit [] = Unit
NoDigit (c ∷ cs) = is_digit c ≡ false

read_digits-NoDigit : (n : ℕ) (rest : Bytes) → NoDigit rest → read_digits n rest ≡ (n, rest)
unfolding read_digits
read_digits-NoDigit n [] h = refl
read_digits-NoDigit n (c ∷ cs) h = rw h refl

is_digit_lem : (d : ℕ) → d < 10 → is_digit (b'0' + d) ≡ true
is_digit_lem d h = ground arith

read_digits-digit :
    (acc d : ℕ) (rest : Bytes)
    → d < 10
    → read_digits acc ((b'0' + d) ∷ rest) ≡ read_digits (acc * 10 + d) rest
unfolding read_digits
read_digits-digit acc d rest h =
    let value : acc * 10 + (b'0' + d - b'0') ≡ acc * 10 + d = omega arith in
    rw (is_digit_lem d h) (ap (λ k. read_digits k rest) value)

shorter : (n fuel : ℕ) → 10 ≤ n → n < suc fuel → n / 10 < fuel
shorter n fuel h k = omega arith

read_digits-digits_from :
    (fuel n : ℕ) (rest : Bytes)
    → n < fuel
    → read_digits 0 (digits_from fuel n ++ rest) ≡ read_digits n rest
unfolding digits_from
read_digits-digits_from zero n rest h = absurd (omega (arith, h))
read_digits-digits_from (suc fuel) n rest h =
    go (ltb n 10) refl (λ p. read_digits-digits_from fuel (n / 10) ((b'0' + n % 10) ∷ rest) p)
  where
    go :
        (b : Bool)
        → ltb n 10 ≡ b
        → (n / 10 < fuel
            → read_digits 0 (digits_from fuel (n / 10) ++ (b'0' + n % 10) ∷ rest)
              ≡ read_digits (n / 10) ((b'0' + n % 10) ∷ rest))
        → read_digits 0 (
            (if b then (b'0' + n) ∷ [] else digits_from fuel (n / 10) ++ (b'0' + n % 10) ∷ [])
            ++ rest)
          ≡ read_digits n rest
    go true e ih =
        read_digits-digit 0 n rest (ground (arith, e))
        ∙ ap (λ k. read_digits k rest) (let r : 0 * 10 + n ≡ n = omega arith in r)
    go false e ih =
        ap (read_digits 0) (append_assoc (digits_from fuel (n / 10)) ((b'0' + n % 10) ∷ []) rest)
        ∙ ih (shorter n fuel (ground (arith, e)) h)
        ∙ read_digits-digit (n / 10) (n % 10) rest (omega arith)
        ∙ ap (λ k. read_digits k rest) (let r : n / 10 * 10 + n % 10 ≡ n = omega arith in r)

-- A number begins with a digit, or with a minus and one behind it.
pub first_digit :
    (fuel n : ℕ)
    → n < fuel
    → (c : ℕ) × (cs : Bytes) × (digits_from fuel n ≡ c ∷ cs) × (is_digit c ≡ true)
unfolding digits_from
first_digit zero n h = absurd (omega (arith, h))
first_digit (suc fuel) n h = go (ltb n 10) refl (λ p. first_digit fuel (n / 10) p)
  where
    go :
        (b : Bool)
        → ltb n 10 ≡ b
        → (n / 10 < fuel
            → (c : ℕ) × (cs : Bytes) × (digits_from fuel (n / 10) ≡ c ∷ cs) × (is_digit c ≡ true))
        → (c : ℕ) × (cs : Bytes) × ((if b
              then (b'0' + n) ∷ []
              else digits_from fuel (n / 10) ++ (b'0' + n % 10) ∷ [])
            ≡ c ∷ cs)
          × (is_digit c ≡ true)
    go true e ih = (_, _, refl, ground (arith, e))
    go false e ih =
        let r = ih (shorter n fuel (ground (arith, e)) h) in
        (r.0, _, ap (λ t. t ++ (b'0' + n % 10) ∷ []) r.2, r.3)

pub read_number :
    (n : ℕ) (rest : Bytes)
    → NoDigit rest
    → read_digits 0 (digits_from (suc n) n ++ rest) ≡ (n, rest)
read_number n rest h =
    read_digits-digits_from (suc n) n rest (omega arith) ∙ read_digits-NoDigit n rest h
