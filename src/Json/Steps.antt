-- ===== src/Json/Steps.antt =====
-- What each step of the reader does on a written value.
use lumen_rtc.Base.{
  ℕ, suc, ◌+◌, ◌≡◌, refl, ◌∙◌, sym, ap, arith, true, false, [], ◌∷◌, ◌++◌, some, append_assoc, ◌==◌,
  ℤ, pos, negsuc,
}
use lumen_rtc.Text.{Bytes}
use lumen_rtc.Json.Piece.{q}
use lumen_rtc.Json.{digits_from, to_string}
use lumen_rtc.Json.Escape.{escaped, read_body, read_body-escaped, all_writable}
use lumen_rtc.Json.Value.{
  Value, null, num, bool, str, arr, obj, Items, nil, cons, Fields, end, field, render, render_items,
  render_fields,
}
use lumen_rtc.Json.Numbers.{is_digit, read_digits, negated, NoDigit, first_digit, read_number}
use lumen_rtc.Json.Parser.{
  skip, digit, token, parse, parse_items, more_items, more_fields, parse_field,
}

unfoldable mutual
  -- How much fuel a value takes.
  pub size : Value → ℕ
  size null = 1
  size (num n) = 1
  size (bool b) = 1
  size (str s) = 1
  size (arr xs) = 1 + size_items xs
  size (obj fs) = 1 + size_fields fs

  pub size_items : Items → ℕ
  size_items nil = 1
  size_items (cons v xs) = 1 + size v + size_items xs

  pub size_fields : Fields → ℕ
  size_fields end = 1
  size_fields (field k v fs) = 2 + size v + size_fields fs

unfoldable mutual
  -- The texts have no control characters but those with an escape.
  pub Writable : Value → Type 0
  Writable null = Unit
  Writable (num n) = Unit
  Writable (bool b) = Unit
  Writable (str s) = all_writable s ≡ true
  Writable (arr xs) = WritableItems xs
  Writable (obj fs) = WritableFields fs

  pub WritableItems : Items → Type 0
  WritableItems nil = Unit
  WritableItems (cons v xs) = Writable v × WritableItems xs

  pub WritableFields : Fields → Type 0
  WritableFields end = Unit
  WritableFields (field k v fs) = (all_writable k ≡ true) × Writable v × WritableFields fs

pub read_quoted :
    (s rest : Bytes)
    → all_writable s ≡ true
    → read_body false ((escaped s ++ q ∷ []) ++ rest) ≡ some (s, rest)
read_quoted s rest h =
    ap (read_body false) (append_assoc (escaped s) (q ∷ []) rest)
    ∙ read_body-escaped s rest
    ∙ rw h refl

digit_token : (c : ℕ) → is_digit c ≡ true → token c ≡ digit
unfolding token
digit_token c h = ground arith

not_bracket : (c : ℕ) → is_digit c ≡ true → (c == b']') ≡ false
not_bracket c h = ground arith

-- A value begins with a byte that ends no array.
pub first_byte : (v : Value) → (c : ℕ) × (cs : Bytes) × (render v ≡ c ∷ cs) × ((c == b']') ≡ false)
unfolding render to_string
first_byte null = (_, _, refl, refl)
first_byte (num (pos n)) =
    let r = first_digit (suc n) n (omega arith) in (r.0, r.1, r.2, not_bracket r.0 r.3)
first_byte (num (negsuc n)) = (_, _, refl, refl)
first_byte (bool true) = (_, _, refl, refl)
first_byte (bool false) = (_, _, refl, refl)
first_byte (str s) = (_, _, refl, refl)
first_byte (arr xs) = (_, _, refl, refl)
first_byte (obj fs) = (_, _, refl, refl)

parse-digit :
    (fuel c : ℕ) (cs : Bytes)
    → is_digit c ≡ true
    → parse (suc fuel) (c ∷ cs)
      ≡ some (num (pos (read_digits 0 (c ∷ cs)).0), (read_digits 0 (c ∷ cs)).1)
unfolding parse
parse-digit fuel c cs h = rw (digit_token c h, parse) refl

parse_digits :
    (fuel n : ℕ) (rest : Bytes)
    → NoDigit rest
    → parse (suc fuel) (digits_from (suc n) n ++ rest) ≡ some (num (pos n), rest)
parse_digits fuel n rest h =
    let r = first_digit (suc n) n (omega arith) in
    ap (λ t. parse (suc fuel) (t ++ rest)) r.2
    ∙ parse-digit fuel r.0 (r.1 ++ rest) r.3
    ∙ ap (λ t. some (num (pos (read_digits 0 (t ++ rest)).0), (read_digits 0 (t ++ rest)).1))
        (sym r.2)
    ∙ ap (λ p. some (num (pos p.0), p.1)) (read_number n rest h)

pub item_step :
    (f : ℕ) (s a b : Bytes) (v : Value) (xs : Items)
    → parse f s ≡ some (v, a)
    → more_items f a ≡ some (xs, b)
    → more_items (suc f) (b',' ∷ s) ≡ some (cons v xs, b)
unfolding more_items
item_step f s a b v xs p m = rw p (rw m refl)

pub first_step :
    (f c : ℕ) (cs a b : Bytes) (v : Value) (xs : Items)
    → (c == b']') ≡ false
    → parse f (c ∷ cs) ≡ some (v, a)
    → more_items f a ≡ some (xs, b)
    → parse_items (suc f) (c ∷ cs) ≡ some (cons v xs, b)
unfolding parse_items
first_step f c cs a b v xs e p m = rw (e, parse_items) (rw p (rw m refl))

pub field_step :
    (f : ℕ) (t s a b k : Bytes) (v : Value) (fs : Fields)
    → read_body false t ≡ some (k, b':' ∷ s)
    → parse f s ≡ some (v, a)
    → more_fields f a ≡ some (fs, b)
    → parse_field (suc f) (q ∷ t) ≡ some (field k v fs, b)
unfolding parse_field skip
field_step f t s a b k v fs e p m = rw e (rw p (rw m refl))

-- What follows an element begins with no digit.
pub items_NoDigit : (xs : Items) (rest : Bytes) → NoDigit (render_items true xs ++ b']' ∷ rest)
unfolding render
items_NoDigit nil rest = refl
items_NoDigit (cons v xs) rest = refl

pub fields_NoDigit : (fs : Fields) (rest : Bytes) → NoDigit (render_fields true fs ++ b'}' ∷ rest)
unfolding render
fields_NoDigit end rest = refl
fields_NoDigit (field k v fs) rest = refl

pub field_text :
    (k : Bytes) (v : Value) (fs : Fields) (rest : Bytes)
    → render_fields false (field k v fs) ++ b'}' ∷ rest
      ≡ q ∷ (escaped k ++ q ∷ (b':' ∷ (render v ++ (render_fields true fs ++ b'}' ∷ rest))))
unfolding render_fields
field_text k v fs rest = simp append_assoc

pub read_key :
    (k rest : Bytes)
    → all_writable k ≡ true
    → read_body false (escaped k ++ q ∷ rest) ≡ some (k, rest)
read_key k rest h = read_body-escaped k rest ∙ rw h refl

pub number-render :
    (f : ℕ) (n : ℤ) (rest : Bytes)
    → NoDigit rest
    → parse (suc f) (render (num n) ++ rest) ≡ some (num n, rest)
unfolding parse render to_string token
number-render f (pos n) rest d = parse_digits f n rest d
number-render f (negsuc n) rest d =
    ap (λ p. some (num (negated p.0), p.1)) (read_number (suc n) rest d)
