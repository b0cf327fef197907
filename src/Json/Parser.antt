-- ===== src/Json/Parser.antt =====
-- A reader of JSON texts with no spaces, as RFC 8259 reads them but for `\u` and for numbers that are not
-- whole. `fuel` bounds the depth and the length of what is read.
use lumen_rtc.Base.{
  ℕ, zero, suc, true, false, [], ◌∷◌, Option, none, some, if◌then◌else◌, ◌==◌, pos,
}
use lumen_rtc.Text.{Bytes}
use lumen_rtc.Json.Piece.{q}
use lumen_rtc.Json.Escape.{read_body}
use lumen_rtc.Json.Numbers.{is_digit, read_digits, negated}
use lumen_rtc.Json.Value.{
  Value, null, num, bool, str, arr, obj, Items, nil, cons, Fields, end, field,
}

infixl 5 ◌>>=◌
abbrev pub ◌>>=◌ : {A B : Type 0} → Option A → (A → Option B) → Option B
none >>= f = none
some a >>= f = f a

-- What a value begins with.
pub data Token : Type 0 where
  null_token true_token false_token quote bracket brace minus digit other : Token

unfoldable pub token : ℕ → Token
token c =
    if c == b'n'
    then null_token
    else if c == b't'
    then true_token
    else if c == b'f'
    then false_token
    else if c == q
    then quote
    else if c == b'['
    then bracket
    else if c == b'{'
    then brace
    else if c == b'-'
    then minus
    else if is_digit c
    then digit
    else other

-- The text behind an expected one.
unfoldable pub skip : Bytes → Bytes → Option Bytes
skip [] cs = some cs
skip (e ∷ es) [] = none
skip (e ∷ es) (c ∷ cs) = let rest = skip es cs in if c == e then rest else none

unfoldable mutual
  pub parse : ℕ → Bytes → Option (Value × Bytes)
  parse zero s = none
  parse (suc fuel) [] = none
  parse (suc fuel) (c ∷ cs) = elim (token c) [
    | null_token ↦ skip (b'u' ∷ b'l' ∷ b'l' ∷ []) cs >>= λ r. some (null, r)
    | true_token ↦ skip (b'r' ∷ b'u' ∷ b'e' ∷ []) cs >>= λ r. some (bool true, r)
    | false_token ↦ skip (b'a' ∷ b'l' ∷ b's' ∷ b'e' ∷ []) cs >>= λ r. some (bool false, r)
    | quote ↦ read_body false cs >>= λ r. some (str r.0, r.1)
    | bracket ↦ parse_items fuel cs >>= λ r. some (arr r.0, r.1)
    | brace ↦ parse_fields fuel cs >>= λ r. some (obj r.0, r.1)
    | minus ↦ some (num (negated (read_digits 0 cs).0), (read_digits 0 cs).1)
    | digit ↦ some (num (pos (read_digits 0 (c ∷ cs)).0), (read_digits 0 (c ∷ cs)).1)
    | other ↦ none
  ]

  -- Behind the opening bracket.
  pub parse_items : ℕ → Bytes → Option (Items × Bytes)
  parse_items zero s = none
  parse_items (suc fuel) [] = none
  parse_items (suc fuel) (c ∷ cs) = elim (c == b']') [
    | true ↦ some (nil, cs)
    | false ↦ parse fuel (c ∷ cs) >>= λ v. (more_items fuel v.1 >>= λ r. some (cons v.0 r.0, r.1))
  ]

  -- Behind an element.
  pub more_items : ℕ → Bytes → Option (Items × Bytes)
  more_items zero s = none
  more_items (suc fuel) [] = none
  more_items (suc fuel) (c ∷ cs) = elim (c == b']') [
    | true ↦ some (nil, cs)
    | false ↦ elim (c == b',') [
      | true ↦ parse fuel cs >>= λ v. (more_items fuel v.1 >>= λ r. some (cons v.0 r.0, r.1))
      | false ↦ none
    ]
  ]

  -- Behind the opening brace.
  pub parse_fields : ℕ → Bytes → Option (Fields × Bytes)
  parse_fields zero s = none
  parse_fields (suc fuel) [] = none
  parse_fields (suc fuel) (c ∷ cs) = elim (c == b'}') [
    | true ↦ some (end, cs)
    | false ↦ parse_field fuel (c ∷ cs)
  ]

  -- Behind a field.
  pub more_fields : ℕ → Bytes → Option (Fields × Bytes)
  more_fields zero s = none
  more_fields (suc fuel) [] = none
  more_fields (suc fuel) (c ∷ cs) = elim (c == b'}') [
    | true ↦ some (end, cs)
    | false ↦ elim (c == b',') [ true ↦ parse_field fuel cs | false ↦ none ]
  ]

  -- A field, and those behind it.
  pub parse_field : ℕ → Bytes → Option (Fields × Bytes)
  parse_field zero s = none
  parse_field (suc fuel) s = skip (q ∷ []) s >>= λ s.
      (read_body false s >>= λ k.
      (skip (b':' ∷ []) k.1 >>= λ s.
      (parse fuel s >>= λ v. (more_fields fuel v.1 >>= λ r. some (field k.0 v.0 r.0, r.1)))))
