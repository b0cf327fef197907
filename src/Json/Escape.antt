-- ===== src/Json/Escape.antt =====
-- A string that AppendJsonString wrote, read back as RFC 8259 reads a string. The reader knows the
-- two-character escapes; `\u` is not one that the library writes, and the reader refuses it.
use lumen_rtc.Base.{
  ℕ, ◌≡◌, refl, sym, ◌∙◌, inl, inr, Bool, true, false, not, ◌&&◌, ◌||◌, [], ◌∷◌, ◌++◌, Option, none,
  some, arith, if◌then◌else◌, ◌==◌, ltb, Bool-cases, append_assoc, append-nil,
}
use lumen_rtc.Text.{Bytes}
use lumen_rtc.Json.Piece.{q, backslash}
use lumen_rtc.Json.{escape_byte, escape_onto, append_json_escaped, append_json_string}

-- What the character behind a backslash stands for.
abbrev pub unescape : ℕ → Option ℕ
unescape c =
    if c == q
    then some q
    else if c == backslash
    then some backslash
    else if c == b'/'
    then some b'/'
    else if c == b'b'
    then some 0x08
    else if c == b'f'
    then some 0x0c
    else if c == b'n'
    then some 0x0a
    else if c == b'r'
    then some 0x0d
    else if c == b't'
    then some 0x09
    else none

abbrev pub prepend : Option ℕ → Option (Bytes × Bytes) → Option (Bytes × Bytes)
prepend none r = none
prepend (some c) none = none
prepend (some c) (some (s, rest)) = some (c ∷ s, rest)

-- The body of a string up to its closing quote, and what follows; the flag says that a backslash
-- stands before. A control character is no part of a JSON string.
unfoldable pub read_body : Bool → Bytes → Option (Bytes × Bytes)
read_body after [] = none
read_body true (c ∷ cs) = prepend (unescape c) (read_body false cs)
read_body false (c ∷ cs) =
    let plain = prepend (some c) (read_body false cs) in
    let escaped = read_body true cs in
    if c == q
    then some ([], cs)
    else if c == backslash
    then escaped
    else if ltb c 0x20
    then none
    else plain

-- A string from its opening quote on.
unfoldable pub read_string : Bytes → Option (Bytes × Bytes)
unfolding read_body
read_string [] = none
read_string (c ∷ cs) = let body = read_body false cs in if c == q then body else none

-- A byte that may stand in a string that is written: no control character, or one of the five that
-- have an escape.
abbrev pub writable : ℕ → Bool
writable c = not (ltb c 0x20) || c == 0x08 || c == 0x0c || c == 0x0a || c == 0x0d || c == 0x09

abbrev pub all_writable : Bytes → Bool
all_writable [] = true
all_writable (c ∷ cs) = writable c && all_writable cs

abbrev pub escaped : Bytes → Bytes
escaped [] = []
escaped (c ∷ cs) = escape_byte c ++ escaped cs

pub escape_onto_lem : (out v : Bytes) → escape_onto out v ≡ out ++ escaped v
unfolding escape_onto
escape_onto_lem out [] = sym (append-nil out)
escape_onto_lem out (c ∷ cs) =
    escape_onto_lem (out ++ escape_byte c) cs ∙ append_assoc out (escape_byte c) (escaped cs)

pub append_json_escaped_lem : (out v : Bytes) → append_json_escaped out (some v) ≡ out ++ escaped v
unfolding append_json_escaped
append_json_escaped_lem = escape_onto_lem

pub append_json_string_lem :
    (out v : Bytes) → append_json_string out (some v) ≡ out ++ q ∷ (escaped v ++ q ∷ [])
unfolding append_json_string
append_json_string_lem out v = rw (escape_onto_lem (out ++ q ∷ []) v) (simp append_assoc)

read-escape_byte :
    (c : ℕ) (rest : Bytes)
    → writable c ≡ true
    → read_body false (escape_byte c ++ rest) ≡ prepend (some c) (read_body false rest)
unfolding read_body escape_byte
read-escape_byte c rest w = ground arith

read_bad :
    (c : ℕ) (rest : Bytes) → writable c ≡ false → read_body false (escape_byte c ++ rest) ≡ none
unfolding read_body escape_byte
read_bad c rest w = ground arith

pub read_body-escaped :
    (v rest : Bytes)
    → read_body false (escaped v ++ q ∷ rest) ≡ (if all_writable v then some (v, rest) else none)
unfolding read_body
read_body-escaped [] rest = refl
read_body-escaped (c ∷ cs) rest =
    rw (append_assoc (escape_byte c) (escaped cs) (q ∷ rest)) (elim (Bool-cases (writable c)) [
      | inl good ↦
          read-escape_byte c (escaped cs ++ q ∷ rest) good
          ∙ ground (arith, read_body-escaped cs rest)
      | inr bad ↦ read_bad c (escaped cs ++ q ∷ rest) bad ∙ ground arith
    ])

-- A string that the library writes reads back as itself, with whatever follows it untouched, exactly
-- when its control characters are among the five that have an escape; a string with any other control
-- character is written as no JSON at all.
pub read_string-append_json_string :
    (v rest : Bytes)
    → read_string (append_json_string [] (some v) ++ rest)
      ≡ (if all_writable v then some (v, rest) else none)
unfolding read_string
read_string-append_json_string v rest =
    rw (append_json_string_lem [] v, append_assoc (escaped v) (q ∷ []) rest)
      (read_body-escaped v rest)
