-- ===== src/Text/Copy.antt =====
-- CopyPortableString, native/src/lumenrtc_impl.cpp: how every text leaves the library. A client asks
-- for the size with a null buffer, and calls again with a buffer of that size.
use native.Mathlib.Nat.{suc-sub-suc, sub-zero}
use lumen_rtc.Base.{
  ℕ, zero, suc, ◌+◌, ◌-◌, ◌%◌, ◌^◌, ◌≤◌, ◌<◌, ◌≡◌, refl, ◌∙◌, ◌↔◌, ◌⊎◌, inl, inr, false, [], ◌∷◌,
  ◌++◌, Option, none, some, arith, length, length-append, elem, drop, ℤ, pos, negsuc, to_i32, ltb,
  ◌==◌, if◌then◌else◌, Bool-cases,
}
use lumen_rtc.Text.{Bytes, c_string}

-- `len + 1`, a size_t.
abbrev pub needed : Bytes → ℕ
needed value = (length value + 1) % 2 ^ 64

-- memcpy of the bytes to the start of the buffer, and the terminator behind them.
abbrev pub store : Bytes → Bytes → Bytes
store value buffer = value ++ 0 ∷ drop (length value + 1) buffer

-- The result and the buffer afterwards; the buffer is all the memory from its address on.
unfoldable pub copy_string : Bytes → Option Bytes → ℕ → ℤ × Option Bytes
copy_string value none len = (to_i32 (needed value), none)
copy_string value (some buffer) len =
    if len == 0
    then (to_i32 (needed value), some buffer)
    else if ltb len (needed value)
    then (negsuc 0, some buffer)
    else (to_i32 (length value), some (store value buffer))

c_string-append : (value rest : Bytes) → elem 0 value ≡ false → c_string (value ++ 0 ∷ rest) ≡ value
c_string-append [] rest h = refl
c_string-append (c ∷ cs) rest h = ground (arith, c_string-append cs rest)

small : (value : Bytes) → length value + 1 < 2 ^ 31 → needed value ≡ length value + 1
small value h = omega arith

-- The client's two calls, for a text of fewer than 2^31 - 1 bytes, none of them NUL: the first one
-- answers with a size; for any buffer, the second one, with that size, returns the text's length, and
-- the buffer then reads as the text.
pub copy_string_two_calls :
    (value buffer : Bytes) (size : ℕ)
    → length value + 1 < 2 ^ 31
    → elem 0 value ≡ false
    → (copy_string value none 0).0 ≡ pos size
    → (b : Bytes) × (copy_string value (some buffer) size ≡ (pos (length value), some b))
      × (c_string b ≡ value)
unfolding copy_string
copy_string_two_calls value buffer size h no_nul e =
    (store value buffer, ground (arith, small value h), c_string-append value _ no_nul)

-- A buffer that is not null fails to take the text, which -1 reports, exactly when its length is not
-- zero and is below the text's length and one; then it is left as it was.
pub copy_string_fails_iff :
    (value buffer : Bytes) (len : ℕ)
    → length value + 1 < 2 ^ 31
    → (copy_string value (some buffer) len ≡ (negsuc 0, some buffer))
      ↔ ((0 < len) × (len < length value + 1))
unfolding copy_string
copy_string_fails_iff value buffer len h = (
  (λ e. (ground (arith, small value h), ground (arith, small value h))),
  λ (p, q). ground (arith, small value h),
)

length-drop : (n : ℕ) (xs : Bytes) → length (drop n xs) ≡ length xs - n
length-drop zero xs = omega arith
length-drop (suc n) [] = omega arith
length-drop (suc n) (x ∷ xs) = omega (arith, length-drop n xs)

length-store :
    (value buffer : Bytes)
    → length value + 1 ≤ length buffer
    → length (store value buffer) ≡ length buffer
length-store value buffer h = omega (
  arith,
  length-append value (0 ∷ drop (length value + 1) buffer),
  length-drop (length value + 1) buffer,
)

drop_past :
    (value rest : Bytes) (n : ℕ)
    → length value ≤ n
    → drop n (value ++ rest) ≡ drop (n - length value) rest
drop_past [] rest n h = rw (sub-zero n)
drop_past (c ∷ cs) rest zero h = absurd (omega arith)
drop_past (c ∷ cs) rest (suc n) h =
    rw (suc-sub-suc n (length cs)) (drop_past cs rest n (omega arith))

drop-drop : (m k n : ℕ) (xs : Bytes) → m + k ≡ n → drop k (drop m xs) ≡ drop n xs
drop-drop zero k n xs e = let e' : k ≡ n = omega arith in rw e'
drop-drop (suc m) zero zero [] e = refl
drop-drop (suc m) zero (suc n) [] e = refl
drop-drop (suc m) (suc k) zero [] e = refl
drop-drop (suc m) (suc k) (suc n) [] e = refl
drop-drop (suc m) k zero (x ∷ xs) e = absurd (omega arith)
drop-drop (suc m) k (suc n) (x ∷ xs) e = drop-drop m k n xs (omega arith)

drop-store :
    (value buffer : Bytes) (n k : ℕ)
    → n ≡ length value + 1 + k
    → drop n (store value buffer) ≡ drop n buffer
drop-store value buffer n k e =
    let past : n - length value ≡ suc k = omega arith in
    drop_past value (0 ∷ drop (length value + 1) buffer) n (omega arith)
    ∙ rw past (drop-drop (length value + 1) k n buffer (omega arith))

-- Either the text with its terminator fits, and is stored, or the buffer is left as it is.
fits_cases :
    (value : Bytes) (len : ℕ)
    → length value + 1 < 2 ^ 64
    → ((buffer : Bytes) → (copy_string value (some buffer) len).1 ≡ some buffer)
      ⊎ ((length value + 1 ≤ len)
          × ((buffer : Bytes)
              → (copy_string value (some buffer) len).1 ≡ some (store value buffer)))
unfolding copy_string
fits_cases value len w = elim (Bool-cases (len == 0)) [
  | inl z ↦ inl (λ buffer. ground arith)
  | inr nz ↦ elim (Bool-cases (ltb len (needed value))) [
    | inl short ↦ inl (λ buffer. ground arith)
    | inr room ↦ inr (ground arith, λ buffer. ground arith)
  ]
]

-- Whatever length the client passes for a buffer that has it, the buffer keeps its extent, and no
-- byte at or behind that length is written.
pub copy_string_bounds :
    (value buffer : Bytes) (len : ℕ)
    → length value + 1 < 2 ^ 64
    → len ≤ length buffer
    → (b : Bytes) × ((copy_string value (some buffer) len).1 ≡ some b)
      × (length b ≡ length buffer)
      × (drop len b ≡ drop len buffer)
copy_string_bounds value buffer len w h = elim (fits_cases value len w) [
  | inl untouched ↦ (buffer, untouched buffer, refl, refl)
  | inr (room, stored) ↦ (
    store value buffer,
    stored buffer,
    length-store value buffer (omega arith),
    drop-store value buffer len (len - (length value + 1)) (omega arith),
  )
]
