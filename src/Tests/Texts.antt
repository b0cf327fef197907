-- ===== src/Tests/Texts.antt =====
-- Examples on texts.
use lumen_rtc.Base.{◌≡◌, refl, [], ◌∷◌, some, arith, length, drop, pos}
use lumen_rtc.Text.{Bytes, c_string}
use lumen_rtc.Text.Copy.{copy_string, copy_string_two_calls, copy_string_bounds}

abbrev name : Bytes
name = b'm' ∷ b'i' ∷ b'c' ∷ []

abbrev buffer : Bytes
buffer = 1 ∷ 2 ∷ 3 ∷ 4 ∷ 5 ∷ []

copy_string_two_calls_example :
    (b : Bytes) × (copy_string name (some buffer) 4 ≡ (pos (length name), some b))
    × (c_string b ≡ name)
unfolding copy_string
copy_string_two_calls_example = copy_string_two_calls name buffer 4 (omega arith) refl refl

-- The buffer is too short, and stays as it is.
copy_string_bounds_example :
    (b : Bytes) × ((copy_string name (some buffer) 3).1 ≡ some b)
    × (length b ≡ 5)
    × (drop 3 b ≡ 4 ∷ 5 ∷ [])
copy_string_bounds_example = copy_string_bounds name buffer 3 (omega arith) (omega arith)

abbrev upper : Bytes
upper = b'M' ∷ b'I' ∷ b'C' ∷ []
