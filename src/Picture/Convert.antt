-- ===== src/Picture/Convert.antt =====
-- What ConvertToARGB writes to a client's buffer.
use lumen_rtc.Base.{
  ℕ, ◌*◌, ◌<◌, ◌≤◌, ◌/◌, inl, inr, Bool-cases, ◌≡◌, ◌↔◌, ap, none, some, arith, ltb,
}
use lumen_rtc.Picture.{Written, convert_to_argb}

mul_one : (n : ℕ) → 1 * n ≡ n
mul_one n = omega arith

four : (w : ℕ) → w * 32 / 8 ≡ w * 4
four w = omega arith

swap : (w h : ℕ) → w * 4 * h ≡ w * h * 4
swap w h = grind arith

mul_lt : (h s r : ℕ) → 0 < h → s < r → s * h < r * h
mul_lt h s r p q = grind arith

le_mul : (h s r : ℕ) → r ≤ s → r * h ≤ s * h
le_mul h s r p = grind arith

-- ConvertToARGB of a known format to a picture of two rows or more writes as many bytes as it answers, each
-- row where the client's stride has it exactly when the stride is four times the width, and more than the
-- client's rows have exactly when the stride is less.
pub convert_to_argb_lem :
    (format stride width height : ℕ)
    → format < 4
    → 1 < height
    → (out : Written) × ((convert_to_argb format stride width height).0 ≡ some out)
      × (out.row_stride * out.rows ≡ (convert_to_argb format stride width height).1)
      × (((i : ℕ) → i < height → i * out.row_stride ≡ i * stride) ↔ (stride ≡ width * 4))
      × ((stride * height < (convert_to_argb format stride width height).1) ↔ (stride < width * 4))
unfolding convert_to_argb
convert_to_argb_lem format stride width height f h = (
  out,
  ground arith,
  rw (four width) (swap width height),
  (
    (λ rows. omega (arith, four width, mul_one stride, mul_one (width * 32 / 8), rows 1 h)),
    λ e i l. ap (λ k. i * k) (omega (arith, e, four width)),
  ),
  (
    (λ l. elim (Bool-cases (ltb stride (width * 4))) [
      | inl e ↦ ground (arith, e)
      | inr e ↦ absurd (
          omega (arith, l, le_mul height stride (width * 4) (ground (arith, e)), swap width height))
    ]),
    λ l. omega (arith, mul_lt height stride (width * 4) (omega (arith, h)) l, swap width height),
  ),
)
  where
    out : Written
    out = record { format = format; row_stride = width * 32 / 8; columns = width; rows = height }

-- Of an unknown format it writes nothing, and answers the same number.
pub convert_to_argb_unknown :
    (format stride width height : ℕ)
    → 4 ≤ format
    → convert_to_argb format stride width height ≡ (none, width * height * 4)
unfolding convert_to_argb
convert_to_argb_unknown format stride width height f = ground arith
