-- ===== src/Picture/Planes.antt =====
-- The planes that RTCVideoFrame::Create finds in a buffer.
use lumen_rtc.Base.{
  ℕ, ◌+◌, ◌*◌, ◌/◌, ◌%◌, ◌<◌, ◌≡◌, ◌↔◌, ◌⊎◌, inl, inr, subst, arith, Bool-cases, ◌==◌,
}
use lumen_rtc.Picture.{Layout, create}

-- How many samples a chroma plane has for `n` of the luma plane's.
abbrev pub chroma : ℕ → ℕ
chroma n = (n + 1) / 2

-- The three planes of a picture follow one another, and end where the buffer of an I420 picture ends.
abbrev pub Tiles : ℕ → ℕ → Layout → Type 0
Tiles width height l =
    (l.data_u ≡ l.data_y + l.stride_y * height)
    × (l.data_v ≡ l.data_u + l.stride_uv * chroma height)
    × (l.data_v + l.stride_uv * chroma height ≡ width * height * 3 / 2)

half : (n : ℕ) → (n * 2 + 1) / 2 ≡ n
half n = omega arith

half_up : (n : ℕ) → (n * 2 + 1 + 1) / 2 ≡ n + 1
half_up n = omega arith

mul_double : (a b : ℕ) → a * (b * 2) ≡ (a * b) * 2
mul_double a b = grind arith

mul_odd : (a b : ℕ) → a * (b * 2 + 1) ≡ (a * b) * 2 + a
mul_odd a b = grind arith

double_double : (a b : ℕ) → a * 2 * (b * 2) ≡ (a * b) * 4
double_double a b = grind arith

odd_double : (a b : ℕ) → (a * 2 + 1) * (b * 2) ≡ (a * b) * 4 + b * 2
odd_double a b = grind arith

up_double : (a b : ℕ) → (a + 1) * (b * 2) ≡ (a * b) * 2 + b * 2
up_double a b = grind arith

up_mul : (a b : ℕ) → (a + 1) * b ≡ a * b + b
up_mul a b = grind arith

mul_up : (a b : ℕ) → a * (b + 1) ≡ a * b + a
mul_up a b = grind arith

even_even : (a b : ℕ) → Tiles (a * 2) (b * 2) (create (a * 2) (b * 2))
unfolding create
even_even a b = rw (half a, half b) (omega (arith, mul_double a b, double_double a b))

odd_height : (w b : ℕ) → 0 < w → Tiles w (b * 2 + 1) (create w (b * 2 + 1)) → ⊥
unfolding create
odd_height w b p t = go ((w + 1) / 2) (omega arith) t.1
  where
    go :
        (s : ℕ)
        → 0 < s
        → w * (b * 2 + 1) + s * (b * 2 + 1) / 2 ≡ w * (b * 2 + 1) + s * ((b * 2 + 1 + 1) / 2)
        → ⊥
    go s h e = let e' = rw (half_up b) at e in omega (arith, mul_odd s b, mul_up s b, e')

odd_width : (a b : ℕ) → 0 < b → Tiles (a * 2 + 1) (b * 2) (create (a * 2 + 1) (b * 2)) → ⊥
unfolding create
odd_width a b p t =
    let e = rw (half_up a, half b) at t.2 in
    omega (arith, odd_double a b, up_double a b, up_mul a b, e)

parity : (n : ℕ) → (n ≡ n / 2 * 2) ⊎ (n ≡ n / 2 * 2 + 1)
parity n = elim (Bool-cases (n % 2 == 0)) [
  | inl e ↦ inl (ground arith)
  | inr e ↦ inr (ground arith)
]

-- For a picture that is not empty, the planes that RTCVideoFrame::Create finds follow one another and end
-- where an I420 picture's buffer ends exactly when its width and its height are even.
pub create-Tiles_iff :
    (w h : ℕ) → 0 < w → 0 < h → Tiles w h (create w h) ↔ ((w % 2 ≡ 0) × (h % 2 ≡ 0))
create-Tiles_iff w h p q = (forth (parity w) (parity h), back)
  where
    forth :
        (w ≡ w / 2 * 2) ⊎ (w ≡ w / 2 * 2 + 1)
        → (h ≡ h / 2 * 2) ⊎ (h ≡ h / 2 * 2 + 1)
        → Tiles w h (create w h)
        → (w % 2 ≡ 0) × (h % 2 ≡ 0)
    forth x (inr f) t = absurd (odd_height w (h / 2) p (subst (λ k. Tiles w k (create w k)) f t))
    forth (inl e) (inl f) t = omega arith
    forth (inr e) (inl f) t = absurd (
        odd_width (w / 2) (h / 2) (omega arith) (
          subst (λ k. Tiles k (h / 2 * 2) (create k (h / 2 * 2))) e
            (subst (λ k. Tiles w k (create w k)) f t)))

    back : (w % 2 ≡ 0) × (h % 2 ≡ 0) → Tiles w h (create w h)
    back (e, f) =
        subst (λ k. Tiles k h (create k h)) (let r : w / 2 * 2 ≡ w = omega arith in r)
          (subst (λ k. Tiles (w / 2 * 2) k (create (w / 2 * 2) k))
            (let r : h / 2 * 2 ≡ h = omega arith in r) (even_even (w / 2) (h / 2)))
