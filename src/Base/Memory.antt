-- ===== src/Base/Memory.antt =====
-- What the models use of the C++ heap: `operator new` gives an address at which no object lives, and
-- the objects' fields are functions of the address.
use Prim.Native.Nat.{ℕ, suc, ◌+◌, ◌-◌, ◌<◌}
use mathlib.Core.Path.{◌≡◌}
use mathlib.Core.List.{List, [], ◌∷◌}
use native.Mathlib.Omega.{arith}
use lumen_rtc.Base.Lists.{length}
use lumen_rtc.Base.Tests.{◌==◌, if◌then◌else◌}

-- How often an address stands in a list.
abbrev pub count : ℕ → List ℕ → ℕ
count a [] = 0
count a (x ∷ xs) = (if a == x then 1 else 0) + count a xs

-- The list without the first occurrence of the address.
abbrev pub remove : ℕ → List ℕ → List ℕ
remove a [] = []
remove a (x ∷ xs) = if a == x then xs else x ∷ remove a xs

pub count-remove :
    (a b : ℕ) (xs : List ℕ)
    → count b (remove a xs) ≡ (if b == a then count b xs - 1 else count b xs)
count-remove a b [] = ground arith
count-remove a b (x ∷ xs) = ground (arith, count-remove a b xs)

pub length-remove : (a : ℕ) (xs : List ℕ) → 0 < count a xs → length (remove a xs) + 1 ≡ length xs
length-remove a [] h = absurd (omega arith)
length-remove a (x ∷ xs) h = ground (arith, length-remove a xs)

-- `p->field = v`.
abbrev pub update {ℓ} : {A : Type ℓ} → (ℕ → A) → ℕ → A → ℕ → A
update f a v x = if x == a then v else f x

-- `operator new`: the address depends on what lives, and is none of it.
pub record Allocator : Type 0 where
  pub fresh : List ℕ → ℕ
  pub fresh_new : (live : List ℕ) → count (fresh live) live ≡ 0

-- An allocator: one past the sum of the live addresses.
abbrev pub sum : List ℕ → ℕ
sum [] = 0
sum (x ∷ xs) = x + sum xs

count_above : (a : ℕ) (xs : List ℕ) → sum xs < a → count a xs ≡ 0
count_above a [] h = omega arith
count_above a (x ∷ xs) h = ground (arith, count_above a xs)

pub bump_new : (xs : List ℕ) → count (suc (sum xs)) xs ≡ 0
bump_new xs = count_above _ xs (omega arith)

abbrev pub bump : Allocator
bump = record { fresh = λ xs. suc (sum xs); fresh_new = bump_new }
