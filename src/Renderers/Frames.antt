-- ===== src/Renderers/Frames.antt =====
-- Which renderers a frame reaches, over any order of steps.
use lumen_rtc.Base.{
  ℕ, ◌≡◌, ◌≢◌, refl, arith, false, not, ◌&&◌, ◌||◌, List, [], ◌∷◌, ◌++◌, some, ◌==◌, elem,
}
use lumen_rtc.Renderers.{Adapter, without, add_renderer, remove_renderer, take_renderers, call_next}

pub data Step (a : Adapter) : Adapter → Type 0 where
  adds : (r : ℕ) → Step a (add_renderer r a)
  removes : (r : ℕ) → Step a (remove_renderer r a)
  takes : Step a (take_renderers a)
  calls : Step a (call_next a).0

-- The step does not add the renderer.
abbrev pub AddsOther : ℕ → {a b : Adapter} → Step a b → Type 0
AddsOther r (adds x) = (r == x) ≡ false
AddsOther r s = Unit

-- Any number of steps, none of which adds the renderer.
pub data Run (r : ℕ) (a : Adapter) : Adapter → Type 0 where
  rest : Run r a a
  then_step : {b c : Adapter} → Run r a b → (s : Step b c) → AddsOther r s → Run r a c

elem-append : (r : ℕ) (xs ys : List ℕ) → elem r (xs ++ ys) ≡ (elem r xs || elem r ys)
elem-append r [] ys = refl
elem-append r (x ∷ xs) ys = ground (arith, elem-append r xs ys)

elem-without : (r x : ℕ) (xs : List ℕ) → elem r (without x xs) ≡ (elem r xs && not (r == x))
elem-without r x [] = refl
elem-without r x (y ∷ ys) = ground (arith, elem-without r x ys)

-- The renderer is not registered, and no call of it is under way.
abbrev pub Gone : ℕ → Adapter → Type 0
Gone r a = (elem r a.renderers ≡ false) × (elem r a.under_way ≡ false)

call_next-Gone : (r : ℕ) (a : Adapter) → Gone r a → Gone r (call_next a).0
unfolding call_next
call_next-Gone r a g = go a.under_way g.1
  where
    go : (us : List ℕ) → elem r us ≡ false → Gone r (call_next (record a { under_way = us })).0
    go [] h = (g.0, h)
    go (u ∷ us) h = (g.0, ground (arith, h))

step-Gone : {a b : Adapter} (r : ℕ) (s : Step a b) → AddsOther r s → Gone r a → Gone r b
unfolding add_renderer remove_renderer take_renderers
step-Gone {a} r (adds x) h g = (ground (arith, elem-append r a.renderers (x ∷ []), h, g.0), g.1)
step-Gone {a} r (removes x) h g = (ground (arith, elem-without r x a.renderers, g.0), g.1)
step-Gone {a} r takes h g = (g.0, ground (arith, elem-append r a.under_way a.renderers, g.0, g.1))
step-Gone {a} r calls h g = call_next-Gone r a g

run-Gone : (r : ℕ) {a b : Adapter} → Run r a b → Gone r a → Gone r b
run-Gone r rest g = g
run-Gone r (then_step s t h) g = step-Gone r t h (run-Gone r s g)

not_called : (r : ℕ) (a : Adapter) → Gone r a → (call_next a).1 ≡ some r → ⊥
unfolding call_next
not_called r a g = go a.under_way g.1
  where
    go :
        (us : List ℕ) → elem r us ≡ false → (call_next (record a { under_way = us })).1 ≡ some r → ⊥
    go [] h e = cc
    go (u ∷ us) h e = let k : u ≡ r = cc in absurd (ground (arith, h, k))

-- A renderer that is removed while OnFrame has no calls of it under way is not called again, over any steps
-- that do not add it.
pub removed_renderer_rests :
    (r : ℕ) (a : Adapter) {b : Adapter}
    → elem r a.under_way ≡ false
    → Run r (remove_renderer r a) b
    → (call_next b).1 ≢ some r
unfolding remove_renderer
removed_renderer_rests r a h s =
    not_called r _ (run-Gone r s (ground (arith, elem-without r r a.renderers), h))

-- If OnFrame has taken the renderers already, it calls one that RemoveRenderer has removed: so it is with the
-- first of them, where no other call is under way.
pub removed_renderer_called :
    (r : ℕ) (rs : List ℕ)
    → (call_next
        (remove_renderer r (take_renderers (record { renderers = r ∷ rs; under_way = [] })))).1
      ≡ some r
unfolding call_next remove_renderer take_renderers
removed_renderer_called r rs = refl
