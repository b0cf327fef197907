-- ===== src/Tracks/Entries.antt =====
-- The entries of a track's `sinks_`: their adapters are their own, and each calls its sink.
use lumen_rtc.Base.{
  ℕ, ◌+◌, ◌≤◌, ◌<◌, ◌≡◌, refl, ap, arith, Bool, true, false, List, [], ◌∷◌, ◌++◌, Option, none,
  some, if◌then◌else◌, ◌==◌, elem, map, count, update, remove,
}
use lumen_rtc.Tracks.{
  Entry, ClientSinks, adapters, adapter_of, erase_sink, remove_each, sink_on_data, adapter_on_data,
}

abbrev pub sinks_of : List Entry → List ℕ
sinks_of [] = []
sinks_of (e ∷ es) = e.sink ∷ sinks_of es

-- Each entry's adapter lives, is its own and calls its sink.
abbrev pub Sound : (ℕ → Option ℕ) → List Entry → Type 0
Sound f [] = Unit
Sound f (e ∷ es) = (f e.adapter ≡ some e.sink) × (count e.adapter (adapters es) ≡ 0) × Sound f es

pub update-Sound :
    (f : ℕ → Option ℕ) (a : ℕ) (v : Option ℕ) (es : List Entry)
    → count a (adapters es) ≡ 0
    → Sound f es
    → Sound (update f a v) es
update-Sound f a v [] c h = tt
update-Sound f a v (e ∷ es) c h =
    (ground (arith, c, h.0), h.1, update-Sound f a v es (ground (arith, c)) h.2)

pub adapters-append :
    (es : List Entry) (e : Entry) → adapters (es ++ e ∷ []) ≡ adapters es ++ e.adapter ∷ []
adapters-append [] e = refl
adapters-append (x ∷ xs) e = ap (λ t. x.adapter ∷ t) (adapters-append xs e)

pub sinks_of-append :
    (es : List Entry) (e : Entry) → sinks_of (es ++ e ∷ []) ≡ sinks_of es ++ e.sink ∷ []
sinks_of-append [] e = refl
sinks_of-append (x ∷ xs) e = ap (λ t. x.sink ∷ t) (sinks_of-append xs e)

count-append :
    (x : ℕ) (es : List Entry) (e : Entry)
    → count x (adapters (es ++ e ∷ [])) ≡ count x (adapters es) + count x (e.adapter ∷ [])
count-append x [] e = ground arith
count-append x (y ∷ ys) e = ground (arith, count-append x ys e)

pub append-Sound :
    (f : ℕ → Option ℕ) (es : List Entry) (e : Entry)
    → Sound f es
    → count e.adapter (adapters es) ≡ 0
    → f e.adapter ≡ some e.sink
    → Sound f (es ++ e ∷ [])
append-Sound f [] e s c h = (h, refl, tt)
append-Sound f (x ∷ xs) e s c h = (
  s.0,
  ground (arith, count-append x.adapter xs e, s.1, c),
  append-Sound f xs e s.2 (ground (arith, c)) h,
)

stands : (h a : ℕ) (es : List Entry) → adapter_of h es ≡ some a → 0 < count a (adapters es)
stands h a [] e = cc
stands h a (x ∷ xs) e = ground (arith, e, stands h a xs)

count-erase_sink :
    (h x : ℕ) (es : List Entry) → count x (adapters (erase_sink h es)) ≤ count x (adapters es)
count-erase_sink h x [] = omega arith
count-erase_sink h x (e ∷ es) = ground (arith, count-erase_sink h x es)

pub erase_sink-Sound :
    (f : ℕ → Option ℕ) (h : ℕ) (es : List Entry) → Sound f es → Sound f (erase_sink h es)
erase_sink-Sound f h [] s = tt
erase_sink-Sound f h (e ∷ es) s = go (e.sink == h) (erase_sink-Sound f h es s.2)
  where
    go : (b : Bool) → Sound f (erase_sink h es) → Sound f (if b then es else e ∷ erase_sink h es)
    go true ih = s.2
    go false ih = (s.0, omega (arith, s.1, count-erase_sink h e.adapter es), ih)

pub adapters-erase_sink :
    (f : ℕ → Option ℕ) (h a : ℕ) (es : List Entry)
    → Sound f es
    → adapter_of h es ≡ some a
    → (adapters (erase_sink h es) ≡ remove a (adapters es))
      × (count a (adapters (erase_sink h es)) ≡ 0)
adapters-erase_sink f h a [] s e = cc
adapters-erase_sink f h a (x ∷ xs) s e =
    go (x.sink == h) e (λ p. adapters-erase_sink f h a xs s.2 p)
  where
    Erased : List Entry → List ℕ → Type 0
    Erased es ls = (adapters es ≡ remove a ls) × (count a (adapters es) ≡ 0)

    go :
        (b : Bool)
        → (if b then some x.adapter else adapter_of h xs) ≡ some a
        → (adapter_of h xs ≡ some a → Erased (erase_sink h xs) (adapters xs))
        → Erased (if b then xs else x ∷ erase_sink h xs) (x.adapter ∷ adapters xs)
    go true e ih = let k : x.adapter ≡ a = cc in (ground (arith, k), ground (arith, k, s.1))
    go false e ih =
        let q = ih e in
        let apart : 0 < count a (adapters xs) = stands h a xs e in
        (ground (arith, q.0, s.1, apart), ground (arith, q.1, s.1, apart))

pub sinks_of-erase_sink :
    (h : ℕ) (es : List Entry) → sinks_of (erase_sink h es) ≡ remove h (sinks_of es)
sinks_of-erase_sink h [] = refl
sinks_of-erase_sink h (e ∷ es) = ground (arith, sinks_of-erase_sink h es)

pub found : (h a : ℕ) (es : List Entry) → adapter_of h es ≡ some a → elem h (sinks_of es) ≡ true
found h a [] e = cc
found h a (x ∷ xs) e = ground (arith, e, found h a xs)

pub missing : (h : ℕ) (es : List Entry) → adapter_of h es ≡ none → elem h (sinks_of es) ≡ false
missing h [] e = refl
missing h (x ∷ xs) e = ground (arith, e, missing h xs)

pub remove-missing : (h : ℕ) (hs : List ℕ) → elem h hs ≡ false → remove h hs ≡ hs
remove-missing h [] e = refl
remove-missing h (x ∷ xs) e = ground (arith, e, remove-missing h xs)

pub on_audio-Sound :
    (s : ClientSinks) (f : ℕ → Option ℕ) (es : List Entry)
    → Sound f es
    → map (λ a. adapter_on_data s (f a)) (adapters es) ≡ map (sink_on_data s) (sinks_of es)
on_audio-Sound s f [] h = refl
on_audio-Sound s f (e ∷ es) h =
    rw h.0 (ap (λ t. sink_on_data s e.sink ∷ t) (on_audio-Sound s f es h.2))

pub remove_each_lem : (es : List Entry) → remove_each es (adapters es) ≡ []
remove_each_lem [] = refl
remove_each_lem (e ∷ es) = ground (arith, remove_each_lem es)
