-- ===== src/Connection/Streams.antt =====
-- The remote streams against what the observer is told of them.
use lumen_rtc.Base.{
  ℕ, ◌≡◌, refl, Bool, true, false, List, [], ◌∷◌, ◌++◌, some, elem, remove, Distinct, ap, ◌∙◌,
  arith, if◌then◌else◌, ◌==◌,
}
use lumen_rtc.Connection.Bridge.{
  Remote, Event, asks, tells_stream, tells_no_stream, tells_channel, tell_removed, find_remote,
  erase_remote,
}
use lumen_rtc.Connection.Life.{wrappers}

pub elem-append :
    (a : ℕ) (xs : List ℕ) (x : ℕ)
    → elem a xs ≡ false
    → (a == x) ≡ false
    → elem a (xs ++ x ∷ []) ≡ false
elem-append a [] x h k = ground arith
elem-append a (y ∷ ys) x h k = ground (arith, elem-append a ys x)

pub Distinct-append :
    (xs : List ℕ) (x : ℕ) → Distinct xs → elem x xs ≡ false → Distinct (xs ++ x ∷ [])
Distinct-append [] x d h = (refl, tt)
Distinct-append (y ∷ ys) x d h =
    (elem-append y ys x d.0 (ground arith), Distinct-append ys x d.1 (ground arith))

pub wrappers-append :
    (rs : List Remote) (r : Remote) → wrappers (rs ++ r ∷ []) ≡ wrappers rs ++ r.wrapper ∷ []
wrappers-append [] r = refl
wrappers-append (x ∷ xs) r = ap (◌∷◌ x.wrapper) (wrappers-append xs r)

-- What is found is in the list.
pub find-elem :
    (stream : ℕ) (rs : List Remote) (r : Remote)
    → find_remote stream rs ≡ some r
    → elem r.wrapper (wrappers rs) ≡ true
unfolding find_remote
find-elem stream [] r h = cc
find-elem stream (x ∷ xs) r h = ground (arith, find-elem stream xs r)

pub erase-wrappers :
    (stream : ℕ) (rs : List Remote) (r : Remote)
    → Distinct (wrappers rs)
    → find_remote stream rs ≡ some r
    → remove r.wrapper (wrappers rs) ≡ wrappers (erase_remote stream rs)
unfolding find_remote erase_remote
erase-wrappers stream [] r d h = cc
erase-wrappers stream (x ∷ xs) r d h =
    ground (arith, erase-wrappers stream xs r, find-elem stream xs r)

pub elem-erase :
    (a stream : ℕ) (rs : List Remote)
    → elem a (wrappers rs) ≡ false
    → elem a (wrappers (erase_remote stream rs)) ≡ false
unfolding erase_remote
elem-erase a stream [] h = refl
elem-erase a stream (x ∷ xs) h = ground (arith, elem-erase a stream xs)

if_Distinct :
    (b : Bool) (xs ys : List Remote)
    → Distinct (wrappers xs)
    → Distinct (wrappers ys)
    → Distinct (wrappers (if b then xs else ys))
if_Distinct true xs ys h k = h
if_Distinct false xs ys h k = k

pub Distinct-erase :
    (stream : ℕ) (rs : List Remote)
    → Distinct (wrappers rs)
    → Distinct (wrappers (erase_remote stream rs))
unfolding erase_remote
Distinct-erase stream [] d = d
Distinct-erase stream (x ∷ xs) d =
    let tail = Distinct-erase stream xs d.1 in
    if_Distinct (x.stream == stream) xs (x ∷ erase_remote stream xs) d.1
      (elem-erase x.wrapper stream xs d.0, tail)

remove_head : (a : ℕ) (xs : List ℕ) → remove a (a ∷ xs) ≡ xs
remove_head a xs = ground arith

module _ {I : Type 0} where
  -- What an observer that believes what it is told takes the remote streams to be.
  abbrev pub replay : List (Event I) → List ℕ → List ℕ
  replay [] ws = ws
  replay (asks q ∷ es) ws = replay es ws
  replay (tells_stream w ∷ es) ws = replay es (ws ++ w ∷ [])
  replay (tells_no_stream w ∷ es) ws = replay es (remove w ws)
  replay (tells_channel w ∷ es) ws = replay es ws

  pub replay-append :
      (es fs : List (Event I)) (ws : List ℕ) → replay (es ++ fs) ws ≡ replay fs (replay es ws)
  replay-append [] fs ws = refl
  replay-append (asks q ∷ es) fs ws = replay-append es fs ws
  replay-append (tells_stream w ∷ es) fs ws = replay-append es fs _
  replay-append (tells_no_stream w ∷ es) fs ws = replay-append es fs _
  replay-append (tells_channel w ∷ es) fs ws = replay-append es fs ws

module _ (I : Type 0) where
  pub replay-tell_removed :
      (o : ℕ) (rs : List Remote) → replay {I = I} (tell_removed (some o) rs) (wrappers rs) ≡ []
  replay-tell_removed o [] = refl
  replay-tell_removed o (r ∷ rs) =
      ap (replay {I = I} (tell_removed (some o) rs)) (remove_head r.wrapper (wrappers rs))
      ∙ replay-tell_removed o rs
