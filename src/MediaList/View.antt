-- ===== src/MediaList/View.antt =====
-- What the observer of a list of sources can tell from its calls.
use lumen_rtc.Base.{
  ℕ, ◌<◌, ◌≡◌, ◌≢◌, refl, sym, ap, ◌∙◌, Bool, true, false, not, ◌&&◌, ◌||◌, List, [], ◌∷◌, ◌++◌,
  none, some, arith, ◌==◌, elem, count, Distinct, Bool-cases, Option-cases, inl, inr, Allocator,
}
use lumen_rtc.MediaList.{
  Source, NewSource, Merged, Event, added, removed, name_changed, post_thumbnail, find, create,
  keep, visit, merge, same_text, new_ids, remove_all, remove_gone, post_all,
}
use lumen_rtc.MediaList.Update.{ids, find-id}

-- The same object.
abbrev pub same : Source → Source → Bool
same s x = s.address == x.address && s.id == x.id

abbrev pub has : Source → List Source → Bool
has s [] = false
has s (x ∷ xs) = same s x || has s xs

-- A client that keeps the sources that were added and not removed since: whether a source is among
-- them after the events, if `b` says so before.
abbrev pub replay : Source → List Event → Bool → Bool
replay s [] b = b
replay s (added x ∷ es) b = replay s es (same s x || b)
replay s (removed x ∷ es) b = replay s es (not (same s x) && b)
replay s (name_changed x ∷ es) b = replay s es b
replay s (post_thumbnail x notify ∷ es) b = replay s es b

pub replay-append :
    (s : Source) (xs ys : List Event) (b : Bool)
    → replay s (xs ++ ys) b ≡ replay s ys (replay s xs b)
replay-append s [] ys b = refl
replay-append s (added x ∷ es) ys b = replay-append s es ys _
replay-append s (removed x ∷ es) ys b = replay-append s es ys _
replay-append s (name_changed x ∷ es) ys b = replay-append s es ys _
replay-append s (post_thumbnail x notify ∷ es) ys b = replay-append s es ys _

pub replay-remove_all :
    (s : Source) (ss : List Source) (b : Bool)
    → replay s (remove_all true ss) b ≡ (b && not (has s ss))
unfolding remove_all
replay-remove_all s [] b = ground arith
replay-remove_all s (x ∷ xs) b = ground (arith, replay-remove_all s xs (not (same s x) && b))

same_id : (s x : Source) → same s x ≡ true → s.id ≡ x.id
same_id s x h = ground arith

same-elem : (s x : Source) (a : List ℕ) → same s x ≡ true → elem s.id a ≡ elem x.id a
same-elem s x a h = ap (λ i. elem i a) (same_id s x h)

pub replay-remove_gone :
    (s : Source) (gone : List ℕ) (ss : List Source) (b : Bool)
    → replay s (remove_gone true gone ss) b ≡ (b && not (has s ss && not (elem s.id gone)))
unfolding remove_gone
replay-remove_gone s gone [] b = ground arith
replay-remove_gone s gone (x ∷ xs) b = elim (Bool-cases (elem x.id gone)) [
  | inl stays ↦ rw stays (ground (arith, replay-remove_gone s gone xs b, same-elem s x gone, stays))
  | inr goes ↦
      rw goes (
        ground
          (arith, replay-remove_gone s gone xs (not (same s x) && b), same-elem s x gone, goes))
]

pub replay-post_all : (s : Source) (ss : List Source) (b : Bool) → replay s (post_all ss) b ≡ b
unfolding post_all
replay-post_all s [] b = refl
replay-post_all s (x ∷ xs) b = replay-post_all s xs b

has-append : (s : Source) (xs ys : List Source) → has s (xs ++ ys) ≡ (has s xs || has s ys)
has-append s [] ys = refl
has-append s (x ∷ xs) ys = ground (arith, has-append s xs ys)

same_trans : (s x y : Source) → same s x ≡ true → same x y ≡ same s y
same_trans s x y h = ground arith

has-same : (s x : Source) (ss : List Source) → same s x ≡ true → has x ss ≡ true → has s ss ≡ true
has-same s x [] e h = h
has-same s x (y ∷ ys) e h = ground (arith, has-same s x ys, same_trans s x y)

find-has : (id : ℕ) (ss : List Source) (x : Source) → find id ss ≡ some x → has x ss ≡ true
unfolding find
find-has id [] x h = cc
find-has id (y ∷ ys) x h = elim (Bool-cases (y.id == id)) [
  | inl hit ↦ let e : some y ≡ some x = rw hit at h in ground (arith, e)
  | inr miss ↦ let e : find id ys ≡ some x = rw miss at h in ground (arith, find-has id ys x e)
]

find-none :
    (s : Source) (id : ℕ) (ss : List Source) → find id ss ≡ none → has s ss ≡ true → s.id ≢ id
unfolding find
find-none s id [] h m = cc
find-none s id (y ∷ ys) h m = elim (Bool-cases (y.id == id)) [
  | inl hit ↦ let e : some y ≡ none = rw hit at h in cc
  | inr miss ↦ let e : find id ys ≡ none = rw miss at h in ground (arith, find-none s id ys e)
]

has-elem : (s : Source) (ss : List Source) → has s ss ≡ true → elem s.id (ids ss) ≡ true
has-elem s [] h = cc
has-elem s (y ∷ ys) h = ground (arith, has-elem s ys)

find_self :
    (s x : Source) (ss : List Source)
    → Distinct (ids ss)
    → has s ss ≡ true
    → find s.id ss ≡ some x
    → same s x ≡ true
unfolding find
find_self s x [] d m h = cc
find_self s x (y ∷ ys) d m h = elim (Bool-cases (y.id == s.id)) [
  | inl hit ↦ let e : some y ≡ some x = rw hit at h in ground (arith, e, d.0, has-elem s ys)
  | inr miss ↦
      let e : find s.id ys ≡ some x = rw miss at h in ground (arith, d.1, find_self s x ys, e)
]

module _ (heap : Allocator) (old : List Source) (get_thumbnail : Bool) where
  abbrev visited : NewSource → Merged → Merged × List Event
  visited n m = visit heap old get_thumbnail true (find n.id old) n m

  keep_lem :
      (s x : Source) (n : NewSource) (m : Merged) (b : Bool)
      → let (m1, events) = keep heap old get_thumbnail true x n m in
        (replay s events b ≡ b)
        × (m1.reordered ≡ m.reordered ++ x ∷ [])
        × (m1.allocated ≡ m.allocated)
  unfolding keep
  keep_lem s x n m b = elim (Bool-cases (same_text (m.title x.address) n.title)) [
    | inl kept ↦ rw kept (refl, refl, refl)
    | inr renamed ↦ rw renamed (refl, refl, refl)
  ]

  fresh-other :
      (s : Source) (id : ℕ) (a : List ℕ)
      → 0 < count s.address a
      → same s (record { address = heap.fresh a; id = id }) ≡ false
  fresh-other s id a h = ground (arith, heap.fresh_new a)

  same-find :
      (s x : Source) (id : ℕ)
      → Distinct (ids old)
      → has s old ≡ true
      → find id old ≡ some x
      → same s x ≡ (s.id == id)
  same-find s x id d h e = elim (Bool-cases (s.id == id)) [
    | inl hit ↦
        let i : s.id ≡ id = ground arith in
        find_self s x old d h (ap (λ j. find j old) i ∙ e) ∙ sym hit
    | inr miss ↦ ground (arith, find-id id old e)
  ]

  -- A source of the list, at a new source: no call is about it, and it stands in the new order once its
  -- identifier was listed.
  abbrev Kept : Source → NewSource → Merged → Merged × List Event → Type 0
  Kept s n m (m1, events) =
      ((b : Bool) → replay s events b ≡ b)
      × (has s m1.reordered ≡ (has s m.reordered || s.id == n.id))
      × (0 < count s.address m1.allocated)

  visit-Kept :
      (s : Source) (n : NewSource) (m : Merged)
      → Distinct (ids old)
      → has s old ≡ true
      → 0 < count s.address m.allocated
      → Kept s n m (visited n m)
  unfolding visit create keep
  visit-Kept s n m d h a = elim (Option-cases (find n.id old)) [
    | inl e ↦
        let other = fresh-other s n.id m.allocated a in
        rw (e, visit)
          (
            (λ b. rw other refl),
            has-append s m.reordered _ ∙ ground (arith, other, find-none s n.id old e h),
            omega (arith, a),
          )
    | inr (x, e) ↦
        rw (e, visit)
          (
            (λ b. (keep_lem s x n m b).0),
            ap (has s) (keep_lem s x n m true).1
                ∙ has-append s m.reordered (x ∷ [])
                ∙ ground (arith, same-find s x n.id d h e),
            rw (keep_lem s x n m true).2 a,
          )
  ]

  pub merge-Kept :
      (s : Source) (ns : List NewSource) (m : Merged)
      → Distinct (ids old)
      → has s old ≡ true
      → 0 < count s.address m.allocated
      → let (m1, events) = merge heap old get_thumbnail true ns m in
        ((b : Bool) → replay s events b ≡ b)
        × (has s m1.reordered ≡ (has s m.reordered || elem s.id (new_ids ns)))
        × (0 < count s.address m1.allocated)
  unfolding merge
  merge-Kept s [] m d h a = ((λ b. refl), ground arith, a)
  merge-Kept s (n ∷ ns) m d h a =
      let k = visit-Kept s n m d h a in
      let r = merge-Kept s ns (visited n m).0 d h k.2 in
      (
        (λ b.
            replay-append s (visited n m).1 (merge heap old get_thumbnail true ns (visited n m).0).1
              b
            ∙ ap (replay s (merge heap old get_thumbnail true ns (visited n m).0).1) (k.0 b)
            ∙ r.0 b),
        ground (arith, k.1, r.1),
        r.2,
      )

  -- A source that is not of the list: the calls tell exactly whether it stands in the new order.
  visit_other :
      (s : Source) (n : NewSource) (m : Merged)
      → has s old ≡ false
      → replay s (visited n m).1 (has s m.reordered) ≡ has s (visited n m).0.reordered
  unfolding visit create
  visit_other s n m h = elim (Option-cases (find n.id old)) [
    | inl e ↦ rw (e, visit) (sym (has-append s m.reordered _ ∙ ground arith))
    | inr (x, e) ↦
        rw (e, visit)
          ((keep_lem s x n m (has s m.reordered)).0
            ∙ sym (
                ap (has s) (keep_lem s x n m true).1
                ∙ has-append s m.reordered (x ∷ [])
                ∙ ground (arith, find-has n.id old x e, has-same s x old)))
  ]

  pub merge_other :
      (s : Source) (ns : List NewSource) (m : Merged)
      → has s old ≡ false
      → let (m1, events) = merge heap old get_thumbnail true ns m in
        replay s events (has s m.reordered) ≡ has s m1.reordered
  unfolding merge
  merge_other s [] m h = refl
  merge_other s (n ∷ ns) m h =
      replay-append s (visited n m).1 (merge heap old get_thumbnail true ns (visited n m).0).1
        (has s m.reordered)
      ∙ ap (replay s (merge heap old get_thumbnail true ns (visited n m).0).1) (visit_other s n m h)
      ∙ merge_other s ns (visited n m).0 h

  abbrev Allocated : Source → Merged → Type 0
  Allocated s m = has s m.reordered ≡ true → 0 < count s.address m.allocated

  visit-Allocated :
      (s : Source) (n : NewSource) (m : Merged)
      → has s old ≡ false
      → Allocated s m
      → Allocated s (visited n m).0
  unfolding visit create
  visit-Allocated s n m h a = elim (Option-cases (find n.id old)) [
    | inl e ↦
        rw (e, visit)
          (λ p. ground (
            arith,
            a,
            has-append s m.reordered (record { address = heap.fresh m.allocated; id = n.id } ∷ [])
                ∙ refl,
            p,
          ))
    | inr (x, e) ↦
        rw (e, visit)
          (λ p.
            let k = keep_lem s x n m true in
            let q : has s (m.reordered ++ x ∷ []) ≡ true = sym (ap (has s) k.1) ∙ p in
            rw k.2 (
              a (
                ground (
                  arith,
                  q,
                  has-append s m.reordered (x ∷ []),
                  find-has n.id old x e,
                  has-same s x old,
                ))))
  ]

  pub merge-Allocated :
      (s : Source) (ns : List NewSource) (m : Merged)
      → has s old ≡ false
      → Allocated s m
      → Allocated s (merge heap old get_thumbnail true ns m).0
  unfolding merge
  merge-Allocated s [] m h a = a
  merge-Allocated s (n ∷ ns) m h a =
      merge-Allocated s ns (visited n m).0 h (visit-Allocated s n m h a)
