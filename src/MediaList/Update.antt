-- ===== src/MediaList/Update.antt =====
-- What an update of the list of sources leaves.
use lumen_rtc.Base.{
  ℕ, ◌+◌, ◌≡◌, refl, sym, ap, ◌∙◌, Bool, true, false, List, [], ◌∷◌, ◌++◌, some, arith, ◌==◌, map,
  append_assoc, append-nil, Bool-cases, Option-cases, inl, inr, Allocator, pos, length, length-map,
}
use lumen_rtc.MediaList.{
  Source, NewSource, MediaList, Merged, find, create, keep, visit, merge, same_text,
  retrieved_or_fail, reload, new_ids, name_screens, update_from, update_source_list,
}
use lumen_rtc.Capturer.{DesktopType}

abbrev pub ids : List Source → List ℕ
ids = map (λ (s : Source). s.id)

pub find-id : (id : ℕ) (ss : List Source) {s : Source} → find id ss ≡ some s → s.id ≡ id
unfolding find
find-id id [] h = cc
find-id id (x ∷ xs) {s} h = elim (Bool-cases (x.id == id)) [
  | inl hit ↦ let e : some x ≡ some s = rw hit at h in ground (arith, e)
  | inr miss ↦ find-id id xs (rw miss at h)
]

ids-append : (xs ys : List Source) → ids (xs ++ ys) ≡ ids xs ++ ids ys
ids-append [] ys = refl
ids-append (x ∷ xs) ys = rw (ids-append xs ys)

module _ (heap : Allocator) (old : List Source) (get_thumbnail observed : Bool) where
  visit-ids :
      (n : NewSource) (m : Merged)
      → ids (visit heap old get_thumbnail observed (find n.id old) n m).0.reordered
        ≡ ids m.reordered ++ n.id ∷ []
  unfolding visit create keep
  visit-ids n m = elim (Option-cases (find n.id old)) [
    | inl e ↦
        rw (e, visit)
          (ids-append m.reordered (record { address = heap.fresh m.allocated; id = n.id } ∷ []))
    | inr (s, e) ↦
        rw (e, visit)
          (elim (Bool-cases (same_text (m.title s.address) n.title)) [
            | inl same ↦ rw same (
                ids-append m.reordered (s ∷ [])
                ∙ ap (λ i. ids m.reordered ++ i ∷ []) (find-id n.id old e))
            | inr other ↦ rw other (
                ids-append m.reordered (s ∷ [])
                ∙ ap (λ i. ids m.reordered ++ i ∷ []) (find-id n.id old e))
          ])
  ]

  merge-ids :
      (ns : List NewSource) (m : Merged)
      → ids (merge heap old get_thumbnail observed ns m).0.reordered ≡ ids m.reordered ++ new_ids ns
  unfolding merge
  merge-ids [] m = sym (append-nil _)
  merge-ids (n ∷ ns) m =
      merge-ids ns _
      ∙ ap (λ i. i ++ new_ids ns) (visit-ids n m)
      ∙ append_assoc (ids m.reordered) (n.id ∷ []) (new_ids ns)

name_screens-ids :
    (type : DesktopType) (i : ℕ) (ns : List NewSource)
    → new_ids (name_screens type i ns) ≡ new_ids ns
unfolding name_screens
name_screens-ids type i [] = refl
name_screens-ids type i (n ∷ ns) = ground (arith, name_screens-ids type (i + 1) ns)

pub update_from-ids :
    (heap : Allocator) (get_thumbnail : Bool) (news : List NewSource) (l : MediaList)
    → let (r, l', events) = update_from heap get_thumbnail news l in
      (ids l'.sources ≡ new_ids news) × (r ≡ pos (length news))
unfolding update_from
update_from-ids heap get_thumbnail news l = (same, ap pos counted)
  where
    start : Merged
    start = record { reordered = []; title = l.title; allocated = l.allocated }

    left : List Source
    left =
        (merge heap l.sources get_thumbnail l.has_observer (name_screens l.type 0 news)
          start).0.reordered

    same : ids left ≡ new_ids news
    same =
        merge-ids heap l.sources get_thumbnail l.has_observer (name_screens l.type 0 news) start
        ∙ name_screens-ids l.type 0 news

    counted : length left ≡ length news
    counted =
        sym (length-map (λ (s : Source). s.id) left)
        ∙ ap length same
        ∙ length-map (λ (n : NewSource). n.id) news

-- Whatever the list held before, an update for which the platform lists its sources leaves a list of
-- sources with exactly the platform's identifiers, in the platform's order, and answers their number.
pub update-ids :
    (heap : Allocator) (force_reload get_thumbnail : Bool) (news : List NewSource) (l : MediaList)
    → l.has_capturer ≡ true
    → let (r, l', events) = update_source_list heap force_reload get_thumbnail (some news) l in
      (ids l'.sources ≡ new_ids news) × (r ≡ pos (length news))
unfolding update_source_list reload retrieved_or_fail
update-ids heap true get_thumbnail news l h =
    rw h (update_from-ids heap get_thumbnail news (record l { sources = [] }))
update-ids heap false get_thumbnail news l h = rw h (update_from-ids heap get_thumbnail news l)
