-- ===== src/MediaList/Run.antt =====
-- A list of sources and its observer over any number of updates.
use lumen_rtc.Base.{
  ℕ, ◌<◌, ◌≡◌, refl, ap, ◌∙◌, Bool, true, false, not, ◌&&◌, List, [], ◌++◌, Option, none, some,
  arith, if◌then◌else◌, elem, count, Distinct, Bool-cases, inl, inr, Allocator, ℤ, negsuc,
}
use lumen_rtc.Capturer.{DesktopType}
use lumen_rtc.Text.{Bytes}
use lumen_rtc.MediaList.{
  Source, NewSource, MediaList, Merged, Event, merge, name_screens, new_ids, remove_all,
  remove_gone, post_all, update_from, retrieved_or_fail, reload, update_source_list,
}
use lumen_rtc.MediaList.Update.{ids, update_from-ids}
use lumen_rtc.MediaList.View.{
  has, replay, replay-append, replay-remove_all, replay-remove_gone, replay-post_all, merge-Kept,
  merge_other, merge-Allocated,
}

pub record Inv (l : MediaList) : Type 0 where
  pub observed : l.has_observer ≡ true
  pub distinct : Distinct (ids l.sources)
  pub allocated : (s : Source) → has s l.sources ≡ true → 0 < count s.address l.allocated

-- A step: the client knows what the list holds, and the invariant is kept.
abbrev Kept : MediaList → ℤ × MediaList × List Event → Type 0
Kept l (r, l1, events) =
    Inv l1 × ((s : Source) → replay s events (has s l.sources) ≡ has s l1.sources)

replay_thumbnails :
    (s : Source) (wanted : Bool) (ss : List Source) (b : Bool)
    → replay s (if wanted then post_all ss else []) b ≡ b
replay_thumbnails s true ss b = replay-post_all s ss b
replay_thumbnails s false ss b = refl

module _ (heap : Allocator) (get_thumbnail : Bool) (news : List NewSource) where
  module _ (l : MediaList) where
    abbrev named : List NewSource
    named = name_screens l.type 0 news

    abbrev begun : Merged
    begun = record { reordered = []; title = l.title; allocated = l.allocated }

    abbrev merged : Merged × List Event
    merged = merge heap l.sources get_thumbnail true named begun

    abbrev thumbnails : List Event
    thumbnails = if get_thumbnail then post_all merged.0.reordered else []

    abbrev behind : List Event
    behind = remove_gone true (new_ids named) l.sources ++ thumbnails

    replay-behind :
        (s : Source) (b : Bool)
        → replay s behind b ≡ (b && not (has s l.sources && not (elem s.id (new_ids named))))
    replay-behind s b =
        replay-append s (remove_gone true (new_ids named) l.sources) thumbnails b
        ∙ replay_thumbnails s get_thumbnail merged.0.reordered _
        ∙ replay-remove_gone s (new_ids named) l.sources b

    view :
        (s : Source)
        → Inv l
        → replay s (merged.1 ++ behind) (has s l.sources) ≡ has s merged.0.reordered
    view s v =
        replay-append s merged.1 behind (has s l.sources) ∙ elim (Bool-cases (has s l.sources)) [
          | inl old ↦
              let k =
                merge-Kept heap l.sources get_thumbnail s named begun v.distinct old
                  (v.allocated s old) in
              ap (replay s behind) (k.0 (has s l.sources))
              ∙ replay-behind s (has s l.sources)
              ∙ ground (arith, k.1, old)
          | inr new ↦
              ap (λ b. replay s behind (replay s merged.1 b)) new
              ∙ ap (replay s behind) (merge_other heap l.sources get_thumbnail s named begun new)
              ∙ replay-behind s _
              ∙ ground (arith, new)
        ]

    allocated_after :
        (s : Source)
        → Inv l
        → has s merged.0.reordered ≡ true
        → 0 < count s.address merged.0.allocated
    allocated_after s v = elim (Bool-cases (has s l.sources)) [
      | inl old ↦ λ p.
          (merge-Kept heap l.sources get_thumbnail s named begun v.distinct old
            (v.allocated s old)).2
      | inr new ↦ merge-Allocated heap l.sources get_thumbnail s named begun new (λ p. cc)
    ]

  update_from-Kept :
      (l : MediaList)
      → Inv l
      → Distinct (new_ids news)
      → Kept l (update_from heap get_thumbnail news l)
  unfolding update_from
  update_from-Kept l v d = (
    record {
      observed = v.observed;
      distinct = rw (update_from-ids heap get_thumbnail news l).0 d;
      allocated = λ s. rw v.observed (allocated_after l s v);
    },
    λ s. rw v.observed (view l s v),
  )

-- What the platform may list: no identifier twice.
abbrev pub Listed : Option (List NewSource) → Type 0
Listed none = Unit
Listed (some news) = Distinct (new_ids news)

retrieved-Kept :
    (heap : Allocator) (get_thumbnail : Bool) (news : Option (List NewSource)) (l : MediaList)
    → Inv l
    → Listed news
    → Kept l (retrieved_or_fail heap get_thumbnail news l)
unfolding retrieved_or_fail
retrieved-Kept heap get_thumbnail none l v d = (v, λ s. refl)
retrieved-Kept heap get_thumbnail (some news) l v d = update_from-Kept heap get_thumbnail news l v d

reload-Kept :
    (heap : Allocator) (get_thumbnail : Bool) (news : Option (List NewSource)) (l : MediaList)
    → Inv l
    → Listed news
    → Kept l (reload heap get_thumbnail news l)
unfolding reload
reload-Kept heap get_thumbnail news l v d =
    let k =
      retrieved-Kept heap get_thumbnail news (record l { sources = [] })
        (record { observed = v.observed; distinct = tt; allocated = λ s p. cc }) d in
    (
      k.0,
      λ s.
          ap (λ o. replay s (remove_all o l.sources ++ later) (has s l.sources)) v.observed
          ∙ replay-append s (remove_all true l.sources) later (has s l.sources)
          ∙ ap (replay s later) (replay-remove_all s l.sources (has s l.sources) ∙ ground arith)
          ∙ k.1 s,
    )
  where
    later : List Event
    later = (retrieved_or_fail heap get_thumbnail news (record l { sources = [] })).2

update-Kept :
    (heap : Allocator) (force_reload get_thumbnail : Bool) (news : Option (List NewSource))
    (l : MediaList)
    → Inv l
    → Listed news
    → Kept l (update_source_list heap force_reload get_thumbnail news l)
unfolding update_source_list
update-Kept heap force_reload get_thumbnail news l v d = by_flags l.has_capturer force_reload
  where
    by_flags :
        (usable force : Bool)
        → Kept l (
            if usable
            then (if force
                then reload heap get_thumbnail news l
                else retrieved_or_fail heap get_thumbnail news l)
            else (negsuc 0, l, []))
    by_flags true true = reload-Kept heap get_thumbnail news l v d
    by_flags true false = retrieved-Kept heap get_thumbnail news l v d
    by_flags false force = (v, λ s. refl)

-- A new list, with its observer registered.
abbrev pub created : Bool → DesktopType → (ℕ → Bytes) → MediaList
created has_capturer type title = record {
  has_capturer = has_capturer;
  type = type;
  sources = [];
  title = title;
  allocated = [];
  has_observer = true;
}

-- Any number of updates, each with what the platform listed for it, and all the calls so far.
pub data Run (heap : Allocator) : MediaList → List Event → Type 0 where
  begin :
      (has_capturer : Bool) (type : DesktopType) (title : ℕ → Bytes)
      → Run heap (created has_capturer type title) []
  updates :
      {l : MediaList} {log : List Event}
      → Run heap l log
      → (force_reload get_thumbnail : Bool) (news : Option (List NewSource)) → Listed news
      → Run heap
          (update_source_list heap force_reload get_thumbnail news l).1
          (log ++ (update_source_list heap force_reload get_thumbnail news l).2)

Run-Kept :
    (heap : Allocator) {l : MediaList} {log : List Event}
    → Run heap l log
    → Inv l × ((s : Source) → replay s log false ≡ has s l.sources)
Run-Kept heap (begin has_capturer type title) =
    (record { observed = refl; distinct = tt; allocated = λ s p. cc }, λ s. refl)
Run-Kept heap (updates {l} {log} r force_reload get_thumbnail news d) =
    let (v, known) = Run-Kept heap r in
    let k = update-Kept heap force_reload get_thumbnail news l v d in
    (
      k.0,
      λ s.
          replay-append s log (update_source_list heap force_reload get_thumbnail news l).2 false
          ∙ ap (replay s (update_source_list heap force_reload get_thumbnail news l).2) (known s)
          ∙ k.1 s,
    )

-- Over any run of updates, reloading or not, failed or not, of a platform that lists no identifier
-- twice: an observer that keeps the sources it was told of as added, and drops those it was told of as
-- removed, always has exactly the sources of the list.
pub replay-Run :
    (heap : Allocator) {l : MediaList} {log : List Event}
    → Run heap l log
    → (s : Source) → replay s log false ≡ has s l.sources
replay-Run heap r = (Run-Kept heap r).1
