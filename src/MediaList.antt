-- ===== src/MediaList.antt =====
-- The list of screens or windows, bridge/lumenrtc_bridge/src/rtc_desktop_media_list_impl.cc:
-- UpdateSourceList, GetSourceCount, GetSource and the queue of thumbnail requests. A MediaSourceImpl
-- is its address with its source identifier, which never changes; its title is in the store of titles.
pub mod Update
pub mod View
pub mod Run
pub mod Queue
use lumen_rtc.Base.{
  ℕ, zero, suc, ◌+◌, Bool, true, false, not, ◌&&◌, List, [], ◌∷◌, ◌++◌, Option, none, some,
  if◌then◌else◌, ◌==◌, elem, length, get_elem?, map, update, Allocator, ℤ, pos, negsuc,
}
use lumen_rtc.Text.{Bytes}
use lumen_rtc.Json.{to_string}
use lumen_rtc.Capturer.{DesktopType, screen, window}

-- MediaSourceImpl, by reference.
pub record Source : Type 0 where
  pub address : ℕ
  pub id : ℕ

-- webrtc::DesktopCapturer::Source.
pub record NewSource : Type 0 where
  pub id : ℕ
  pub title : Bytes

pub record MediaList : Type 0 where
  -- Whether `capturer_` is set.
  pub has_capturer : Bool
  pub type : DesktopType
  pub sources : List Source
  -- Each source's `source.title`, by its address.
  pub title : ℕ → Bytes
  -- The addresses of all sources that were created.
  pub allocated : List ℕ
  -- Whether `observer_` is set.
  pub has_observer : Bool

-- The observer's calls, and a GetThumbnail task that is posted, with its `notify`.
pub data Event : Type 0 where
  added removed name_changed : Source → Event
  post_thumbnail : Source → Bool → Event

abbrev notify : Bool → Event → List Event
notify observed e = if observed then e ∷ [] else []

-- OnMediaSourceRemoved for each source, where the list is reloaded.
unfoldable pub remove_all : Bool → List Source → List Event
remove_all observed [] = []
remove_all observed (s ∷ ss) = notify observed (removed s) ++ remove_all observed ss

abbrev is_empty : Bytes → Bool
is_empty [] = true
is_empty (c ∷ cs) = false

abbrev is_screen : DesktopType → Bool
is_screen screen = true
is_screen window = false

-- The loop that gives screens without a title theirs, from the index `i` on.
unfoldable pub name_screens : DesktopType → ℕ → List NewSource → List NewSource
name_screens type i [] = []
name_screens type i (n ∷ ns) =
    (if is_screen type && is_empty n.title
      then record n {
        title = b'S' ∷ b'c' ∷ b'r' ∷ b'e' ∷ b'e' ∷ b'n' ∷ b' ' ∷ to_string (pos (i + 1));
      }
      else n)
    ∷ name_screens type (i + 1) ns

-- `existing_by_id.find(id)`: `emplace` keeps the first source of an identifier.
unfoldable pub find : ℕ → List Source → Option Source
find id [] = none
find id (s ∷ ss) = let later = find id ss in if s.id == id then some s else later

abbrev pub same_text : Bytes → Bytes → Bool
same_text [] [] = true
same_text [] (b ∷ bs) = false
same_text (a ∷ as') [] = false
same_text (a ∷ as') (b ∷ bs) = a == b && same_text as' bs

-- What the loop over the new sources changes: `reordered_sources`, its end last, and the objects.
pub record Merged : Type 0 where
  pub reordered : List Source
  pub title : ℕ → Bytes
  pub allocated : List ℕ

module _ (heap : Allocator) (old : List Source) (get_thumbnail observed : Bool) where
  -- A new source with no existing one.
  unfoldable pub create : NewSource → Merged → Merged × List Event
  create n m =
      let s : Source = record { address = heap.fresh m.allocated; id = n.id } in
      (
        record {
          reordered = m.reordered ++ s ∷ [];
          title = update m.title s.address n.title;
          allocated = s.address ∷ m.allocated;
        },
        post_thumbnail s get_thumbnail ∷ notify observed (added s),
      )

  -- One with an existing source.
  unfoldable pub keep : Source → NewSource → Merged → Merged × List Event
  keep s n m =
      if same_text (m.title s.address) n.title
      then (record m { reordered = m.reordered ++ s ∷ [] }, [])
      else (
        record m { reordered = m.reordered ++ s ∷ []; title = update m.title s.address n.title },
        notify observed (name_changed s),
      )

  visit : Option Source → NewSource → Merged → Merged × List Event
  unfolding create keep
  visit none n m = create n m
  visit (some s) n m = keep s n m

  -- The loop over the new sources.
  unfoldable pub merge : List NewSource → Merged → Merged × List Event
  unfolding visit find
  merge [] m = (m, [])
  merge (n ∷ ns) m =
      let (m1, events) = visit (find n.id old) n m in
      let (m2, later) = merge ns m1 in (m2, events ++ later)

abbrev pub new_ids : List NewSource → List ℕ
new_ids = map (λ (n : NewSource). n.id)

-- The loop that tells of the sources that are gone.
unfoldable pub remove_gone : Bool → List ℕ → List Source → List Event
remove_gone observed ids [] = []
remove_gone observed ids (s ∷ ss) =
    let later = remove_gone observed ids ss in
    if elem s.id ids then later else notify observed (removed s) ++ later

unfoldable pub post_all : List Source → List Event
post_all [] = []
post_all (s ∷ ss) = post_thumbnail s true ∷ post_all ss

-- The part of UpdateSourceList behind the retrieval of the source list.
unfoldable pub update_from :
    Allocator → Bool → List NewSource → MediaList → ℤ × MediaList × List Event
unfolding name_screens merge remove_gone post_all
update_from heap get_thumbnail retrieved l =
    let news = name_screens l.type 0 retrieved in
    let (m, events) =
      merge heap l.sources get_thumbnail l.has_observer news
        (record { reordered = []; title = l.title; allocated = l.allocated }) in
    (
      pos (length m.reordered),
      record l { sources = m.reordered; title = m.title; allocated = m.allocated },
      events
          ++ (remove_gone l.has_observer (new_ids news) l.sources
              ++ (if get_thumbnail then post_all m.reordered else [])),
    )

unfoldable pub retrieved_or_fail :
    Allocator → Bool → Option (List NewSource) → MediaList → ℤ × MediaList × List Event
unfolding update_from
retrieved_or_fail heap get_thumbnail none l = (negsuc 0, l, [])
retrieved_or_fail heap get_thumbnail (some retrieved) l = update_from heap get_thumbnail retrieved l

-- The force_reload branch: every source is removed before the list is retrieved.
unfoldable pub reload :
    Allocator → Bool → Option (List NewSource) → MediaList → ℤ × MediaList × List Event
unfolding remove_all retrieved_or_fail
reload heap get_thumbnail retrieved l =
    let (r, l1, events) =
      retrieved_or_fail heap get_thumbnail retrieved (record l { sources = [] }) in
    (r, l1, remove_all l.has_observer l.sources ++ events)

-- RTCDesktopMediaListImpl::UpdateSourceList: its result, the list and the events. `retrieved` is what
-- WebRTC's GetSourceList answers, `none` for false.
unfoldable pub update_source_list :
    Allocator → Bool → Bool → Option (List NewSource) → MediaList → ℤ × MediaList × List Event
unfolding reload
update_source_list heap force_reload get_thumbnail retrieved l =
    if l.has_capturer
    then (if force_reload
        then reload heap get_thumbnail retrieved l
        else retrieved_or_fail heap get_thumbnail retrieved l)
    else (negsuc 0, l, [])

-- RTCDesktopMediaListImpl::GetSourceCount and GetSource.
abbrev pub get_source_count : MediaList → ℕ
get_source_count l = length l.sources

unfoldable pub get_source : ℤ → MediaList → Option Source
get_source (pos i) l = get_elem? l.sources i
get_source (negsuc i) l = none
