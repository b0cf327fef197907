-- ===== src/MediaList/Queue.antt =====
-- The queue of thumbnail requests: GetThumbnail's task, TryStartNextThumbnailCapture and
-- OnThumbnailCaptureResult of bridge/lumenrtc_bridge/src/rtc_desktop_media_list_impl.cc. All of them run on
-- the list's thread. The result of a capture that TryStartNextThumbnailCapture has started, which may
-- come before its CaptureFrame returns, is a step of its own, since nothing stands behind that call.
use lumen_rtc.Base.{
  ℕ, ◌≡◌, refl, Bool, true, false, not, ◌&&◌, List, [], ◌∷◌, ◌++◌, Option, none, some, arith,
  if◌then◌else◌, ◌==◌, Bool-cases, inl, inr,
}
use lumen_rtc.MediaList.{Source}

-- PendingThumbnailRequest.
pub record Request : Type 0 where
  pub source : Source
  pub notify : Bool

pub record Thumbnails : Type 0 where
  -- pending_thumbnail_requests_, its front first.
  pub requests : List Request
  -- thumbnail_capture_in_flight_.
  pub in_flight : Bool
  -- The source that WebRTC's capturer was last made to capture.
  pub selected : Option ℕ

-- SaveCaptureResult on a source, OnMediaSourceThumbnailChanged, and a started capture.
pub data Event : Type 0 where
  capture : ℕ → Event
  save thumbnail_changed : Source → Event

-- The loop of TryStartNextThumbnailCapture. `select` is what SelectSource answers. Each request holds
-- a source.
unfoldable pub start_from : (ℕ → Bool) → List Request → Thumbnails → Thumbnails × List Event
start_from select [] t = (record t { requests = [] }, [])
start_from select (r ∷ rs) t =
    let later = start_from select rs t in
    if select r.source.id
    then (
      record t { requests = r ∷ rs; in_flight = true; selected = some r.source.id },
      capture r.source.id ∷ [],
    )
    else later

unfoldable pub try_start_next : Bool → (ℕ → Bool) → Thumbnails → Thumbnails × List Event
unfolding start_from
try_start_next has_capturer select t =
    if not has_capturer
    then (t, [])
    else if t.in_flight
    then (t, [])
    else start_from select t.requests t

-- The task that GetThumbnail posts.
unfoldable pub request_thumbnail :
    Bool → (ℕ → Bool) → Request → Thumbnails → Thumbnails × List Event
unfolding try_start_next
request_thumbnail has_capturer select r t =
    if not has_capturer
    then (t, [])
    else try_start_next has_capturer select (record t { requests = t.requests ++ r ∷ [] })

take_result : Bool → (ℕ → Bool) → Bool → List Request → Thumbnails → Thumbnails × List Event
unfolding try_start_next
take_result has_capturer select observed [] t = (record t { in_flight = false }, [])
take_result has_capturer select observed (r ∷ rs) t =
    let (u, events) =
      try_start_next has_capturer select (record t { requests = rs; in_flight = false }) in
    (
      u,
      save r.source
          ∷ ((if observed && r.notify then thumbnail_changed r.source ∷ [] else []) ++ events),
    )

-- OnThumbnailCaptureResult.
unfoldable pub on_capture_result : Bool → (ℕ → Bool) → Bool → Thumbnails → Thumbnails × List Event
unfolding take_result
on_capture_result has_capturer select observed t =
    take_result has_capturer select observed t.requests t

-- Whether the first request is for the source.
abbrev pub is_front : List Request → Option ℕ → Bool
is_front [] id = false
is_front (r ∷ rs) none = false
is_front (r ∷ rs) (some id) = r.source.id == id

abbrev pub is_empty : List Request → Bool
is_empty [] = true
is_empty (r ∷ rs) = false

pub record IsServing (t : Thumbnails) : Type 0 where
  -- A capture under way is one of the first request's source.
  pub front : t.in_flight ≡ true → is_front t.requests t.selected ≡ true
  -- No request waits while no capture is under way.
  pub idle : t.in_flight ≡ false → t.requests ≡ []

start_from-IsServing :
    (select : ℕ → Bool) (rs : List Request) (t : Thumbnails)
    → t.in_flight ≡ false
    → IsServing (start_from select rs t).0
unfolding start_from
start_from-IsServing select [] t h = record { front = λ p. cc; idle = λ p. refl }
start_from-IsServing select (r ∷ rs) t h = elim (Bool-cases (select r.source.id)) [
  | inl chosen ↦ rw chosen (record { front = λ p. ground arith; idle = λ p. cc })
  | inr refused ↦ rw refused (start_from-IsServing select rs t h)
]

try_start_next-IsServing :
    (select : ℕ → Bool) (t : Thumbnails)
    → (t.in_flight ≡ true → is_front t.requests t.selected ≡ true)
    → IsServing (try_start_next true select t).0
unfolding try_start_next
try_start_next-IsServing select t = go t.requests t.in_flight t.selected
  where
    go :
        (rs : List Request) (busy : Bool) (sel : Option ℕ)
        → (busy ≡ true → is_front rs sel ≡ true)
        → IsServing
            (try_start_next true select
              (record { requests = rs; in_flight = busy; selected = sel })).0
    go rs true sel h = record { front = h; idle = λ p. cc }
    go rs false sel h = start_from-IsServing select rs _ refl

request-IsServing :
    (select : ℕ → Bool) (r : Request) (t : Thumbnails)
    → IsServing t
    → IsServing (request_thumbnail true select r t).0
unfolding request_thumbnail
request-IsServing select r t v =
    try_start_next-IsServing select (record t { requests = t.requests ++ r ∷ [] })
      (λ p. front_stays t.requests t.selected (v.front p))
  where
    front_stays :
        (rs : List Request) (sel : Option ℕ)
        → is_front rs sel ≡ true
        → is_front (rs ++ r ∷ []) sel ≡ true
    front_stays [] sel h = cc
    front_stays (x ∷ xs) none h = cc
    front_stays (x ∷ xs) (some id) h = h

result-IsServing :
    (select : ℕ → Bool) (observed : Bool) (t : Thumbnails)
    → IsServing (on_capture_result true select observed t).0
unfolding on_capture_result
result-IsServing select observed t = go t.requests refl
  where
    go : (rs : List Request) → t.requests ≡ rs → IsServing (take_result true select observed rs t).0
    go [] e = record { front = λ p. cc; idle = λ p. e }
    go (r ∷ rs) e =
        try_start_next-IsServing select (record t { requests = rs; in_flight = false }) (λ p. cc)

-- A task or a result, on a list with a capturer, with what SelectSource answers meanwhile.
pub data Step (t : Thumbnails) : Thumbnails → Type 0 where
  requested : (select : ℕ → Bool) (r : Request) → Step t (request_thumbnail true select r t).0
  captured :
      (select : ℕ → Bool) (observed : Bool) → Step t (on_capture_result true select observed t).0

abbrev pub none_requested : Thumbnails
none_requested = record { requests = []; in_flight = false; selected = none }

pub data Reach : Thumbnails → Type 0 where
  start : Reach none_requested
  next : {t u : Thumbnails} → Reach t → Step t u → Reach u

-- Whatever is requested, whichever sources can be selected, and whatever results come: a capture under
-- way is one of the source of the first request, and where none is under way no request waits.
pub Reach-IsServing : {t : Thumbnails} → Reach t → IsServing t
Reach-IsServing start = record { front = λ p. cc; idle = λ p. refl }
Reach-IsServing (next {t} r (requested select q)) = request-IsServing select q t (Reach-IsServing r)
Reach-IsServing (next {t} r (captured select observed)) = result-IsServing select observed t

first_saved :
    (select : ℕ → Bool) (observed : Bool) (t : Thumbnails) (rs : List Request)
    → is_front rs t.selected ≡ true
    → (s : Source) × (rest : List Event) × (t.selected ≡ some s.id)
      × ((take_result true select observed rs t).1 ≡ save s ∷ rest)
unfolding take_result
first_saved select observed t rs = go rs t.selected refl
  where
    go :
        (qs : List Request) (sel : Option ℕ)
        → t.selected ≡ sel
        → is_front qs sel ≡ true
        → (s : Source) × (rest : List Event) × (t.selected ≡ some s.id)
          × ((take_result true select observed qs t).1 ≡ save s ∷ rest)
    go [] sel e h = cc
    go (q ∷ qs) none e h = cc
    go (q ∷ qs) (some id) e h = (q.source, _, ground (arith, e, h), refl)

-- A result that comes while a capture is under way is saved first of all, to the source that was
-- selected for that capture.
pub result_saved :
    {t : Thumbnails} (select : ℕ → Bool) (observed : Bool)
    → Reach t
    → t.in_flight ≡ true
    → (s : Source) × (rest : List Event) × (t.selected ≡ some s.id)
      × ((on_capture_result true select observed t).1 ≡ save s ∷ rest)
unfolding on_capture_result
result_saved {t} select observed r h =
    first_saved select observed t t.requests ((Reach-IsServing r).front h)
