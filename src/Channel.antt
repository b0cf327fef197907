-- ===== src/Channel.antt =====
-- A data channel with one client handle: native/src/lumenrtc_impl.cpp (lrtc_impl_data_channel_set_callbacks,
-- _close and _release, DataChannelObserverImpl) over bridge/lumenrtc_bridge/src/rtc_data_channel_impl.cc. The
-- bridge's locks are temporaries and guard nothing, and OnMessage takes none, so WebRTC's thread runs it in
-- two steps, the test of `observer_` and the call behind it, and the client's calls may come between.
pub mod States
use lumen_rtc.Base.{
  ℕ, ◌≡◌, ◌≢◌, refl, Bool, true, false, List, [], ◌∷◌, ◌++◌, Option, none, some, arith,
  if◌then◌else◌,
}
use lumen_rtc.Text.{Bytes}

pub record Channel : Type 0 where
  -- Whether the lrtc_data_channel_t was deleted.
  pub released : Bool
  -- Whether its `observer` was newed and not deleted.
  pub observer : Bool
  -- The observer's `on_message`, if the client set one.
  pub on_message : Option ℕ
  -- Whether the bridge's `observer_` points to that observer.
  pub observed : Bool
  -- Whether the bridge's channel is registered with WebRTC's.
  pub registered : Bool
  -- The messages for which OnMessage has found `observer_` set, and has not called it yet.
  pub under_way : List Bytes

-- A new channel and its handle.
abbrev pub opened : Channel
opened = record {
  released = false;
  observer = false;
  on_message = none;
  observed = false;
  registered = true;
  under_way = [];
}

-- lrtc_impl_data_channel_set_callbacks, of a handle that is not null; `none` for null callbacks or a null
-- on_message.
unfoldable pub set_callbacks : Option ℕ → Channel → Channel
set_callbacks f c =
    if c.observer
    then record c { on_message = f }
    else record c { observer = true; observed = true; on_message = f }

-- lrtc_impl_data_channel_close, by RTCDataChannelImpl::Close.
unfoldable pub close : Channel → Channel
close c = record c { registered = false }

-- lrtc_impl_data_channel_release, by RTCDataChannelImpl::UnregisterObserver.
unfoldable pub release : Channel → Channel
release c = record c { observed = false; observer = false; released = true }

-- A message from WebRTC: OnMessage's test.
unfoldable pub test_message : Bytes → Channel → Channel
test_message m c =
    let tested = record c { under_way = c.under_way ++ m ∷ [] } in
    if c.registered then (if c.observed then tested else c) else c

-- What OnMessage's call leads to.
pub data Outcome : Type 0 where
  nothing : Outcome
  calls : ℕ → Bytes → Outcome
  -- The observer is used, and was deleted.
  dangling : Outcome

abbrev call_of : Option ℕ → Bytes → Outcome
call_of none m = nothing
call_of (some f) m = calls f m

call_first : List Bytes → Channel → Channel × Outcome
call_first [] c = (c, nothing)
call_first (m ∷ ms) c =
    (record c { under_way = ms }, if c.observer then call_of c.on_message m else dangling)

-- OnMessage's call, for the first of the messages under way, with DataChannelObserverImpl::OnMessage.
unfoldable pub call_message : Channel → Channel × Outcome
unfolding call_first
call_message c = call_first c.under_way c

-- A call of the client on a handle that it has not released, or a step of WebRTC's thread.
pub data Step (c : Channel) : Channel → Type 0 where
  sets : (f : Option ℕ) → c.released ≡ false → Step c (set_callbacks f c)
  closes : c.released ≡ false → Step c (close c)
  releases : c.released ≡ false → Step c (release c)
  tests : (m : Bytes) → Step c (test_message m c)
  passes_on : Step c (call_message c).0

pub data Reach : Channel → Type 0 where
  start : Reach opened
  next : {c d : Channel} → Reach c → Step c d → Reach d

pub record Inv (c : Channel) : Type 0 where
  pub observing : c.observed ≡ true → c.observer ≡ true
  pub observing_too : c.observer ≡ true → c.observed ≡ true
  pub keeping : c.released ≡ true → c.observer ≡ false

set-Inv : (f : Option ℕ) (c : Channel) → Inv c → c.released ≡ false → Inv (set_callbacks f c)
unfolding set_callbacks
set-Inv f c v r = ground arith

test-Inv : (m : Bytes) (c : Channel) → Inv c → Inv (test_message m c)
unfolding test_message
test-Inv m c v = ground arith

call-Inv : (c : Channel) → Inv c → Inv (call_message c).0
unfolding call_message
call-Inv c v = go c.under_way
  where
    go : (ms : List Bytes) → Inv (call_first ms c).0
    go [] = v
    go (m ∷ ms) = record {
      observing = v.observing;
      observing_too = v.observing_too;
      keeping = v.keeping;
    }

step-Inv : {c d : Channel} → Inv c → Step c d → Inv d
unfolding close release
step-Inv {c} v (sets f r) = set-Inv f c v r
step-Inv v (closes r) = record {
  observing = v.observing;
  observing_too = v.observing_too;
  keeping = v.keeping;
}
step-Inv v (releases r) = record {
  observing = λ p. cc;
  observing_too = λ p. cc;
  keeping = λ p. refl;
}
step-Inv {c} v (tests m) = test-Inv m c v
step-Inv {c} v passes_on = call-Inv c v

pub Reach-Inv : {c : Channel} → Reach c → Inv c
Reach-Inv start = record { observing = λ p. cc; observing_too = λ p. cc; keeping = λ p. refl }
Reach-Inv (next r st) = step-Inv (Reach-Inv r) st

-- Where no message is under way and no call comes between OnMessage's test and its call, a message never
-- meets a deleted observer; it reaches the callback that was set last, if the channel was not closed.
pub undisturbed_message :
    {c : Channel} (m : Bytes)
    → Reach c
    → c.under_way ≡ []
    → ((call_message (test_message m c)).1 ≢ dangling)
      × ((f : ℕ)
          → c.registered ≡ true
          → (call_message (test_message m (set_callbacks (some f) c))).1 ≡ calls f m)
unfolding call_message test_message set_callbacks
undisturbed_message {c} m r e = (
  safe c.under_way c.registered c.observed c.observer c.on_message e v.observing,
  λ f g. told c.under_way c.registered c.observed c.observer f e g v.observing_too,
)
  where
    v : Inv c
    v = Reach-Inv r

    with_fields : List Bytes → Bool → Bool → Bool → Option ℕ → Channel
    with_fields u reg seen alive f = record c {
      observer = alive;
      on_message = f;
      observed = seen;
      registered = reg;
      under_way = u;
    }

    safe :
        (u : List Bytes) (reg seen alive : Bool) (f : Option ℕ)
        → u ≡ []
        → (seen ≡ true → alive ≡ true)
        → (call_message (test_message m (with_fields u reg seen alive f))).1 ≢ dangling
    safe (x ∷ xs) reg seen alive f e h = cc
    safe [] false seen alive f e h = λ q. cc
    safe [] true false alive f e h = λ q. cc
    safe [] true true false f e h = cc (h refl)
    safe [] true true true none e h = λ q. cc
    safe [] true true true (some f) e h = λ q. cc

    told :
        (u : List Bytes) (reg seen alive : Bool) (f : ℕ)
        → u ≡ []
        → reg ≡ true
        → (alive ≡ true → seen ≡ true)
        → (call_message
            (test_message m (set_callbacks (some f) (with_fields u reg seen alive c.on_message)))).1
          ≡ calls f m
    told (x ∷ xs) reg seen alive f e g h = cc
    told [] false seen alive f e g h = cc
    told [] true true true f e g h = refl
    told [] true false true f e g h = cc (h refl)
    told [] true seen false f e g h = refl

-- If the client releases its handle between the test and the call, the call uses the deleted observer:
-- so it is for every message to an open channel with an observer, where no other is under way.
pub release_dangles :
    {c : Channel} (m : Bytes)
    → Reach c
    → c.under_way ≡ []
    → c.registered ≡ true
    → c.observer ≡ true
    → (call_message (release (test_message m c))).1 ≡ dangling
unfolding call_message test_message release
release_dangles {c} m r e g o =
    go c.under_way c.registered c.observed e g ((Reach-Inv r).observing_too o)
  where
    go :
        (u : List Bytes) (reg seen : Bool)
        → u ≡ []
        → reg ≡ true
        → seen ≡ true
        → (call_message (
            release
              (test_message m (record c { observed = seen; registered = reg; under_way = u })))).1
          ≡ dangling
    go (x ∷ xs) reg seen e g o = cc
    go [] false seen e g o = cc
    go [] true false e g o = cc
    go [] true true e g o = refl
