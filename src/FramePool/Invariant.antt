-- ===== src/FramePool/Invariant.antt =====
-- The pool with its clients: what stays true however frames arrive and handles are retained and
-- released, as long as each handle is released once.
use lumen_rtc.Base.{
  ℕ, ◌+◌, ◌≤◌, ◌<◌, ◌≡◌, refl, inl, inr, Bool, true, false, List, [], ◌∷◌, Option, none, some,
  arith, length, remove, count, count-remove, length-remove, is_some, Option-cases, Allocator,
}
use lumen_rtc.FramePool.{Frames, pool_max_size, initial, release, wrap, on_frame, retain}

-- `held` are the handles that clients got and have not released.
pub record Inv (s : Frames) (held : List ℕ) : Type 0 where
  pub bounded : length s.pool ≤ pool_max_size
  -- Every live handle is in the pool or with a client, once, and nothing else is.
  pub counted : (a : ℕ) → count a s.pool + count a held ≡ count a s.live
  pub sized : length s.pool + length held ≡ length s.live
  pub once : (a : ℕ) → count a s.live ≤ 1
  pub idle : (a : ℕ) → 0 < count a s.pool → s.ref a ≡ none
  pub owning : (a : ℕ) → 0 < count a held → is_some (s.ref a) ≡ true

initial-Inv : Inv initial []
initial-Inv = record {
  bounded = omega arith;
  counted = λ a. refl;
  sized = omega arith;
  once = λ a. omega arith;
  idle = λ a h. refl;
  owning = λ a h. absurd (omega arith);
}

abbrev state : List ℕ → List ℕ → (ℕ → Option ℕ) → Frames
state pool live ref = record { pool = pool; live = live; ref = ref }

module _ (heap : Allocator) (held : List ℕ) (frame : ℕ) where
  abbrev Wrapped : Frames → Type 0
  Wrapped s = Inv (wrap heap frame s).1 ((wrap heap frame s).0 ∷ held)

  wrap_new-Inv :
      (live : List ℕ) (ref : ℕ → Option ℕ)
      → Inv (state [] live ref) held
      → Wrapped (state [] live ref)
  unfolding wrap
  wrap_new-Inv live ref v = record {
    bounded = omega arith;
    counted = λ a. ground (arith, v.counted a);
    sized = omega (arith, v.sized);
    once = λ a. ground (arith, v.once a, heap.fresh_new live);
    idle = λ a p. absurd (omega arith);
    owning = λ a p. ground (arith, v.owning a);
  }

  wrap_reused-Inv :
      (h : ℕ) (rest live : List ℕ) (ref : ℕ → Option ℕ)
      → Inv (state (h ∷ rest) live ref) held
      → Wrapped (state (h ∷ rest) live ref)
  unfolding wrap
  wrap_reused-Inv h rest live ref v = record {
    bounded = omega (arith, v.bounded);
    counted = λ a. ground (arith, v.counted a);
    sized = omega (arith, v.sized);
    once = v.once;
    idle = λ a p. ground (arith, v.idle a, v.counted a, v.once a);
    owning = λ a p. ground (arith, v.owning a);
  }

  wrap-Inv : (s : Frames) → Inv s held → Wrapped s
  wrap-Inv s = go s.pool s.live s.ref
    where
      go :
          (pool live : List ℕ) (ref : ℕ → Option ℕ)
          → Inv (state pool live ref) held
          → Wrapped (state pool live ref)
      go [] live ref = wrap_new-Inv live ref
      go (h ∷ rest) live ref = wrap_reused-Inv h rest live ref

release-Inv :
    (s : Frames) (held : List ℕ) (h : ℕ)
    → Inv s held
    → 0 < count h held
    → Inv (release (some h) s) (remove h held)
unfolding release
release-Inv s held h v m = record {
  bounded = ground (arith, v.bounded);
  counted = λ a. ground (
    arith,
    v.counted a,
    v.counted h,
    v.once h,
    v.once a,
    count-remove h a held,
    count-remove h a s.live,
  );
  sized = ground (arith, v.sized, v.counted h, length-remove h held, length-remove h s.live);
  once = λ a. ground (arith, v.counted a, v.once a, count-remove h a s.live);
  idle = λ a p. ground (arith, v.idle a, v.counted a, v.once a);
  owning =
      λ a p. ground (arith, v.owning a, v.counted a, v.counted h, v.once a, count-remove h a held);
}

-- A call's result, with the client from then on.
abbrev pub with_handle : Option ℕ → List ℕ → List ℕ
with_handle none held = held
with_handle (some h) held = h ∷ held

-- One thing that happens: a frame reaches a video sink, whose callback may be unset, or a client
-- retains or releases a handle that it holds, or passes null.
pub data Step (heap : Allocator) (s : Frames) (held : List ℕ) : Frames → List ℕ → Type 0 where
  arrive :
      (set : Bool) (frame : Option ℕ)
      → Step heap s held
          (on_frame heap set frame s).1
          (with_handle (on_frame heap set frame s).0 held)
  keep :
      (h : ℕ)
      → 0 < count h held
      → Step heap s held (retain heap (some h) s).1 (with_handle (retain heap (some h) s).0 held)
  keep_null : Step heap s held (retain heap none s).1 (with_handle (retain heap none s).0 held)
  drop : (h : ℕ) → 0 < count h held → Step heap s held (release (some h) s) (remove h held)
  drop_null : Step heap s held (release none s) held

pub data Reach (heap : Allocator) : Frames → List ℕ → Type 0 where
  start : Reach heap initial []
  next :
      {s t : Frames} {held held' : List ℕ}
      → Reach heap s held
      → Step heap s held t held'
      → Reach heap t held'

on_frame-Inv :
    (heap : Allocator) (s : Frames) (held : List ℕ) (set : Bool) (frame : Option ℕ)
    → Inv s held
    → Inv (on_frame heap set frame s).1 (with_handle (on_frame heap set frame s).0 held)
unfolding on_frame
on_frame-Inv heap s held false frame v = v
on_frame-Inv heap s held true none v = v
on_frame-Inv heap s held true (some frame) v = wrap-Inv heap held frame s v

retain-Inv :
    (heap : Allocator) (s : Frames) (held : List ℕ) (h : ℕ)
    → Inv s held
    → Inv (retain heap (some h) s).1 (with_handle (retain heap (some h) s).0 held)
unfolding retain
retain-Inv heap s held h v = elim (Option-cases (s.ref h)) [
  | inl e ↦ rw (e, retain) v
  | inr (frame, e) ↦ rw (e, retain) (wrap-Inv heap held frame s v)
]

step-Inv :
    (heap : Allocator) {s t : Frames} {held held' : List ℕ}
    → Inv s held
    → Step heap s held t held'
    → Inv t held'
unfolding release retain
step-Inv heap {s} {held = held} v (arrive set frame) = on_frame-Inv heap s held set frame v
step-Inv heap {s} {held = held} v (keep h m) = retain-Inv heap s held h v
step-Inv heap v keep_null = v
step-Inv heap {s} {held = held} v (drop h m) = release-Inv s held h v m
step-Inv heap v drop_null = v

-- Whatever clients do with the handles that they hold: the pool keeps at most sixteen; a live handle
-- is in the pool or with one client, never both and never twice; a pooled handle owns no frame; and
-- a handle with a client owns one.
pub Reach-Inv : (heap : Allocator) {s : Frames} {held : List ℕ} → Reach heap s held → Inv s held
Reach-Inv heap start = initial-Inv
Reach-Inv heap (next r st) = step-Inv heap (Reach-Inv heap r) st
