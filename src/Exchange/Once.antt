-- ===== src/Exchange/Once.antt =====
-- Every call with both callbacks set is answered once: by native/src/lumenrtc_impl.cpp or the bridge at
-- once, or when WebRTC answers its task.
use lumen_rtc.Base.{
  ℕ, zero, suc, ◌+◌, ◌≡◌, refl, sym, ap, subst, ◌∙◌, arith, Bool, List, [], ◌∷◌, ◌++◌, Option, none,
  some, if◌then◌else◌, ◌==◌, count, length, get_elem?, All, All-append, append-nil,
}
use lumen_rtc.Exchange.{
  Callbacks, Call, Verdict, Pending, Session, Native, Ask, call_now, ask, conclude, erase, complete,
  shut,
}
use lumen_rtc.Exchange.Answers.{
  user_of, users, waiters, AreSet, total, Answered, now, later, AllAnswered, crashed, returned,
  ask-AllAnswered, conclude-IsOne,
}

-- A call that returns, whose callbacks are both set; an answer of WebRTC; or Close.
pub data Step (s : Session) : Session → List ℕ → Type 0 where
  asks :
      {t : Session} (w : Native) (pc : Bool) (q : Ask) (cb : Callbacks)
      → AreSet cb
      → ask w cb s pc q ≡ some t
      → Step s t (cb.user_data ∷ [])
  completes : (skipped : ℕ) (v : Verdict) → Step s (complete skipped v s) []
  shuts : Step s (shut s) []

-- Any number of steps from a session with no calls, with the user data of the calls made.
pub data Reach : Session → List ℕ → Type 0 where
  start : {s : Session} → s.pending ≡ [] → s.called ≡ [] → Reach s []
  next : {s t : Session} {us vs : List ℕ} → Reach s us → Step s t vs → Reach t (us ++ vs)

count-append : (u : ℕ) (xs ys : List ℕ) → count u (xs ++ ys) ≡ count u xs + count u ys
count-append u [] ys = omega arith
count-append u (x ∷ xs) ys = ground (arith, count-append u xs ys)

users-append : (cs ds : List Call) → users (cs ++ ds) ≡ users cs ++ users ds
users-append [] ds = refl
users-append (c ∷ cs) ds = ap (◌∷◌ (user_of c)) (users-append cs ds)

waiters-append : (ps qs : List Pending) → waiters (ps ++ qs) ≡ waiters ps ++ waiters qs
waiters-append [] qs = refl
waiters-append (p ∷ ps) qs = ap (◌∷◌ p.callbacks.user_data) (waiters-append ps qs)

count_called :
    (u : ℕ) (cs : List Call) (c : Call)
    → count u (users (cs ++ c ∷ [])) ≡ count u (users cs) + (if u == user_of c then 1 else 0)
count_called u cs c =
    ap (count u) (users-append cs (c ∷ [])) ∙ count-append u (users cs) _ ∙ omega arith

count_waiting :
    (u : ℕ) (ps : List Pending) (p : Pending)
    → count u (waiters (ps ++ p ∷ []))
      ≡ count u (waiters ps) + (if u == p.callbacks.user_data then 1 else 0)
count_waiting u ps p =
    ap (count u) (waiters-append ps (p ∷ [])) ∙ count-append u (waiters ps) _ ∙ omega arith

count-erase :
    (u i : ℕ) (ps : List Pending) (p : Pending)
    → get_elem? ps i ≡ some p
    → count u (waiters (erase i ps)) + (if u == p.callbacks.user_data then 1 else 0)
      ≡ count u (waiters ps)
count-erase u i [] p e = cc
count-erase u zero (q ∷ qs) p e =
    let h : q ≡ p = cc in
    subst
      (λ r.
        count u (waiters qs) + (if u == r.callbacks.user_data then 1 else 0)
        ≡ count u (waiters (q ∷ qs)))
      h (omega arith)
count-erase u (suc i) (q ∷ qs) p e = omega (arith, count-erase u i qs p e)

abbrev AllSet : List Pending → Type 0
AllSet = All (λ p. AreSet p.callbacks)

All-erase : (i : ℕ) (ps : List Pending) → AllSet ps → AllSet (erase i ps)
All-erase i [] h = tt
All-erase zero (p ∷ ps) h = h.1
All-erase (suc i) (p ∷ ps) h = (h.0, All-erase i ps h.1)

All-get :
    (i : ℕ) (ps : List Pending) (p : Pending)
    → AllSet ps
    → get_elem? ps i ≡ some p
    → AreSet p.callbacks
All-get i [] p h e = cc
All-get zero (q ∷ qs) p h e = let k : q ≡ p = cc in subst (λ r. AreSet r.callbacks) k h.0
All-get (suc i) (q ∷ qs) p h e = All-get i qs p h.1 e

-- The pending callbacks are set, and the total is as given.
abbrev Counted : Session → (ℕ → ℕ) → Type 0
Counted s n = AllSet s.pending × ((u : ℕ) → total u s ≡ n u)

Answered-Counted :
    {s t : Session} {cb : Callbacks}
    → AreSet cb
    → Answered s cb t
    → AllSet s.pending
    → Counted t (λ u. total u s + count u (cb.user_data ∷ []))
Answered-Counted {s} set (now c e) h = (
  h,
  λ u.
      subst (λ k. total u (call_now (c ∷ []) s) ≡ total u s + count u (k ∷ [])) e
        (omega (arith, count_called u s.called c)),
)
Answered-Counted {s} {t} {cb} set (later task) h = (
  All-append _ s.pending _ h (set, tt),
  λ u. omega (arith, count_waiting u s.pending (record { task = task; callbacks = cb })),
)

complete-Counted :
    (i : ℕ) (v : Verdict) (s : Session)
    → AllSet s.pending
    → Counted (complete i v s) (λ u. total u s)
unfolding complete
complete-Counted i v s h = go (get_elem? s.pending i) refl
  where
    go :
        (o : Option Pending)
        → get_elem? s.pending i ≡ o
        → Counted
            (elim o [
              | none ↦ s
              | some p ↦ record s {
                pending = erase i s.pending;
                called = s.called ++ conclude p.task p.callbacks v;
              }
            ])
            (λ u. total u s)
    go none e = (h, λ u. refl)
    go (some p) e =
        let (c, k, m) = conclude-IsOne p.callbacks (All-get i s.pending p h e) p.task v in
        (
          All-erase i s.pending h,
          λ u.
              subst
                (λ cs.
                  count u (users (s.called ++ cs)) + count u (waiters (erase i s.pending))
                  ≡ total u s)
                (sym k)
                (omega (
                  arith,
                  count_called u s.called c,
                  count-erase u i s.pending p e,
                  ap {B = ℕ} (λ x. if u == x then 1 else 0) m,
                )),
        )

step-Counted :
    {s t : Session} {vs : List ℕ}
    → Step s t vs
    → AllSet s.pending
    → Counted t (λ u. total u s + count u vs)
unfolding shut
step-Counted {s} (asks w pc q cb set e) h = go (ask-AllAnswered w cb s set pc q) e
  where
    go :
        {o : Option Session} {t : Session}
        → AllAnswered s cb o
        → o ≡ some t
        → Counted t (λ u. total u s + count u (cb.user_data ∷ []))
    go crashed e = cc
    go {t} (returned {t = t1} a) e =
        let k : t1 ≡ t = cc in
        subst (λ x. Counted x (λ u. total u s + count u (cb.user_data ∷ []))) k
          (Answered-Counted set a h)
step-Counted {s} (completes i v) h =
    let (h1, k) = complete-Counted i v s h in (h1, λ u. omega (arith, k u))
step-Counted {s} shuts h = (h, λ u. omega arith)

Reach-Counted : {s : Session} {us : List ℕ} → Reach s us → Counted s (λ u. count u us)
Reach-Counted {s} (start p c) = (
  subst AllSet (sym p) tt,
  λ u. omega (arith, ap (λ ps. count u (waiters ps)) p, ap (λ cs. count u (users cs)) c),
)
Reach-Counted (next {s} {t} {us} {vs} r st) =
    let (h, k) = Reach-Counted r in
    let (h1, k1) = step-Counted st h in (h1, λ u. omega (arith, k u, k1 u, count-append u us vs))

-- After any calls that return, with both callbacks set, answers of WebRTC and Close: for each user data, the
-- callbacks called with it and those that WebRTC still holds are together as many as the calls made with it.
-- So no call is answered twice, and none is lost.
pub called_or_pending : {s : Session} {us : List ℕ} → Reach s us → (u : ℕ) → total u s ≡ count u us
called_or_pending r = (Reach-Counted r).1

-- WebRTC answers the first pending task with each of the verdicts.
abbrev pub drain : List Verdict → Session → Session
drain [] s = s
drain (v ∷ vs) s = drain vs (complete 0 v s)

complete-erase : (v : Verdict) (s : Session) → (complete 0 v s).pending ≡ erase 0 s.pending
unfolding complete
complete-erase v s = go s.pending
  where
    go : (ps : List Pending) → (complete 0 v (record s { pending = ps })).pending ≡ erase 0 ps
    go [] = refl
    go (p ∷ ps) = refl

length-erase : (n : ℕ) (ps : List Pending) → suc n ≡ length ps → n ≡ length (erase 0 ps)
length-erase n [] e = absurd (omega (arith, e))
length-erase n (p ∷ ps) e = omega (arith, e)

length_nil : (ps : List Pending) → 0 ≡ length ps → ps ≡ []
length_nil [] e = refl
length_nil (p ∷ ps) e = absurd (omega (arith, e))

drained :
    (vs : List Verdict) (s : Session) → length vs ≡ length s.pending → (drain vs s).pending ≡ []
drained [] s e = length_nil s.pending e
drained (v ∷ vs) s e =
    drained vs (complete 0 v s)
      (length-erase (length vs) s.pending e ∙ sym (ap length (complete-erase v s)))

drain-Reach : (vs : List Verdict) {s : Session} {us : List ℕ} → Reach s us → Reach (drain vs s) us
drain-Reach [] r = r
drain-Reach (v ∷ vs) {us} r =
    drain-Reach vs (subst (Reach _) (append-nil us) (next r (completes 0 v)))

-- Once WebRTC has answered all that is pending, every call has had exactly one of its callbacks called.
pub drain_calls_each :
    {s : Session} {us : List ℕ} (vs : List Verdict)
    → Reach s us
    → length vs ≡ length s.pending
    → (u : ℕ) → count u (users (drain vs s).called) ≡ count u us
drain_calls_each {s} vs r e u = omega (
  arith,
  called_or_pending (drain-Reach vs r) u,
  ap (λ ps. count u (waiters ps)) (drained vs s e),
)
