-- ===== src/Exchange/Answers.antt =====
-- What one call comes to: one callback of the client at once, by native/src/lumenrtc_impl.cpp or the
-- bridge, or a task of WebRTC that ends in one.
use lumen_rtc.Base.{
  ℕ, ◌+◌, ◌≡◌, refl, sym, ap, subst, Bool, true, false, not, List, [], ◌∷◌, Option, none, some,
  if◌then◌else◌, count,
}
use lumen_rtc.Text.{Bytes, c_string}
use lumen_rtc.Exchange.{
  Message, message_of, invalid_type, unparsable, Callbacks, Call, described, done, measured, failed,
  Task, offers, answers, sets_local, sets_remote, collects, collects_of_sender,
  collects_of_receiver, Verdict, Pending, Session, Native, Ask, create_offer, create_answer,
  set_local_description, set_remote_description, get_local_description, get_remote_description,
  get_stats, get_sender_stats, get_receiver_stats, succeed, fail, call_now, wait, ask,
  create_description, set_local, set_remote, get_description, collect, or_failure, conclude,
}

abbrev pub user_of : Call → ℕ
user_of (described u sdp type) = u
user_of (done u) = u
user_of (measured u json) = u
user_of (failed u m) = u

abbrev pub users : List Call → List ℕ
users [] = []
users (c ∷ cs) = user_of c ∷ users cs

abbrev pub waiters : List Pending → List ℕ
waiters [] = []
waiters (p ∷ ps) = p.callbacks.user_data ∷ waiters ps

abbrev pub AreSet : Callbacks → Type 0
AreSet cb = (cb.success ≡ true) × (cb.failure ≡ true)

-- What a call comes to: one callback now, or a task of WebRTC that holds the callbacks.
pub data Answered (s : Session) (cb : Callbacks) : Session → Type 0 where
  now : (c : Call) → user_of c ≡ cb.user_data → Answered s cb (call_now (c ∷ []) s)
  later : (t : Task) → Answered s cb (wait t cb s)

pub data AllAnswered (s : Session) (cb : Callbacks) : Option Session → Type 0 where
  crashed : AllAnswered s cb none
  returned : {t : Session} → Answered s cb t → AllAnswered s cb (some t)

module _ (w : Native) (cb : Callbacks) (s : Session) (set : AreSet cb) where
  fail-Answered : (m : Message) → AllAnswered s cb (some (call_now (fail cb m) s))
  fail-Answered m =
      subst
        (λ b. AllAnswered s cb (some (call_now (if b then failed cb.user_data m ∷ [] else []) s)))
        (sym set.1) (returned (now (failed cb.user_data m) refl))

  succeed-Answered :
      (c : Call) → user_of c ≡ cb.user_data → AllAnswered s cb (some (call_now (succeed cb c) s))
  succeed-Answered c e =
      subst (λ b. AllAnswered s cb (some (call_now (if b then c ∷ [] else []) s))) (sym set.0)
        (returned (now c e))

  if-AllAnswered :
      (b : Bool) (x y : Option Session)
      → AllAnswered s cb x
      → AllAnswered s cb y
      → AllAnswered s cb (if b then x else y)
  if-AllAnswered true x y h k = h
  if-AllAnswered false x y h k = k

  described-AllAnswered :
      (d : Option (Bytes × Bytes)) (m : Message)
      → AllAnswered s cb (elim d [
        | none ↦ some (call_now (fail cb m) s)
        | some d ↦
            some (call_now (succeed cb (described cb.user_data (c_string d.0) (c_string d.1))) s)
      ])
  described-AllAnswered none m = fail-Answered m
  described-AllAnswered (some d) m = succeed-Answered _ refl

  pub ask-AllAnswered : (pc : Bool) (q : Ask) → AllAnswered s cb (ask w cb s pc q)
  unfolding ask create_description set_local set_remote get_description collect
  ask-AllAnswered false q = fail-Answered _
  ask-AllAnswered true (create_offer constraints) =
      if-AllAnswered _ _ _ (fail-Answered _) (returned (later _))
  ask-AllAnswered true (create_answer constraints) =
      if-AllAnswered _ _ _ (fail-Answered _) (returned (later _))
  ask-AllAnswered true (set_local_description none type) = fail-Answered _
  ask-AllAnswered true (set_local_description (some sdp) none) = fail-Answered _
  ask-AllAnswered true (set_local_description (some sdp) (some type)) =
      if-AllAnswered (not (w.is_type type)) _ _ (fail-Answered invalid_type) (
        if-AllAnswered (not (w.parses type sdp)) _ _ (fail-Answered unparsable)
          (if-AllAnswered s.is_open _ _ (returned (later (sets_local sdp type))) crashed))
  ask-AllAnswered true (set_remote_description none type) = fail-Answered _
  ask-AllAnswered true (set_remote_description (some sdp) none) = fail-Answered _
  ask-AllAnswered true (set_remote_description (some sdp) (some type)) =
      if-AllAnswered (not (w.is_type type)) _ _ (fail-Answered invalid_type) (
        if-AllAnswered (not (w.parses type sdp)) _ _ (fail-Answered unparsable)
          (if-AllAnswered s.is_open _ _ (returned (later (sets_remote sdp type _))) crashed))
  ask-AllAnswered true get_local_description =
      if-AllAnswered _ _ _ (described-AllAnswered w.local_description _) crashed
  ask-AllAnswered true get_remote_description =
      if-AllAnswered _ _ _ (described-AllAnswered w.remote_description _) crashed
  ask-AllAnswered true get_stats = if-AllAnswered _ _ _ (fail-Answered _) (returned (later _))
  ask-AllAnswered true (get_sender_stats none) = fail-Answered _
  ask-AllAnswered true (get_sender_stats (some o)) =
      if-AllAnswered _ _ _ (fail-Answered _) (returned (later _))
  ask-AllAnswered true (get_receiver_stats none) = fail-Answered _
  ask-AllAnswered true (get_receiver_stats (some o)) =
      if-AllAnswered _ _ _ (fail-Answered _) (returned (later _))

abbrev pub IsOne : List Call → ℕ → Type 0
IsOne cs u = (c : Call) × (cs ≡ c ∷ []) × (user_of c ≡ u)

module _ (cb : Callbacks) (set : AreSet cb) where
  succeed-IsOne : (c : Call) → user_of c ≡ cb.user_data → IsOne (succeed cb c) cb.user_data
  succeed-IsOne c e = (c, ap (λ b. if b then c ∷ [] else []) set.0, e)

  or_failure-IsOne :
      (m : Option Bytes) (c : Call)
      → user_of c ≡ cb.user_data
      → IsOne (or_failure cb m c) cb.user_data
  or_failure-IsOne none c e = succeed-IsOne c e
  or_failure-IsOne (some m) c e = (
    _,
    ap (λ b. if b then failed cb.user_data (message_of (c_string m)) ∷ [] else []) set.1,
    refl,
  )

  pub conclude-IsOne : (t : Task) (v : Verdict) → IsOne (conclude t cb v) cb.user_data
  unfolding conclude
  conclude-IsOne (offers o) v = or_failure-IsOne v.error _ refl
  conclude-IsOne (answers o) v = or_failure-IsOne v.error _ refl
  conclude-IsOne (sets_local sdp type) v = or_failure-IsOne v.error _ refl
  conclude-IsOne (sets_remote sdp type limits) v = or_failure-IsOne v.error _ refl
  conclude-IsOne collects v = succeed-IsOne _ refl
  conclude-IsOne (collects_of_sender o) v = succeed-IsOne _ refl
  conclude-IsOne (collects_of_receiver o) v = succeed-IsOne _ refl

-- The callbacks that were called, and those that WebRTC's observers hold, by user data.
abbrev pub total : ℕ → Session → ℕ
total u s = count u (users s.called) + count u (waiters s.pending)
