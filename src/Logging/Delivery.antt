-- ===== src/Logging/Delivery.antt =====
-- Who gets a message after any calls.
use lumen_rtc.Base.{
  ℕ, ◌≡◌, refl, sym, ap, ◌∙◌, arith, List, [], ◌∷◌, Option, none, some, if◌then◌else◌, leb,
  Allocator,
}
use lumen_rtc.Logging.{
  live_sinks, Severity, Log, silent, remove_log_sink, set_callback, remove_callback, set_min_level,
  deliver,
}

pub data Request : Type 0 where
  sets : Severity → Option ℕ → Request
  removes : Request
  sets_level : Severity → Request

module _ (heap : Allocator) where
  abbrev pub perform : Request → Log → Log
  perform (sets severity f) l = set_callback heap severity f l
  perform removes l = remove_callback l
  perform (sets_level severity) l = set_min_level severity l

  -- The requests, the last first.
  abbrev pub after : List Request → Log
  after [] = silent
  after (r ∷ rs) = perform r (after rs)

  -- What a client expects: the last call that names or removes a callback decides.
  abbrev pub expected : Severity → List Request → List ℕ
  expected m [] = []
  expected m (sets severity none ∷ rs) = []
  expected m (sets severity (some f) ∷ rs) = if leb severity m then f ∷ [] else []
  expected m (removes ∷ rs) = []
  expected m (sets_level severity ∷ rs) = expected m rs

  -- Either no sink is registered and nobody is expected, or the present sink alone, for the callback that is.
  data Follows (rs : List Request) (l : Log) : Type 0 where
    idle : l.streams ≡ [] → ((m : Severity) → expected m rs ≡ []) → Follows rs l
    active :
        (a : ℕ) (s : Severity) (f : ℕ)
        → l.sink ≡ some a
        → l.streams ≡ (a, s) ∷ []
        → l.callback ≡ some f
        → ((m : Severity) → expected m rs ≡ (if leb s m then f ∷ [] else []))
        → Follows rs l

  remove_log_sink-streams :
      (rs : List Request) (l : Log) (c : Option ℕ)
      → Follows rs l
      → (remove_log_sink (record l { callback = c })).streams ≡ []
  unfolding remove_log_sink
  remove_log_sink-streams rs l c (idle e h) = ground (arith, e)
  remove_log_sink-streams rs l c (active a s f e g k h) = ground (arith, e, g)

  remove_log_sink-callback : (l : Log) → (remove_log_sink l).callback ≡ l.callback
  unfolding remove_log_sink
  remove_log_sink-callback l = ground arith

  after-Follows : (rs : List Request) → Follows rs (after rs)
  unfolding set_callback remove_callback set_min_level
  after-Follows [] = idle refl (λ m. refl)
  after-Follows (sets severity none ∷ rs) =
      idle (remove_log_sink-streams rs (after rs) none (after-Follows rs)) (λ m. refl)
  after-Follows (sets severity (some f) ∷ rs) =
      active (heap.fresh (live_sinks (after rs).sink)) severity f refl
        (ap (◌∷◌ (heap.fresh (live_sinks (after rs).sink), severity))
          (remove_log_sink-streams rs (after rs) (some f) (after-Follows rs)))
        (remove_log_sink-callback (record (after rs) { callback = some f })) (λ m. refl)
  after-Follows (removes ∷ rs) =
      idle (remove_log_sink-streams rs (after rs) none (after-Follows rs)) (λ m. refl)
  after-Follows (sets_level severity ∷ rs) = elim (after-Follows rs) [
    | idle e h ↦ idle e h
    | active a s f e g k h ↦ active a s f e g k h
  ]

  deliver-Follows :
      (m : Severity) (rs : List Request) (l : Log)
      → Follows rs l
      → deliver m l.streams l ≡ expected m rs
  unfolding deliver
  deliver-Follows m rs l (idle e h) = rw e (sym (h m))
  deliver-Follows m rs l (active a s f e g k h) =
      let one : deliver m ((a, s) ∷ []) l ≡ (if leb s m then f ∷ [] else []) = ground (arith, k) in
      ap (λ ss. deliver m ss l) g ∙ one ∙ sym (h m)

  -- After any calls, a message calls the callback that the last of them to name or remove one has named, once
  -- and if the message's severity is not below the callback's, and none else.
  pub deliver-after :
      (m : Severity) (rs : List Request) → deliver m (after rs).streams (after rs) ≡ expected m rs
  deliver-after m rs = deliver-Follows m rs (after rs) (after-Follows rs)
