-- ===== src/Text/CaseFold.antt =====
-- What the comparisons without case decide.
use lumen_rtc.Base.{
  ◌∙◌, subst, ◌≡◌, ◌≢◌, refl, ap, ◌↔◌, inl, inr, true, List, [], ◌∷◌, Option, none, some, map,
  arith, In, Bool-cases,
}
use lumen_rtc.Text.{
  Bytes, c_string, to_lower, equals_from, equals_ignore_case, mime_equals, off_words, is_off,
  is_trace_ice_enabled,
}

abbrev pub fold_case : Bytes → Bytes
fold_case = map to_lower

pub equals_from→eq : (a b : Bytes) → equals_from a b ≡ true → fold_case a ≡ fold_case b
unfolding equals_from
equals_from→eq [] [] h = refl
equals_from→eq [] (b ∷ bs) h = cc
equals_from→eq (a ∷ as') [] h = cc
equals_from→eq (a ∷ as') (b ∷ bs) h = ground (arith, equals_from→eq as' bs)

pub eq→equals_from : (a b : Bytes) → fold_case a ≡ fold_case b → equals_from a b ≡ true
unfolding equals_from
eq→equals_from [] [] h = refl
eq→equals_from [] (b ∷ bs) h = cc
eq→equals_from (a ∷ as') [] h = cc
eq→equals_from (a ∷ as') (b ∷ bs) h = ground (arith, eq→equals_from as' bs)

-- Two strings that are not null compare equal exactly when their bytes agree once each is put in
-- lower case; a null pointer equals nothing, itself included.
pub equals_ignore_case_iff :
    (a b : Option Bytes)
    → (equals_ignore_case a b ≡ true)
      ↔ ((s : Bytes) × (t : Bytes) × (a ≡ some s) × (b ≡ some t) × (fold_case s ≡ fold_case t))
unfolding equals_ignore_case
equals_ignore_case_iff none b = ((λ h. absurd (cc)), λ h. cc (h.2))
equals_ignore_case_iff (some s) none = ((λ h. absurd (cc)), λ h. cc (h.3))
equals_ignore_case_iff (some s) (some t) =
    ((λ h. (s, t, refl, refl, equals_from→eq s t h)), λ (x, y, p, q, e). eq→equals_from s t (cc))

pub mime_equals_iff :
    (a b : Bytes) → (mime_equals a (some b) ≡ true) ↔ (fold_case (c_string a) ≡ fold_case b)
unfolding mime_equals
mime_equals_iff a b = (equals_from→eq (c_string a) b, eq→equals_from (c_string a) b)

-- `value` is one of the words, in any case.
abbrev pub IsWord : Bytes → List Bytes → Type 0
IsWord v ws = (w : Bytes) × In w ws × (fold_case v ≡ fold_case w)

is_off→IsWord : (v : Bytes) (ws : List Bytes) → is_off v ws ≡ true → IsWord v ws
unfolding is_off equals_ignore_case
is_off→IsWord v [] h = cc
is_off→IsWord v (u ∷ us) h = elim (Bool-cases (equals_from v u)) [
  | inl hit ↦ (u, inl refl, equals_from→eq v u hit)
  | inr miss ↦ let (w, m, e) = is_off→IsWord v us (ground arith) in (w, inr m, e)
]

IsWord→is_off :
    (v w : Bytes) (ws : List Bytes) → In w ws → fold_case v ≡ fold_case w → is_off v ws ≡ true
unfolding is_off equals_ignore_case
IsWord→is_off v w [] m e = absurd m
IsWord→is_off v w (u ∷ us) (inl q) e =
    let hit = eq→equals_from v u (e ∙ ap fold_case q) in ground arith
IsWord→is_off v w (u ∷ us) (inr m) e = let later = IsWord→is_off v w us m e in ground arith

-- Tracing is on exactly when the variable is set, is not empty, and is not one of the words "0",
-- "false", "no" and "off" in any case.
pub is_trace_ice_enabled_iff :
    (v : Option Bytes)
    → (is_trace_ice_enabled v ≡ true)
      ↔ ((s : Bytes) × (v ≡ some s) × (s ≢ []) × ¬ IsWord s off_words)
unfolding is_trace_ice_enabled
is_trace_ice_enabled_iff none = ((λ h. absurd (cc)), λ h. cc (h.1))
is_trace_ice_enabled_iff (some []) = ((λ h. absurd (cc)), λ h. absurd (h.2 (cc (h.1))))
is_trace_ice_enabled_iff (some (c ∷ cs)) =
    ((λ h. (c ∷ cs, refl, (λ e. cc), no_word h)), λ (s, p, n, w). enabled s p w)
  where
    no_word : is_trace_ice_enabled (some (c ∷ cs)) ≡ true → ¬ IsWord (c ∷ cs) off_words
    no_word h (w, m, e) = cc (IsWord→is_off (c ∷ cs) w off_words m e)

    enabled :
        (s : Bytes)
        → some (c ∷ cs) ≡ some s
        → ¬ IsWord s off_words
        → is_trace_ice_enabled (some (c ∷ cs)) ≡ true
    enabled s p w = elim (Bool-cases (is_off (c ∷ cs) off_words)) [
      | inl off ↦
          let q : c ∷ cs ≡ s = cc in
          absurd (w (subst (λ t. IsWord t off_words) q (is_off→IsWord (c ∷ cs) off_words off)))
      | inr on ↦ rw on
    ]
