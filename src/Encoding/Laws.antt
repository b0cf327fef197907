-- ===== src/Encoding/Laws.antt =====
-- What the calls on a sender's encodings do, as a client can see it.
use lumen_rtc.Base.{
  ℕ, zero, suc, ◌+◌, ◌<◌, ◌≡◌, ◌≢◌, refl, ap, sym, ◌∙◌, Bool, List, [], ◌∷◌, ◌++◌, ◌==◌,
  if◌then◌else◌, true, false, map, Option, none, some, arith, length, set, get_elem?,
  get_elem?-set_self, get_elem?-set_ne, length-set, length-append, get_elem?-append_mid,
  set-append_mid, is_nonneg, append_assoc, Bool-cases, inl, inr,
}
use lumen_rtc.Encoding.{Native, Settings, Encoding, apply_settings}
use lumen_rtc.Encoding.Calls.{
  Parameters, Info, with_encodings, set_encoding_parameters, set_encoding_parameters_at,
  get_encoding_info, info_of, filled, apply_at, filled_at, submit,
}

module _ (W : Native) (accepts : Parameters W.D → Parameters W.D → Bool) (s : Settings W.D) where
  abbrev pub P : Type 0
  P = Parameters W.D

  abbrev map_info : Option (Encoding W.D) → Option (Info W)
  map_info none = none
  map_info (some e) = some (info_of W e)

  pub encodings_with : (p : P) (es : List (Encoding W.D)) → (with_encodings W s p es).encodings ≡ es
  encodings_with p es = ground arith

  pub get_elem?-some {ℓ} :
      {A : Type ℓ} (xs : List A) (i : ℕ) → i < length xs → (a : A) × (get_elem? xs i ≡ some a)
  get_elem?-some [] i h = absurd (omega arith)
  get_elem?-some (x ∷ xs) zero h = (x, refl)
  get_elem?-some (x ∷ xs) (suc i) h = get_elem?-some xs i (omega arith)

  filled_at_lem : (es : List (Encoding W.D)) (i : ℕ) → i < length es → filled_at W accepts es i ≡ es
  filled_at_lem [] i h = absurd (omega arith)
  filled_at_lem (e ∷ es) i h = refl

  -- What the call hands to WebRTC for an index inside the list.
  abbrev pub stored : P → ℕ → Encoding W.D → P
  stored p i e = with_encodings W s p (set p.encodings i (apply_settings W s e))

  pub set_at-stored :
      (p : P) (i : ℕ) (e : Encoding W.D)
      → get_elem? p.encodings i ≡ some e
      → i < length p.encodings
      → set_encoding_parameters_at W accepts (some p) i (some s) ≡ submit W accepts p (stored p i e)
  unfolding set_encoding_parameters_at
  set_at-stored p i e g h = rw found
    where
      found :
          apply_at W accepts s (filled_at W accepts p.encodings i) i
          ≡ some (set p.encodings i (apply_settings W s e))
      found = rw (filled_at_lem p.encodings i h) (rw (g, apply_at))

  -- Behind an answer of 1 the sender has what was handed over.
  pub accepted-stored :
      (p q : P) (i : ℕ) (e : Encoding W.D)
      → get_elem? p.encodings i ≡ some e
      → i < length p.encodings
      → set_encoding_parameters_at W accepts (some p) i (some s) ≡ (1, some q)
      → q ≡ stored p i e
  unfolding submit
  accepted-stored p q i e g h one =
      go (accepts p (stored p i e)) (sym (set_at-stored p i e g h) ∙ one)
    where
      go :
          (b : Bool)
          → ◌≡◌ {A = ℕ × Option P} (if b then (1, some (stored p i e)) else (0, some p)) (1, some q)
          → q ≡ stored p i e
      go true k = cc
      go false k = cc

  info_at :
      (q : P) (j : ℕ) {o : Option (Encoding W.D)}
      → get_elem? q.encodings j ≡ o
      → get_encoding_info W (some q) j ≡ map_info o
  unfolding get_encoding_info
  info_at q j g = rw (g, get_encoding_info)

  -- Setting the encoding at an index of the list hands WebRTC parameters in which that index shows the
  -- encoding under the settings, every other index shows what it showed, and there are as many as before.
  -- Where WebRTC accepts them, the call answers 1 and the sender has them from then on; where it does not,
  -- the call answers 0 and the sender shows what it showed.
  pub get_info-set_at :
      (p : P) (i : ℕ)
      → i < length p.encodings
      → (e : Encoding W.D) × (q : P) × (get_elem? p.encodings i ≡ some e)
        × (set_encoding_parameters_at W accepts (some p) i (some s)
            ≡ (if accepts p q then (1, some q) else (0, some p)))
        × (get_encoding_info W (some q) i ≡ some (info_of W (apply_settings W s e)))
        × ((j : ℕ) → i ≢ j → get_encoding_info W (some q) j ≡ get_encoding_info W (some p) j)
        × (length q.encodings ≡ length p.encodings)
  unfolding submit
  get_info-set_at p i h =
      let (e, g) = get_elem?-some p.encodings i h in
      (
        e,
        stored p i e,
        g,
        set_at-stored p i e g h,
        info_at (stored p i e) i
            (ap (λ es. get_elem? es i) (in_stored e) ∙ get_elem?-set_self p.encodings i _ h),
        (λ j ne.
            info_at (stored p i e) j
              (ap (λ es. get_elem? es j) (in_stored e) ∙ get_elem?-set_ne p.encodings _ ne)
            ∙ sym (info_at p j refl)),
        ap length (in_stored e) ∙ length-set p.encodings i _,
      )
    where
      in_stored :
          (e : Encoding W.D) → (stored p i e).encodings ≡ set p.encodings i (apply_settings W s e)
      in_stored e = encodings_with p (set p.encodings i (apply_settings W s e))

  -- The sender behind a call that answers 1.
  abbrev accepted : ℕ × Option P → Option P
  accepted r = if r.0 == 1 then r.1 else none

  abbrev continue : (P → Option P) → Option P → Option P
  continue f none = none
  continue f (some q) = f q

  -- `set_encoding_parameters_at` on each index from `i` on, `n` of them, each on the sender as the call
  -- before leaves it; `none` if one of them does not answer 1.
  unfoldable pub set_each : ℕ → ℕ → P → Option P
  set_each zero i p = some p
  set_each (suc n) i p =
      continue (set_each n (i + 1))
        (accepted (set_encoding_parameters_at W accepts (some p) i (some s)))

  with_encodings_twice :
      (p : P) (es fs : List (Encoding W.D))
      → with_encodings W s (with_encodings W s p es) fs ≡ with_encodings W s p fs
  with_encodings_twice p es fs = elim (Bool-cases (is_nonneg s.degradation_preference)) [
    | inl set_too ↦ rw set_too
    | inr kept ↦ rw kept
  ]

  -- One of the calls, on a list taken apart at its index.
  set_at_mid :
      (p : P) (pre suf : List (Encoding W.D)) (e : Encoding W.D)
      → p.encodings ≡ pre ++ e ∷ suf
      → set_encoding_parameters_at W accepts (some p) (length pre) (some s)
        ≡ submit W accepts p (with_encodings W s p (pre ++ apply_settings W s e ∷ suf))
  set_at_mid p pre suf e h =
      set_at-stored p (length pre) e
        (ap (λ es. get_elem? es (length pre)) h ∙ get_elem?-append_mid pre e suf)
        (omega (arith, ap length h, length-append pre (e ∷ suf)))
      ∙ ap (λ es. submit W accepts p (with_encodings W s p es))
          (ap (λ es. set es (length pre) (apply_settings W s e)) h ∙ set-append_mid pre e _ suf)

  set_all_lem :
      (p : P) (e : Encoding W.D) (suf : List (Encoding W.D))
      → p.encodings ≡ e ∷ suf
      → set_encoding_parameters W accepts (some p) (some s)
        ≡ submit W accepts p (with_encodings W s p (map (apply_settings W s) (e ∷ suf)))
  unfolding set_encoding_parameters
  set_all_lem p e suf h =
      ap (λ es. submit W accepts p (with_encodings W s p (map (apply_settings W s) (filled W es))))
        h

  -- A step of `set_each` that goes on is one that WebRTC accepted.
  set_each_step :
      (n i : ℕ) (p q r : P)
      → set_encoding_parameters_at W accepts (some p) i (some s) ≡ submit W accepts p q
      → set_each (suc n) i p ≡ some r
      → set_each n (i + 1) q ≡ some r
  unfolding set_each submit
  set_each_step n i p q r h e =
      go (accepts p q) (ap (λ x. continue (set_each n (i + 1)) (accepted x)) (sym h) ∙ e)
    where
      go :
          (b : Bool)
          → continue (set_each n (i + 1)) (accepted (if b then (1, some q) else (0, some p)))
            ≡ some r
          → set_each n (i + 1) q ≡ some r
      go true k = k
      go false k = cc

  same : {p q : P} → some p ≡ some q → p ≡ q
  same e = cc

  set_each_none : (i : ℕ) (p : P) → set_each zero i p ≡ some p
  unfolding set_each
  set_each_none i p = refl

  set_each_lem :
      (suf : List (Encoding W.D)) (e : Encoding W.D) (pre : List (Encoding W.D)) (p r : P) (i : ℕ)
      → length pre ≡ i
      → p.encodings ≡ pre ++ e ∷ suf
      → set_each (suc (length suf)) i p ≡ some r
      → r ≡ with_encodings W s p (pre ++ map (apply_settings W s) (e ∷ suf))
  set_each_lem [] e pre p r i l h k =
      let q = with_encodings W s p (pre ++ apply_settings W s e ∷ []) in
      sym (
        same (
          sym (set_each_none (i + 1) q)
          ∙ set_each_step zero i p q r (rw (← l) (set_at_mid p pre [] e h)) k))
  set_each_lem (e' ∷ suf) e pre p r i l h k =
      set_each_lem suf e' pre' q r (i + 1) (omega (arith, length-append pre (applied ∷ []), l))
        (encodings_with p _ ∙ sym (append_assoc pre (applied ∷ []) (e' ∷ suf)))
        (set_each_step (suc (length suf)) i p q r (rw (← l) (set_at_mid p pre (e' ∷ suf) e h)) k)
      ∙ with_encodings_twice p _ _
      ∙ ap (with_encodings W s p)
          (append_assoc pre (applied ∷ []) (map (apply_settings W s) (e' ∷ suf)))
    where
      applied : Encoding W.D
      applied = apply_settings W s e

      pre' : List (Encoding W.D)
      pre' = pre ++ applied ∷ []

      q : P
      q = with_encodings W s p (pre ++ applied ∷ (e' ∷ suf))

  -- Where a sender has encodings, and setting each of them in turn is accepted by WebRTC every time, setting
  -- them all at once hands WebRTC the parameters that the sender would have behind the last of those calls;
  -- if WebRTC accepts these too, the call answers 1 and leaves the same sender, and else it answers 0 and
  -- leaves the sender as it is.
  pub set_all-set_each :
      (p q : P)
      → p.encodings ≢ []
      → set_each (length p.encodings) 0 p ≡ some q
      → set_encoding_parameters W accepts (some p) (some s)
        ≡ (if accepts p q then (1, some q) else (0, some p))
  unfolding submit
  set_all-set_each p q ne k = go p.encodings refl ne k
    where
      go :
          (es : List (Encoding W.D))
          → p.encodings ≡ es
          → es ≢ []
          → set_each (length es) 0 p ≡ some q
          → set_encoding_parameters W accepts (some p) (some s) ≡ submit W accepts p q
      go [] h ne k = absurd (ne refl)
      go (e ∷ suf) h ne k =
          set_all_lem p e suf h
          ∙ ap (submit W accepts p) (sym (set_each_lem suf e [] p q 0 refl h k))
