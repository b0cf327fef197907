-- ===== src/Cryptor/Keys.antt =====
-- The keys of a provider after any of its calls.
use lumen_rtc.Base.{
  ℕ, ◌≡◌, refl, sym, ap, ◌∙◌, arith, Bool, true, false, ◌&&◌, List, [], ◌∷◌, Option, none, some,
  if◌then◌else◌, ◌==◌,
}
use lumen_rtc.Text.{Bytes}
use lumen_rtc.MediaList.{same_text}
use lumen_rtc.Cryptor.{
  get, put, Provider, keys_of, key_or, set_shared_key, export_shared_key, ratchet_shared_key,
  set_key, export_key, ratchet_key, create_provider,
}

same_text_sound : (a b : Bytes) → same_text a b ≡ true → a ≡ b
same_text_sound [] [] e = refl
same_text_sound [] (y ∷ ys) e = cc
same_text_sound (x ∷ xs) [] e = cc
same_text_sound (x ∷ xs) (y ∷ ys) e = ground (arith, same_text_sound xs ys)

module _ {K V : Type 0} (same : K → K → Bool) (sound : (a b : K) → same a b ≡ true → a ≡ b) where
  get-put :
      (k j : K) (v : V) (m : List (K × V))
      → get same j (put same k v m) ≡ (if same j k then some v else get same j m)
  get-put k j v [] = refl
  get-put k j v (e ∷ es) = go (same e.0 k) refl (get-put k j v es)
    where
      go :
          (b : Bool)
          → same e.0 k ≡ b
          → get same j (put same k v es) ≡ (if same j k then some v else get same j es)
          → get same j (if b then (e.0, v) ∷ es else e ∷ put same k v es)
            ≡ (if same j k then some v else get same j (e ∷ es))
      go true h rest = ground (arith, sound e.0 k, sound j k, sound j e.0)
      go false h rest = ground (arith, sound e.0 k, sound j k, sound j e.0)

-- A participant's own key.
abbrev pub own_key : Bytes → ℕ → Provider → Option Bytes
own_key participant index p =
    get ◌==◌ index (keys_of (get same_text participant p.participant_keys))

-- The shared key that stands in for it.
abbrev pub fallback : ℕ → Provider → Bytes
fallback index p = if p.shared_key then export_shared_key index p else []

export_key_lem :
    (participant : Bytes) (index : ℕ) (p : Provider)
    → export_key participant index p ≡ key_or (own_key participant index p) (fallback index p)
unfolding export_key
export_key_lem participant index p = ground arith

own_key-set_key :
    (q : Bytes) (j : ℕ) (participant : Bytes) (index : ℕ) (key : Bytes) (p : Provider)
    → own_key q j (set_key participant index key p).1
      ≡ (if same_text q participant && (j == index) then some key else own_key q j p)
unfolding set_key
own_key-set_key q j participant index key p =
    ap (λ o. get ◌==◌ j (keys_of o))
      (get-put same_text same_text_sound participant q _ p.participant_keys)
    ∙ go (same_text q participant) refl
  where
    old : List (ℕ × Bytes)
    old = keys_of (get same_text participant p.participant_keys)

    go :
        (b : Bool)
        → same_text q participant ≡ b
        → get ◌==◌ j (
            keys_of
              (if b then some (put ◌==◌ index key old) else get same_text q p.participant_keys))
          ≡ (if b && (j == index) then some key else own_key q j p)
    go false e = refl
    go true e =
        get-put ◌==◌ (λ x y h. ground arith) index j key old
        ∙ ap (λ r. if j == index then some key else own_key r j p)
            (sym (same_text_sound q participant e))

-- A client's call that may change keys.
pub data Call : Type 0 where
  sets : Bytes → ℕ → Bytes → Call
  shares : ℕ → Bytes → Call
  ratchets : Bytes → ℕ → Call
  ratchets_shared : ℕ → Call

abbrev pub perform : Call → Provider → Provider
perform (sets participant index key) p = (set_key participant index key p).1
perform (shares index key) p = (set_shared_key index key p).1
perform (ratchets participant index) p = (ratchet_key participant index p).1
perform (ratchets_shared index) p = (ratchet_shared_key index p).1

abbrev pub run : List Call → Provider → Provider
run [] p = p
run (c ∷ cs) p = run cs (perform c p)

-- The key that the calls set last for a participant and an index, over an earlier one.
abbrev pub last_set : Bytes → ℕ → Option Bytes → List Call → Option Bytes
last_set q j k [] = k
last_set q j k (sets participant index key ∷ cs) =
    last_set q j (if same_text q participant && (j == index) then some key else k) cs
last_set q j k (c ∷ cs) = last_set q j k cs

-- The shared key that they set last for an index.
abbrev pub last_shared : ℕ → Option Bytes → List Call → Option Bytes
last_shared j k [] = k
last_shared j k (shares index key ∷ cs) = last_shared j (if j == index then some key else k) cs
last_shared j k (c ∷ cs) = last_shared j k cs

abbrev shared_at : ℕ → Provider → Option Bytes
shared_at j p = get ◌==◌ j p.shared_keys

run-own_key :
    (q : Bytes) (j : ℕ) (cs : List Call) (p : Provider)
    → own_key q j (run cs p) ≡ last_set q j (own_key q j p) cs
unfolding set_shared_key ratchet_key ratchet_shared_key
run-own_key q j [] p = refl
run-own_key q j (sets participant index key ∷ cs) p =
    run-own_key q j cs _ ∙ ap (λ k. last_set q j k cs) (own_key-set_key q j participant index key p)
run-own_key q j (shares index key ∷ cs) p = run-own_key q j cs _
run-own_key q j (ratchets participant index ∷ cs) p = run-own_key q j cs p
run-own_key q j (ratchets_shared index ∷ cs) p = run-own_key q j cs p

run-shared_at :
    (j : ℕ) (cs : List Call) (p : Provider)
    → shared_at j (run cs p) ≡ last_shared j (shared_at j p) cs
unfolding set_key set_shared_key ratchet_key ratchet_shared_key
run-shared_at j [] p = refl
run-shared_at j (sets participant index key ∷ cs) p = run-shared_at j cs _
run-shared_at j (shares index key ∷ cs) p =
    run-shared_at j cs _
    ∙ ap (λ k. last_shared j k cs) (get-put ◌==◌ (λ x y h. ground arith) index j key p.shared_keys)
run-shared_at j (ratchets participant index ∷ cs) p = run-shared_at j cs p
run-shared_at j (ratchets_shared index ∷ cs) p = run-shared_at j cs p

run-shared_key : (cs : List Call) (p : Provider) → (run cs p).shared_key ≡ p.shared_key
unfolding set_key set_shared_key ratchet_key ratchet_shared_key
run-shared_key [] p = refl
run-shared_key (sets participant index key ∷ cs) p = run-shared_key cs _
run-shared_key (shares index key ∷ cs) p = run-shared_key cs _
run-shared_key (ratchets participant index ∷ cs) p = run-shared_key cs p
run-shared_key (ratchets_shared index ∷ cs) p = run-shared_key cs p

-- Whether a provider is created for shared keys.
abbrev pub shares_keys : Option Bool → Bool
shares_keys none = false
shares_keys (some b) = b

created-shares_keys : (o : Option Bool) → (create_provider o).shared_key ≡ shares_keys o
unfolding create_provider
created-shares_keys none = refl
created-shares_keys (some b) = refl

-- The shared key of an index behind any calls on a new provider, or the empty key.
abbrev pub shared_or_empty : ℕ → List Call → Bytes
shared_or_empty j cs = key_or (last_shared j none cs) []

-- Behind any calls on a new provider it exports, for a participant and an index, the key that was set last for
-- both; if none was, and the provider was created for shared keys, the shared key that was set last for the
-- index; and else the empty key. As the shared key of an index it exports the one that was set last, or the
-- empty key. Ratcheting a key gives just what exporting it gives, and changes nothing.
pub export_key-run :
    (options : Option Bool) (cs : List Call) (q : Bytes) (j : ℕ)
    → (export_key q j (run cs (create_provider options))
        ≡ key_or (last_set q j none cs) (if shares_keys options then shared_or_empty j cs else []))
      × (export_shared_key j (run cs (create_provider options)) ≡ shared_or_empty j cs)
      × (ratchet_key q j (run cs (create_provider options))
          ≡ (export_key q j (run cs (create_provider options)), run cs (create_provider options)))
      × (ratchet_shared_key j (run cs (create_provider options)) ≡ (
        export_shared_key j (run cs (create_provider options)),
        run cs (create_provider options),
      ))
unfolding ratchet_key ratchet_shared_key create_provider export_shared_key
export_key-run options cs q j = (
  export_key_lem q j (run cs new)
      ∙ ap (λ o. key_or o (fallback j (run cs new))) own
      ∙ ap (λ b. key_or (last_set q j none cs) (if b then export_shared_key j (run cs new) else []))
          (run-shared_key cs new ∙ created-shares_keys options)
      ∙ ap (λ s. key_or (last_set q j none cs) (if shares_keys options then s else [])) exported,
  exported,
  refl,
  refl,
)
  where
    new : Provider
    new = create_provider options

    own : own_key q j (run cs new) ≡ last_set q j none cs
    own = run-own_key q j cs new

    exported : export_shared_key j (run cs new) ≡ shared_or_empty j cs
    exported = ap (λ k. key_or k []) (run-shared_at j cs new)
