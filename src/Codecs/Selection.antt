-- ===== src/Codecs/Selection.antt =====
-- What BuildCodecPreferences selects, against a description by lists: every match of each MIME type
-- in turn, and of these the first of each object.
use lumen_rtc.Base.{
  ℕ, zero, suc, ◌≡◌, refl, sym, ap, ◌∙◌, ◌⊎◌, inl, inr, true, false, List, [], ◌∷◌, ◌++◌, map,
  Option, none, some, arith, if◌then◌else◌, ◌==◌, elem, In, In-append_cases, In-append_left,
  In-append_right, Distinct, append_assoc, append-nil, Bool-cases,
}
use lumen_rtc.Text.{Bytes, mime_equals, non_null, build_string_vector}
use lumen_rtc.Codecs.{
  Codec, Selected, nothing_selected, insert_new, select_mime, select_all, build_codec_preferences,
}

abbrev pub addresses : List Codec → List ℕ
addresses = map (λ c. c.address)

-- The codecs of a MIME type, in the order of the capabilities.
abbrev pub matches : Bytes → List (Option Codec) → List Codec
matches mime [] = []
matches mime (none ∷ codecs) = matches mime codecs
matches mime (some c ∷ codecs) =
    if mime_equals c.mime_type (some mime) then c ∷ matches mime codecs else matches mime codecs

-- Those of each MIME type in turn.
abbrev pub all_matches : List Bytes → List (Option Codec) → List Codec
all_matches [] codecs = []
all_matches (mime ∷ mimes) codecs = matches mime codecs ++ all_matches mimes codecs

-- Without the objects that `seen` has or that came before.
abbrev pub unseen : List ℕ → List Codec → List Codec
unseen seen [] = []
unseen seen (c ∷ cs) =
    let later = unseen (c.address ∷ seen) cs in
    let rest = unseen seen cs in if elem c.address seen then rest else c ∷ later

-- One object after the other, as the loops do it.
insert_each : List Codec → Selected → Selected
insert_each [] s = s
insert_each (c ∷ cs) s = insert_each cs (insert_new c s)

insert_each-append :
    (xs ys : List Codec) (s : Selected)
    → insert_each (xs ++ ys) s ≡ insert_each ys (insert_each xs s)
unfolding insert_each
insert_each-append [] ys s = refl
insert_each-append (x ∷ xs) ys s = insert_each-append xs ys (insert_new x s)

select_mime_lem :
    (mime : Bytes) (codecs : List (Option Codec)) (s : Selected)
    → select_mime mime codecs s ≡ insert_each (matches mime codecs) s
unfolding select_mime insert_each
select_mime_lem mime [] s = refl
select_mime_lem mime (none ∷ codecs) s = select_mime_lem mime codecs s
select_mime_lem mime (some c ∷ codecs) s = elim (Bool-cases (mime_equals c.mime_type (some mime))) [
  | inl hit ↦ rw hit (select_mime_lem mime codecs (insert_new c s))
  | inr miss ↦ rw miss (select_mime_lem mime codecs s)
]

select_all_lem :
    (count : ℕ) (mimes : List (Option Bytes)) (codecs : List (Option Codec)) (s : Selected)
    → select_all count mimes codecs s ≡ insert_each (all_matches (non_null count mimes) codecs) s
unfolding select_all non_null insert_each
select_all_lem zero mimes codecs s = refl
select_all_lem (suc count) [] codecs s = refl
select_all_lem (suc count) (none ∷ mimes) codecs s = select_all_lem count mimes codecs s
select_all_lem (suc count) (some mime ∷ mimes) codecs s =
    select_all_lem count mimes codecs (select_mime mime codecs s)
    ∙ ap (insert_each (all_matches (non_null count mimes) codecs)) (select_mime_lem mime codecs s)
    ∙ sym (insert_each-append (matches mime codecs) _ s)

appended : Codec → Selected → Selected
appended c s = record { selected = s.selected ++ c ∷ []; seen = c.address ∷ s.seen }

insert_old : (c : Codec) (s : Selected) → elem c.address s.seen ≡ true → insert_new c s ≡ s
insert_old c s h = rw h

insert_fresh :
    (c : Codec) (s : Selected) → elem c.address s.seen ≡ false → insert_new c s ≡ appended c s
unfolding appended
insert_fresh c s h = rw h

insert_each_lem :
    (cs : List Codec) (s : Selected) → (insert_each cs s).selected ≡ s.selected ++ unseen s.seen cs
unfolding insert_each appended
insert_each_lem [] s = sym (append-nil s.selected)
insert_each_lem (c ∷ cs) s = elim (Bool-cases (elem c.address s.seen)) [
  | inl old ↦
      ap (λ t. (insert_each cs t).selected) (insert_old c s old) ∙ rw old (insert_each_lem cs s)
  | inr new ↦
      ap (λ t. (insert_each cs t).selected) (insert_fresh c s new)
      ∙ insert_each_lem cs (appended c s)
      ∙ rw new (append_assoc s.selected (c ∷ []) _)
]

-- BuildCodecPreferences is: the codecs of the first MIME type in the order of the capabilities, then
-- those of the second, and so on, each object where it comes first. Null MIME types and null codecs
-- count for nothing.
pub build_codec_preferences_lem :
    (codecs : List (Option Codec)) (mimes : Option (List (Option Bytes))) (count : ℕ)
    → build_codec_preferences codecs mimes count
      ≡ unseen [] (all_matches (build_string_vector mimes count) codecs)
unfolding build_codec_preferences build_string_vector
build_codec_preferences_lem codecs none count = refl
build_codec_preferences_lem codecs (some mimes) count = elim (Bool-cases (count == 0)) [
  | inl z ↦ rw z
  | inr nz ↦ rw nz (
      ap (λ (s : Selected). s.selected) (select_all_lem count mimes codecs nothing_selected)
      ∙ insert_each_lem (all_matches (non_null count mimes) codecs) nothing_selected)
]

unseen-new :
    (a : ℕ) (seen : List ℕ) (cs : List Codec)
    → elem a seen ≡ true
    → elem a (addresses (unseen seen cs)) ≡ false
unseen-new a seen [] h = refl
unseen-new a seen (c ∷ cs) h =
    ground (arith, unseen-new a seen cs, unseen-new a (c.address ∷ seen) cs)

unseen-Distinct : (seen : List ℕ) (cs : List Codec) → Distinct (addresses (unseen seen cs))
unseen-Distinct seen [] = tt
unseen-Distinct seen (c ∷ cs) = elim (Bool-cases (elem c.address seen)) [
  | inl old ↦ rw old (unseen-Distinct seen cs)
  | inr new ↦ rw new (
    unseen-new c.address (c.address ∷ seen) cs (ground arith),
    unseen-Distinct (c.address ∷ seen) cs,
  )
]

-- No codec object is selected twice, whatever the client lists.
pub preferences-Distinct :
    (codecs : List (Option Codec)) (mimes : Option (List (Option Bytes))) (count : ℕ)
    → Distinct (addresses (build_codec_preferences codecs mimes count))
preferences-Distinct codecs mimes count =
    rw (build_codec_preferences_lem codecs mimes count)
      (unseen-Distinct [] (all_matches (build_string_vector mimes count) codecs))

unseen_sound : (seen : List ℕ) (cs : List Codec) (c : Codec) → In c (unseen seen cs) → In c cs
unseen_sound seen [] c m = absurd m
unseen_sound seen (x ∷ xs) c m = elim (Bool-cases (elem x.address seen)) [
  | inl old ↦ inr (unseen_sound seen xs c (rw old at m))
  | inr new ↦
      let m' : (c ≡ x) ⊎ In c (unseen (x.address ∷ seen) xs) = rw new at m in
      elim m' [ inl e ↦ inl e | inr later ↦ inr (unseen_sound (x.address ∷ seen) xs c later) ]
]

unseen_complete :
    (seen : List ℕ) (cs : List Codec) (c : Codec)
    → In c cs
    → elem c.address seen ≡ false
    → elem c.address (addresses (unseen seen cs)) ≡ true
unseen_complete seen [] c m h = absurd m
unseen_complete seen (x ∷ xs) c (inl e) h = rw (← e) (rw h (ground arith))
unseen_complete seen (x ∷ xs) c (inr m) h =
    ground (arith, unseen_complete seen xs c m, unseen_complete (x.address ∷ seen) xs c m)

-- A codec of the capabilities that some listed MIME type fits.
abbrev pub Wanted : Codec → List Bytes → List (Option Codec) → Type 0
Wanted c mimes codecs =
    In (some c) codecs
    × ((mime : Bytes) × In mime mimes × (mime_equals c.mime_type (some mime) ≡ true))

matches_sound :
    (mime : Bytes) (codecs : List (Option Codec)) (c : Codec)
    → In c (matches mime codecs)
    → In (some c) codecs × (mime_equals c.mime_type (some mime) ≡ true)
matches_sound mime [] c m = absurd m
matches_sound mime (none ∷ codecs) c m = let (i, e) = matches_sound mime codecs c m in (inr i, e)
matches_sound mime (some x ∷ codecs) c m = elim (Bool-cases (mime_equals x.mime_type (some mime))) [
  | inl hit ↦
      let m' : (c ≡ x) ⊎ In c (matches mime codecs) = rw hit at m in
      elim m' [
        | inl e ↦ (inl (ap some e), rw e hit)
        | inr later ↦ let (i, e) = matches_sound mime codecs c later in (inr i, e)
      ]
  | inr miss ↦ let (i, e) = matches_sound mime codecs c (rw miss at m) in (inr i, e)
]

matches_complete :
    (mime : Bytes) (codecs : List (Option Codec)) (c : Codec)
    → In (some c) codecs
    → mime_equals c.mime_type (some mime) ≡ true
    → In c (matches mime codecs)
matches_complete mime [] c m h = absurd m
matches_complete mime (none ∷ codecs) c (inl e) h = cc
matches_complete mime (none ∷ codecs) c (inr m) h = matches_complete mime codecs c m h
matches_complete mime (some x ∷ codecs) c (inl e) h =
    let e' : c ≡ x = cc in rw (← e') (rw h (inl refl))
matches_complete mime (some x ∷ codecs) c (inr m) h =
    elim (Bool-cases (mime_equals x.mime_type (some mime))) [
      | inl hit ↦ rw hit (inr (matches_complete mime codecs c m h))
      | inr miss ↦ rw miss (matches_complete mime codecs c m h)
    ]

all_matches_sound :
    (mimes : List Bytes) (codecs : List (Option Codec)) (c : Codec)
    → In c (all_matches mimes codecs)
    → Wanted c mimes codecs
all_matches_sound [] codecs c m = absurd m
all_matches_sound (mime ∷ mimes) codecs c m =
    elim (In-append_cases c (matches mime codecs) (all_matches mimes codecs) m) [
      | inl here ↦ let (i, e) = matches_sound mime codecs c here in (i, (mime, inl refl, e))
      | inr later ↦ let (i, w) = all_matches_sound mimes codecs c later in (i, (w.0, inr w.1, w.2))
    ]

all_matches_complete :
    (mimes : List Bytes) (codecs : List (Option Codec)) (c : Codec) (mime : Bytes)
    → In (some c) codecs
    → In mime mimes
    → mime_equals c.mime_type (some mime) ≡ true
    → In c (all_matches mimes codecs)
all_matches_complete [] codecs c mime m i h = absurd i
all_matches_complete (x ∷ mimes) codecs c mime m (inl e) h =
    In-append_left c _ _ (matches_complete x codecs c m (rw (← e) h))
all_matches_complete (x ∷ mimes) codecs c mime m (inr i) h =
    In-append_right c (matches x codecs) _ (all_matches_complete mimes codecs c mime m i h)

-- Every selected codec is one of the capabilities and fits a listed MIME type; and the object of
-- every codec of the capabilities that fits a listed MIME type is selected.
pub preferences_sound_complete :
    (codecs : List (Option Codec)) (mimes : Option (List (Option Bytes))) (count : ℕ) (c : Codec)
    → (In c (build_codec_preferences codecs mimes count)
        → Wanted c (build_string_vector mimes count) codecs)
      × (Wanted c (build_string_vector mimes count) codecs
          → elem c.address (addresses (build_codec_preferences codecs mimes count)) ≡ true)
preferences_sound_complete codecs mimes count c =
    rw (build_codec_preferences_lem codecs mimes count) (
      (λ m. all_matches_sound listed codecs c (unseen_sound [] (all_matches listed codecs) c m)),
      λ (i, (mime, j, e)).
          unseen_complete [] (all_matches listed codecs) c
            (all_matches_complete listed codecs c mime i j e) refl,
    )
  where
    listed : List Bytes
    listed = build_string_vector mimes count
