-- ===== src/Capability/Fmtp.antt =====
-- The round trip of a codec's parameters through their text, and the texts that have none.
use lumen_rtc.Base.{
  ℕ, ◌≡◌, ◌≢◌, refl, sym, ap, ◌∙◌, true, false, List, [], ◌∷◌, ◌++◌, none, some, All, All-append,
  elem, arith, append_assoc, append-nil,
}
use lumen_rtc.Text.{Bytes}
use lumen_rtc.Capability.{
  less, Parameters, insert, entry_text, entry_texts, sdp_fmtp_line, set_parameter, set_parameters,
  set_sdp_fmtp_line,
}
use lumen_rtc.Capability.Split.{Piece, split-join, split-two, split-one}

-- No separator in a text.
abbrev pub Plain : Bytes → Type 0
Plain t = (elem b';' t ≡ false) × (elem b'=' t ≡ false)

-- A parameter's key, which may be empty, and its value, which may not.
abbrev pub Entry : Bytes × Bytes → Type 0
Entry e = Plain e.0 × Plain e.1 × (e.1 ≢ [])

-- The keys ascend, as a std::map has them.
abbrev pub Ascending : Parameters → Type 0
Ascending [] = Unit
Ascending (e ∷ es) = All (λ f. less e.0 f.0 ≡ true) es × Ascending es

less-asym : (a b : Bytes) → less a b ≡ true → less b a ≡ false
unfolding less
less-asym [] [] h = cc
less-asym [] (b ∷ bs) h = refl
less-asym (a ∷ as') [] h = cc
less-asym (a ∷ as') (b ∷ bs) h = ground (arith, less-asym as' bs)

insert_last :
    (k v : Bytes) (m : Parameters)
    → All (λ f. less f.0 k ≡ true) m
    → insert k v m ≡ m ++ (k, v) ∷ []
unfolding insert
insert_last k v [] h = refl
insert_last k v ((j, w) ∷ m) h =
    let before = less-asym j k h.0 in ground (arith, insert_last k v m, h.0, h.1, before)

elem-append : (d : ℕ) (x y : Bytes) → elem d x ≡ false → elem d y ≡ false → elem d (x ++ y) ≡ false
elem-append d [] y h k = k
elem-append d (c ∷ cs) y h k = ground (arith, elem-append d cs y)

entry_text-Piece : (e : Bytes × Bytes) → Entry e → Piece b';' (entry_text e)
unfolding entry_text
entry_text-Piece ([], v) h = (h.2, h.1.0)
entry_text-Piece (c ∷ cs, v) h =
    ((λ e. cc), elem-append b';' (c ∷ cs) (b'=' ∷ v) h.0.0 (ground (arith, h.1.0)))

has_separator : (x y : Bytes) → elem b'=' (x ++ b'=' ∷ y) ≡ true
has_separator [] y = refl
has_separator (c ∷ cs) y = ground (arith, has_separator cs y)

set_parameter-entry_text :
    (e : Bytes × Bytes) (m : Parameters)
    → Entry e
    → set_parameter (entry_text e) m ≡ some (insert e.0 e.1 m)
unfolding set_parameter entry_text
set_parameter-entry_text ([], v) m h = ground (arith, h.1.1)
set_parameter-entry_text (c ∷ cs, v) m h =
    rw (has_separator (c ∷ cs) v, split-two b'=' (c ∷ cs) v h.0.1 (h.2, h.1.1)) refl

set_parameter-no_value :
    (c : ℕ) (cs : Bytes) (m : Parameters)
    → Plain (c ∷ cs)
    → set_parameter (c ∷ (cs ++ b'=' ∷ [])) m ≡ none
unfolding set_parameter
set_parameter-no_value c cs m h = rw (has_separator (c ∷ cs) [], split-one b'=' (c ∷ cs) h.1) refl

set_parameters-some :
    (t : Bytes) (ts : List Bytes) (m m' : Parameters)
    → set_parameter t m ≡ some m'
    → set_parameters (t ∷ ts) m ≡ set_parameters ts m'
unfolding set_parameters
set_parameters-some t ts m m' h = rw (h, set_parameters) refl

set_parameters-none :
    (t : Bytes) (ts : List Bytes) (m : Parameters)
    → set_parameter t m ≡ none
    → set_parameters (t ∷ ts) m ≡ none
unfolding set_parameters
set_parameters-none t ts m h = rw (h, set_parameters) refl

All-imp :
    {P Q : Bytes × Bytes → Type 0} (m : Parameters)
    → ((f : Bytes × Bytes) → P f → Q f)
    → All P m
    → All Q m
All-imp [] i h = tt
All-imp (f ∷ fs) i h = (i f h.0, All-imp fs i h.1)

set_parameters-entry_texts :
    (es m : Parameters)
    → All Entry es
    → Ascending es
    → All (λ f. All (λ e. less f.0 e.0 ≡ true) es) m
    → set_parameters (entry_texts es) m ≡ some (m ++ es)
unfolding entry_texts set_parameters
set_parameters-entry_texts [] m h a b = ap some (sym (append-nil m))
set_parameters-entry_texts (e ∷ es) m h a b =
    set_parameters-some (entry_text e) (entry_texts es) m _ (set_parameter-entry_text e m h.0)
    ∙ ap (set_parameters (entry_texts es)) (insert_last e.0 e.1 m (All-imp m (λ f p. p.0) b))
    ∙ set_parameters-entry_texts es (m ++ e ∷ []) h.1 a.1
        (All-append _ m (e ∷ []) (All-imp m (λ f p. p.1) b) (a.0, tt))
    ∙ ap some (append_assoc m (e ∷ []) es)

entry_texts-Piece : (es : Parameters) → All Entry es → All (Piece b';') (entry_texts es)
unfolding entry_texts
entry_texts-Piece [] h = tt
entry_texts-Piece (e ∷ es) h = (entry_text-Piece e h.0, entry_texts-Piece es h.1)

-- Parameters, with keys in ascending order and without separators, and with values that are not empty and
-- without separators, come back from their text: it sets just them on a codec that has none.
pub set_sdp_fmtp_line-sdp_fmtp_line :
    (m : Parameters) → All Entry m → Ascending m → set_sdp_fmtp_line (sdp_fmtp_line m) [] ≡ some m
unfolding set_sdp_fmtp_line sdp_fmtp_line
set_sdp_fmtp_line-sdp_fmtp_line m h a =
    ap (λ ts. set_parameters ts []) (split-join b';' (entry_texts m) (entry_texts-Piece m h))
    ∙ set_parameters-entry_texts m [] h a tt

-- A parameter whose value is empty has no text that can be read: the code reads an element that is not
-- there, whatever follows and whatever the codec had.
pub empty_value_fails :
    (key : Bytes) (m rest : Parameters)
    → Plain key
    → key ≢ []
    → All Entry rest
    → set_sdp_fmtp_line (sdp_fmtp_line ((key, []) ∷ rest)) m ≡ none
unfolding set_sdp_fmtp_line sdp_fmtp_line
empty_value_fails [] m rest h k r = absurd (k refl)
empty_value_fails (c ∷ cs) m rest h k r =
    ap (λ ts. set_parameters ts m)
      (split-join b';' (entry_texts (((c ∷ cs), []) ∷ rest)) (piece, entry_texts-Piece rest r))
    ∙ set_parameters-none (c ∷ (cs ++ b'=' ∷ [])) (entry_texts rest) m
        (set_parameter-no_value c cs m h)
  where
    piece : Piece b';' (c ∷ (cs ++ b'=' ∷ []))
    piece = ((λ e. cc), elem-append b';' (c ∷ cs) (b'=' ∷ []) h.0 refl)
