-- ===== src/Capability/Split.antt =====
-- Texts that are joined and split again.
use lumen_rtc.Base.{
  ℕ, ◌≡◌, ◌≢◌, refl, sym, ap, ◌∙◌, false, List, [], ◌∷◌, ◌++◌, All, elem, arith, append_assoc,
  append-nil,
}
use lumen_rtc.Text.{Bytes}
use lumen_rtc.Capability.{split_from, last_piece, split, join}

-- A text that is not empty, without the separator.
abbrev pub Piece : ℕ → Bytes → Type 0
Piece d x = (x ≢ []) × (elem d x ≡ false)

last_piece_lem : (x : Bytes) → x ≢ [] → last_piece x ≡ x ∷ []
last_piece_lem [] h = absurd (h refl)
last_piece_lem (c ∷ cs) h = refl

split_from-separator :
    (d : ℕ) (token x rest : Bytes)
    → elem d x ≡ false
    → split_from d token (x ++ d ∷ rest) ≡ (token ++ x) ∷ split_from d [] rest
unfolding split_from
split_from-separator d token [] rest h = ground (arith, append-nil token)
split_from-separator d token (c ∷ cs) rest h =
    ground (arith, split_from-separator d (token ++ c ∷ []) cs rest, append_assoc token (c ∷ []) cs)

split_from-end :
    (d : ℕ) (token x : Bytes)
    → elem d x ≡ false
    → split_from d token x ≡ split_from d (token ++ x) []
unfolding split_from
split_from-end d token [] h = ap (λ t. split_from d t []) (sym (append-nil token))
split_from-end d token (c ∷ cs) h =
    ground (arith, split_from-end d (token ++ c ∷ []) cs, append_assoc token (c ∷ []) cs)

-- Pieces that are joined and split at the same separator come back.
pub split-join : (d : ℕ) (xs : List Bytes) → All (Piece d) xs → split (join xs d) d ≡ xs
unfolding split join
split-join d [] h = refl
split-join d (x ∷ []) h = split_from-end d [] x h.0.1 ∙ last_piece_lem x h.0.0
split-join d (x ∷ y ∷ ys) h =
    split_from-separator d [] x (join (y ∷ ys) d) h.0.1 ∙ ap (◌∷◌ x) (split-join d (y ∷ ys) h.1)

-- A text with one separator.
pub split-two :
    (d : ℕ) (x y : Bytes) → elem d x ≡ false → Piece d y → split (x ++ d ∷ y) d ≡ x ∷ y ∷ []
unfolding split
split-two d x y h p =
    split_from-separator d [] x y h ∙ ap (◌∷◌ x) (split_from-end d [] y p.1 ∙ last_piece_lem y p.0)

-- Where the separator is the text's last byte, there is one piece only.
pub split-one : (d : ℕ) (x : Bytes) → elem d x ≡ false → split (x ++ d ∷ []) d ≡ x ∷ []
unfolding split
split-one d x h = split_from-separator d [] x [] h
