-- ===== src/Json/RoundTrip.antt =====
-- The documents that the library writes, read again.
use lumen_rtc.Base.{
  ℕ, zero, suc, ◌+◌, ◌≤◌, ◌≡◌, refl, ◌∙◌, sym, ap, arith, true, false, [], ◌∷◌, ◌++◌, some,
  append_assoc,
}
use lumen_rtc.Text.{Bytes}
use lumen_rtc.Json.Value.{
  Value, null, num, bool, str, arr, obj, Items, nil, cons, Fields, end, field, render, render_items,
  render_fields,
}
use lumen_rtc.Json.Numbers.{NoDigit}
use lumen_rtc.Json.Parser.{
  ◌>>=◌, skip, token, parse, parse_items, more_items, parse_fields, more_fields, parse_field,
}
use lumen_rtc.Json.Steps.{
  size, size_items, size_fields, Writable, WritableItems, WritableFields, first_byte, items_NoDigit,
  fields_NoDigit, item_step, first_step, field_step, field_text, read_key, number-render,
  read_quoted,
}

mutual
  unfolding parse render size Writable token skip

  pub parse-render :
      (f : ℕ) (v : Value) (rest : Bytes)
      → size v ≤ f
      → Writable v
      → NoDigit rest
      → parse f (render v ++ rest) ≡ some (v, rest)
  parse-render zero null rest h w d = absurd (omega (arith, h))
  parse-render zero (num n) rest h w d = absurd (omega (arith, h))
  parse-render zero (bool b) rest h w d = absurd (omega (arith, h))
  parse-render zero (str s) rest h w d = absurd (omega (arith, h))
  parse-render zero (arr xs) rest h w d = absurd (omega (arith, h))
  parse-render zero (obj fs) rest h w d = absurd (omega (arith, h))
  parse-render (suc f) null rest h w d = refl
  parse-render (suc f) (num n) rest h w d = number-render f n rest d
  parse-render (suc f) (bool true) rest h w d = refl
  parse-render (suc f) (bool false) rest h w d = refl
  parse-render (suc f) (str s) rest h w d =
      ap (λ o. o >>= λ r. some (str r.0, r.1)) (read_quoted s rest w)
  parse-render (suc f) (arr xs) rest h w d =
      ap (λ o. o >>= λ r. some (arr r.0, r.1))
        (ap (parse_items f) (append_assoc (render_items false xs) (b']' ∷ []) rest)
          ∙ parse_items-render f xs rest (omega (arith, h)) w)
  parse-render (suc f) (obj fs) rest h w d =
      ap (λ o. o >>= λ r. some (obj r.0, r.1))
        (ap (parse_fields f) (append_assoc (render_fields false fs) (b'}' ∷ []) rest)
          ∙ parse_fields-render f fs rest (omega (arith, h)) w)

  parse_items-render :
      (f : ℕ) (xs : Items) (rest : Bytes)
      → size_items xs ≤ f
      → WritableItems xs
      → parse_items f (render_items false xs ++ b']' ∷ rest) ≡ some (xs, rest)
  parse_items-render zero nil rest h w = absurd (omega (arith, h))
  parse_items-render zero (cons v xs) rest h w = absurd (omega (arith, h))
  parse_items-render (suc f) nil rest h w = refl
  parse_items-render (suc f) (cons v xs) rest h w =
      let tail : Bytes = render_items true xs ++ b']' ∷ rest in
      let b = first_byte v in
      ap (parse_items (suc f)) (append_assoc (render v) (render_items true xs) (b']' ∷ rest))
      ∙ ap (λ t. parse_items (suc f) (t ++ tail)) b.2
      ∙ first_step f b.0 (b.1 ++ tail) tail rest v xs b.3
          (ap (λ t. parse f (t ++ tail)) (sym b.2)
            ∙ parse-render f v tail (omega (arith, h)) w.0 (items_NoDigit xs rest))
          (more_items-render f xs rest (omega (arith, h)) w.1)

  more_items-render :
      (f : ℕ) (xs : Items) (rest : Bytes)
      → size_items xs ≤ f
      → WritableItems xs
      → more_items f (render_items true xs ++ b']' ∷ rest) ≡ some (xs, rest)
  more_items-render zero nil rest h w = absurd (omega (arith, h))
  more_items-render zero (cons v xs) rest h w = absurd (omega (arith, h))
  more_items-render (suc f) nil rest h w = refl
  more_items-render (suc f) (cons v xs) rest h w =
      ap (λ t. more_items (suc f) (b',' ∷ t))
        (append_assoc (render v) (render_items true xs) (b']' ∷ rest))
      ∙ item_step f _ (render_items true xs ++ b']' ∷ rest) rest v xs
          (parse-render f v _ (omega (arith, h)) w.0 (items_NoDigit xs rest))
          (more_items-render f xs rest (omega (arith, h)) w.1)

  parse_fields-render :
      (f : ℕ) (fs : Fields) (rest : Bytes)
      → size_fields fs ≤ f
      → WritableFields fs
      → parse_fields f (render_fields false fs ++ b'}' ∷ rest) ≡ some (fs, rest)
  parse_fields-render zero end rest h w = absurd (omega (arith, h))
  parse_fields-render zero (field k v fs) rest h w = absurd (omega (arith, h))
  parse_fields-render (suc f) end rest h w = refl
  parse_fields-render (suc f) (field k v fs) rest h w =
      parse_field-render f k v fs rest (omega (arith, h)) w

  more_fields-render :
      (f : ℕ) (fs : Fields) (rest : Bytes)
      → size_fields fs ≤ f
      → WritableFields fs
      → more_fields f (render_fields true fs ++ b'}' ∷ rest) ≡ some (fs, rest)
  more_fields-render zero end rest h w = absurd (omega (arith, h))
  more_fields-render zero (field k v fs) rest h w = absurd (omega (arith, h))
  more_fields-render (suc f) end rest h w = refl
  more_fields-render (suc f) (field k v fs) rest h w =
      parse_field-render f k v fs rest (omega (arith, h)) w

  parse_field-render :
      (f : ℕ) (k : Bytes) (v : Value) (fs : Fields) (rest : Bytes)
      → 1 + size v + size_fields fs ≤ f
      → WritableFields (field k v fs)
      → parse_field f (render_fields false (field k v fs) ++ b'}' ∷ rest)
        ≡ some (field k v fs, rest)
  parse_field-render zero k v fs rest h w = absurd (omega (arith, h))
  parse_field-render (suc f) k v fs rest h w =
      let tail : Bytes = render_fields true fs ++ b'}' ∷ rest in
      ap (parse_field (suc f)) (field_text k v fs rest)
      ∙ field_step f _ (render v ++ tail) tail rest k v fs (read_key k _ w.0)
          (parse-render f v tail (omega (arith, h)) w.1 (fields_NoDigit fs rest))
          (more_fields-render f fs rest (omega (arith, h)) w.2)
