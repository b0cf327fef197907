-- ===== src/Json/Value.antt =====
-- JSON values and how they are written with no spaces.
use lumen_rtc.Base.{Bool, true, false, [], ◌∷◌, ◌++◌, ℤ}
use lumen_rtc.Text.{Bytes}
use lumen_rtc.Json.Escape.{escaped}
use lumen_rtc.Json.Piece.{q}
use lumen_rtc.Json.{to_string, true_or_false}

mutual
  pub data Value : Type 0 where
    null : Value
    num : ℤ → Value
    bool : Bool → Value
    str : Bytes → Value
    arr : Items → Value
    obj : Fields → Value

  pub data Items : Type 0 where
    nil : Items
    cons : Value → Items → Items

  pub data Fields : Type 0 where
    end : Fields
    field : Bytes → Value → Fields → Fields

abbrev pub quoted : Bytes → Bytes
quoted s = q ∷ (escaped s ++ q ∷ [])

unfoldable mutual
  -- The flag says that an element stands before.
  pub render : Value → Bytes
  render null = b'n' ∷ b'u' ∷ b'l' ∷ b'l' ∷ []
  render (num n) = to_string n
  render (bool b) = true_or_false b
  render (str s) = quoted s
  render (arr xs) = b'[' ∷ (render_items false xs ++ b']' ∷ [])
  render (obj fs) = b'{' ∷ (render_fields false fs ++ b'}' ∷ [])

  pub render_items : Bool → Items → Bytes
  render_items more nil = []
  render_items true (cons v xs) = b',' ∷ (render v ++ render_items true xs)
  render_items false (cons v xs) = render v ++ render_items true xs

  pub render_fields : Bool → Fields → Bytes
  render_fields more end = []
  render_fields true (field k v fs) =
      b',' ∷ (quoted k ++ b':' ∷ (render v ++ render_fields true fs))
  render_fields false (field k v fs) = quoted k ++ b':' ∷ (render v ++ render_fields true fs)
