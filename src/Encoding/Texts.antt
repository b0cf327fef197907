-- ===== src/Encoding/Texts.antt =====
-- The texts of a sender's and a receiver's encodings, native/src/lumenrtc_impl.cpp, and the calls on a
-- receiver that read its encodings as those on a sender do. A sender or receiver is the parameters that
-- WebRTC gives for it.
use lumen_rtc.Base.{
  ℕ, ◌+◌, ◌<◌, ◌^◌, ◌≡◌, ap, sym, ◌∙◌, [], ◌∷◌, Option, none, some, false, length, get_elem?,
  get_elem?-set_self, elem, set, ℤ, pos, negsuc, Bool,
}
use lumen_rtc.Text.{Bytes, c_string}
use lumen_rtc.Text.Copy.{copy_string, copy_string_two_calls}
use lumen_rtc.Encoding.{Native, Settings, Encoding, apply_settings, given}
use lumen_rtc.Encoding.Fields.{apply_settings_lem, fieldwise, or_else}
use lumen_rtc.Encoding.Calls.{
  Parameters, Info, set_encoding_parameters_at, encoding_count, get_encoding_info,
  get_degradation_preference,
}
use lumen_rtc.Encoding.Laws.{accepted-stored, encodings_with, get_elem?-some}

abbrev text_of : Option Bytes → Bytes
text_of none = []
text_of (some t) = t

module _ (W : Native) where
  -- A text of the encoding at the index; -1 with the buffer as it was where there is none.
  abbrev copy_text :
      (Encoding W.D → Bytes) → Option (Parameters W.D) → ℕ → Option Bytes → ℕ → ℤ × Option Bytes
  copy_text text none index buffer len = (negsuc 0, buffer)
  copy_text text (some p) index buffer len = elim (get_elem? p.encodings index) [
    | none ↦ (negsuc 0, buffer)
    | some e ↦ copy_string (text e) buffer len
  ]

  -- lrtc_impl_rtp_sender_get_encoding_rid.
  unfoldable pub get_encoding_rid :
      Option (Parameters W.D) → ℕ → Option Bytes → ℕ → ℤ × Option Bytes
  get_encoding_rid = copy_text (λ (e : Encoding W.D). e.rid)

  -- lrtc_impl_rtp_sender_get_encoding_scalability_mode.
  unfoldable pub get_encoding_scalability_mode :
      Option (Parameters W.D) → ℕ → Option Bytes → ℕ → ℤ × Option Bytes
  get_encoding_scalability_mode = copy_text (λ (e : Encoding W.D). text_of e.scalability_mode)

  -- lrtc_impl_rtp_receiver_get_encoding_rid.
  unfoldable pub receiver_encoding_rid :
      Option (Parameters W.D) → ℕ → Option Bytes → ℕ → ℤ × Option Bytes
  receiver_encoding_rid = copy_text (λ (e : Encoding W.D). e.rid)

  -- lrtc_impl_rtp_receiver_get_encoding_scalability_mode.
  unfoldable pub receiver_encoding_scalability_mode :
      Option (Parameters W.D) → ℕ → Option Bytes → ℕ → ℤ × Option Bytes
  receiver_encoding_scalability_mode = copy_text (λ (e : Encoding W.D). text_of e.scalability_mode)

  -- lrtc_impl_rtp_receiver_encoding_count, _get_encoding_info and _get_degradation_preference.
  unfoldable pub receiver_encoding_count : Option (Parameters W.D) → ℕ
  unfolding encoding_count
  receiver_encoding_count = encoding_count W

  unfoldable pub receiver_encoding_info : Option (Parameters W.D) → ℕ → Option (Info W)
  unfolding get_encoding_info
  receiver_encoding_info = get_encoding_info W

  unfoldable pub receiver_degradation_preference : Option (Parameters W.D) → Option ℕ
  unfolding get_degradation_preference
  receiver_degradation_preference = get_degradation_preference W

  mode-at :
      (q : Parameters W.D) (i : ℕ) {e : Encoding W.D}
      → get_elem? q.encodings i ≡ some e
      → (b : Option Bytes) (len : ℕ)
      → get_encoding_scalability_mode (some q) i b len
        ≡ copy_string (text_of e.scalability_mode) b len
  unfolding get_encoding_scalability_mode
  mode-at q i g b len = rw (g, copy_text)

  mode-applied :
      (s : Settings W.D) (e : Encoding W.D) (c : ℕ) (cs : Bytes)
      → s.scalability_mode ≡ some (c ∷ cs)
      → text_of (apply_settings W s e).scalability_mode ≡ c ∷ cs
  unfolding fieldwise
  mode-applied s e c cs h =
      ap (λ (x : Encoding W.D). text_of x.scalability_mode) (apply_settings_lem W s e)
      ∙ ap (λ o. text_of (or_else (given o) e.scalability_mode)) h

  -- A client that sets the scalability mode of an encoding of the list, a text that is not empty, has no NUL
  -- and is shorter than 2^31 - 1 bytes, with an answer of 1, reads it back with the two calls: the first
  -- one, with a null buffer, answers with a size, and the second one, for any buffer of that size, leaves the
  -- text in it.
  pub get_mode-set_at :
      (accepts : Parameters W.D → Parameters W.D → Bool) (s : Settings W.D) (p q : Parameters W.D)
      (i c : ℕ) (cs buffer : Bytes) (size : ℕ)
      → i < length p.encodings
      → s.scalability_mode ≡ some (c ∷ cs)
      → length (c ∷ cs) + 1 < 2 ^ 31
      → elem 0 (c ∷ cs) ≡ false
      → set_encoding_parameters_at W accepts (some p) i (some s) ≡ (1, some q)
      → (get_encoding_scalability_mode (some q) i none 0).0 ≡ pos size
      → (b : Bytes) × (get_encoding_scalability_mode (some q) i (some buffer) size
          ≡ (pos (length (c ∷ cs)), some b))
        × (c_string b ≡ c ∷ cs)
  get_mode-set_at accepts s p q i c cs buffer size h r l n one first =
      let (e, g) = get_elem?-some W accepts s p.encodings i h in
      let two =
        copy_string_two_calls (c ∷ cs) buffer size l n
          (ap (λ x. x.0) (sym (read e g none 0)) ∙ first) in
      (two.0, read e g (some buffer) size ∙ two.1, two.2)
    where
      read :
          (e : Encoding W.D)
          → get_elem? p.encodings i ≡ some e
          → (b : Option Bytes) (len : ℕ)
          → get_encoding_scalability_mode (some q) i b len ≡ copy_string (c ∷ cs) b len
      read e g b len =
          mode-at q i
            (ap (λ (x : Parameters W.D). get_elem? x.encodings i)
                (accepted-stored W accepts s p q i e g h one)
              ∙ ap (λ es. get_elem? es i)
                  (encodings_with W accepts s p (set p.encodings i (apply_settings W s e)))
              ∙ get_elem?-set_self p.encodings i (apply_settings W s e) h)
            b len
          ∙ ap (λ t. copy_string t b len) (mode-applied s e c cs r)
