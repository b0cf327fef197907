-- ===== src/Renderers/Senders.antt =====
-- Who gets an audio frame.
use lumen_rtc.Base.{
  ℕ, ◌≡◌, ◌+◌, ◌≤◌, refl, ◌∙◌, arith, false, List, [], ◌∷◌, ◌++◌, if◌then◌else◌, ◌==◌, count,
}
use lumen_rtc.Renderers.{
  Sent, copies, without, send_audio_data, add_audio_sender, remove_audio_sender,
}

abbrev pub receivers : List Sent → List ℕ
receivers [] = []
receivers (s ∷ ss) = s.sender ∷ receivers ss

-- How often the frame itself is handed on.
abbrev pub originals : List Sent → ℕ
originals [] = 0
originals (s ∷ ss) = (if s.copied then 0 else 1) + originals ss

count-copies :
    (s : ℕ) (ss : List ℕ) (x : Sent)
    → count s (receivers (copies ss ++ x ∷ [])) ≡ count s ss + (if s == x.sender then 1 else 0)
count-copies s [] x = ground arith
count-copies s (y ∷ ys) x = ground (arith, count-copies s ys x)

originals-copies :
    (ss : List ℕ) (x : Sent) → originals (copies ss ++ x ∷ []) ≡ (if x.copied then 0 else 1)
originals-copies [] x = ground arith
originals-copies (y ∷ ys) x = ground (arith, originals-copies ys x)

count-append :
    (s : ℕ) (ss : List ℕ) (x : ℕ) → count s (ss ++ x ∷ []) ≡ count s ss + (if s == x then 1 else 0)
count-append s [] x = ground arith
count-append s (y ∷ ys) x = ground (arith, count-append s ys x)

count-without :
    (s r : ℕ) (ss : List ℕ) → count s (without r ss) ≡ (if s == r then 0 else count s ss)
count-without s r [] = ground arith
count-without s r (x ∷ xs) = ground (arith, count-without s r xs)

each : (s : ℕ) (senders : List ℕ) → count s (receivers (send_audio_data senders)) ≡ count s senders
unfolding send_audio_data
each s [] = refl
each s (x ∷ xs) = ground (arith, count-copies s xs (record { sender = x; copied = false }))

once : (senders : List ℕ) → originals (send_audio_data senders) ≤ 1
unfolding send_audio_data
once [] = omega arith
once (x ∷ xs) = ground (arith, originals-copies xs (record { sender = x; copied = false }))

-- Each sender gets a frame as often as it was added since it was last removed, and the frame itself is
-- moved at most once: to a sender, if there is one.
pub send_audio_data_lem :
    (s x : ℕ) (senders : List ℕ)
    → (count s (receivers (send_audio_data senders)) ≡ count s senders)
      × (originals (send_audio_data senders) ≤ 1)
      × (count s (receivers (send_audio_data (add_audio_sender x senders)))
          ≡ count s (receivers (send_audio_data senders)) + (if s == x then 1 else 0))
      × (count s (receivers (send_audio_data (remove_audio_sender x senders)))
          ≡ (if s == x then 0 else count s (receivers (send_audio_data senders))))
unfolding add_audio_sender remove_audio_sender
send_audio_data_lem s x senders = (
  each s senders,
  once senders,
  each s (senders ++ x ∷ []) ∙ ground (arith, count-append s senders x, each s senders),
  each s (without x senders) ∙ ground (arith, count-without s x senders, each s senders),
)
