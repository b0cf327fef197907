-- ===== src/Codecs/Preferences.antt =====
-- lrtc_impl_peer_connection_set_codec_preferences and _set_transceiver_codec_preferences,
-- native/src/lumenrtc_impl.cpp. What WebRTC does is a parameter: the capabilities that the factory
-- answers with. What the library does to it is the list of SetCodecPreferences calls that it makes.
use lumen_rtc.Base.{
  ℕ, ◌≡◌, refl, inl, inr, Bool, true, false, List, [], ◌∷◌, Option, none, some, arith,
  if◌then◌else◌, ◌==◌, map, Bool-cases,
}
use lumen_rtc.Text.{Bytes}
use lumen_rtc.Codecs.{Codec, build_codec_preferences}

-- RTCRtpTransceiver: its object and its media type.
pub record Transceiver : Type 0 where
  pub address : ℕ
  pub media_type : ℕ

-- `GetRtpSenderCapabilities(media_type)`; `none` is a null answer.
abbrev pub Capabilities : Type 0
Capabilities = ℕ → Option (List (Option Codec))

-- What the calls read of an lrtc_peer_connection_t: whether `ref` is set, `factory`, and
-- `ref->transceivers()`.
pub record Connection : Type 0 where
  pub open? : Bool
  pub factory : Option Capabilities
  pub transceivers : List (Option Transceiver)

-- `transceiver->SetCodecPreferences(codecs)`.
pub record Call : Type 0 where
  pub target : ℕ
  pub codecs : List Codec

-- The loop over the transceivers: the calls, and `applied`.
unfoldable pub apply_to : ℕ → List Codec → List (Option Transceiver) → Bool × List Call
apply_to media selected [] = (false, [])
apply_to media selected (none ∷ ts) = apply_to media selected ts
apply_to media selected (some t ∷ ts) =
    let (applied, calls) = apply_to media selected ts in
    if t.media_type == media
    then (true, record { target = t.address; codecs = selected } ∷ calls)
    else (applied, calls)

-- The end of lrtc_impl_peer_connection_set_codec_preferences, behind the choice of codecs.
apply_selected : ℕ → List Codec → List (Option Transceiver) → ℕ × List Call
unfolding apply_to
apply_selected media [] ts = (0, [])
apply_selected media (c ∷ cs) ts =
    let (applied, calls) = apply_to media (c ∷ cs) ts in (if applied then 1 else 0, calls)

select_from : Option (List (Option Codec)) → Option (List (Option Bytes)) → ℕ → List Codec
select_from none mimes count = []
select_from (some codecs) mimes count = build_codec_preferences codecs mimes count

-- `factory->GetRtpSenderCapabilities(media)` and the choice from its answer; nothing where there is
-- no factory or no answer, at which both calls return 0, as they do for an empty choice.
unfoldable pub selection : Option Capabilities → ℕ → Option (List (Option Bytes)) → ℕ → List Codec
unfolding select_from
selection none media mimes count = []
selection (some caps) media mimes count = select_from (caps media) mimes count

-- lrtc_impl_peer_connection_set_codec_preferences.
unfoldable pub set_codec_preferences :
    Option Connection → ℕ → Option (List (Option Bytes)) → ℕ → ℕ × List Call
unfolding apply_selected
set_codec_preferences none media mimes count = (0, [])
set_codec_preferences (some pc) media mimes count =
    if pc.open?
    then apply_selected media (selection pc.factory media mimes count) pc.transceivers
    else (0, [])

apply_one : Transceiver → List Codec → ℕ × List Call
apply_one t [] = (0, [])
apply_one t (c ∷ cs) = (1, record { target = t.address; codecs = c ∷ cs } ∷ [])

-- lrtc_impl_peer_connection_set_transceiver_codec_preferences. The handle of the transceiver may be
-- null, and so may its `ref`.
unfoldable pub set_transceiver_codec_preferences :
    Option Connection
    → Option (Option Transceiver)
    → Option (List (Option Bytes))
    → ℕ
    → ℕ × List Call
unfolding apply_one
set_transceiver_codec_preferences none t mimes count = (0, [])
set_transceiver_codec_preferences (some pc) none mimes count = (0, [])
set_transceiver_codec_preferences (some pc) (some none) mimes count = (0, [])
set_transceiver_codec_preferences (some pc) (some (some t)) mimes count =
    if pc.open? then apply_one t (selection pc.factory t.media_type mimes count) else (0, [])

-- The transceivers of a media type, in their order.
abbrev pub of_media : ℕ → List (Option Transceiver) → List ℕ
of_media media [] = []
of_media media (none ∷ ts) = of_media media ts
of_media media (some t ∷ ts) =
    if t.media_type == media then t.address ∷ of_media media ts else of_media media ts

-- Those that a choice of codecs is set on.
abbrev pub targets : List Codec → ℕ → List (Option Transceiver) → List ℕ
targets [] media ts = []
targets (c ∷ cs) media ts = of_media media ts

abbrev pub calls_on : List Codec → List ℕ → List Call
calls_on cs = map (λ a. record { target = a; codecs = cs })

abbrev pub is_nonempty : List ℕ → Bool
is_nonempty [] = false
is_nonempty (a ∷ as') = true

apply_to_lem :
    (media : ℕ) (cs : List Codec) (ts : List (Option Transceiver))
    → apply_to media cs ts ≡ (is_nonempty (of_media media ts), calls_on cs (of_media media ts))
unfolding apply_to
apply_to_lem media cs [] = refl
apply_to_lem media cs (none ∷ ts) = apply_to_lem media cs ts
apply_to_lem media cs (some t ∷ ts) = elim (Bool-cases (t.media_type == media)) [
  | inl hit ↦ ground (arith, apply_to_lem media cs ts)
  | inr miss ↦ ground (arith, apply_to_lem media cs ts)
]

apply_selected_lem :
    (media : ℕ) (cs : List Codec) (ts : List (Option Transceiver))
    → apply_selected media cs ts
      ≡ (if is_nonempty (targets cs media ts) then 1 else 0, calls_on cs (targets cs media ts))
unfolding apply_selected
apply_selected_lem media [] ts = refl
apply_selected_lem media (c ∷ cs) ts = rw (apply_to_lem media (c ∷ cs) ts)

-- On an open connection the choice of codecs is set once on each transceiver of the media type, in
-- their order, and on no other; the call returns 1 if there was one to set it on, and 0 otherwise,
-- when it changes nothing.
pub set_codec_preferences_lem :
    (pc : Connection) (media : ℕ) (mimes : Option (List (Option Bytes))) (count : ℕ)
    → pc.open? ≡ true
    → let cs = selection pc.factory media mimes count in
      let on = targets cs media pc.transceivers in
      set_codec_preferences (some pc) media mimes count
      ≡ (if is_nonempty on then 1 else 0, calls_on cs on)
unfolding set_codec_preferences
set_codec_preferences_lem pc media mimes count h =
    rw h (apply_selected_lem media (selection pc.factory media mimes count) pc.transceivers)
