-- ===== src/Encoding/Calls.antt =====
-- The calls on a sender's encodings, native/src/lumenrtc_impl.cpp. A sender is the parameters that
-- WebRTC gives for it, and `none` a null handle or a handle with no `ref`. A call's result is its
-- return value with the sender afterwards: WebRTC's SetParameters stores the parameters that it is handed
-- where it accepts them, and leaves the sender as it is where it does not; `accepts` is its answer, by what
-- the sender has and what it is handed.
use lumen_rtc.Base.{
  ℕ, zero, suc, Bool, List, [], ◌∷◌, map, Option, none, some, if◌then◌else◌, ℤ, pos, is_nonneg,
  length, set, get_elem?,
}
use lumen_rtc.Encoding.{
  Native, Settings, Encoding, Degradation, to_native_degradation, to_bridge_degradation,
  apply_settings,
}

-- webrtc::RtpParameters, as far as the calls go.
pub record Parameters (D : Type 0) : Type 0 where
  pub encodings : List (Encoding D)
  pub degradation_preference : Option Degradation

module _ (W : Native) where
  -- The copy of the list, with one created encoding if it is empty.
  abbrev pub filled : List (Encoding W.D) → List (Encoding W.D)
  filled [] = W.created ∷ []
  filled (e ∷ es) = e ∷ es

  -- The end of both calls: the parameters with the new list and the degradation preference.
  abbrev pub with_encodings : Settings W.D → Parameters W.D → List (Encoding W.D) → Parameters W.D
  with_encodings s p es =
      let q = record p { encodings = es } in
      if is_nonneg s.degradation_preference
      then record q {
        degradation_preference = some (to_native_degradation s.degradation_preference);
      }
      else q

  module _ (accepts : Parameters W.D → Parameters W.D → Bool) where
    -- `sender->set_parameters(parameters) ? 1 : 0`.
    unfoldable pub submit : Parameters W.D → Parameters W.D → ℕ × Option (Parameters W.D)
    submit p q = if accepts p q then (1, some q) else (0, some p)

    -- lrtc_impl_rtp_sender_set_encoding_parameters.
    unfoldable pub set_encoding_parameters :
        Option (Parameters W.D) → Option (Settings W.D) → ℕ × Option (Parameters W.D)
    unfolding submit
    set_encoding_parameters none s = (0, none)
    set_encoding_parameters (some p) none = (0, some p)
    set_encoding_parameters (some p) (some s) =
        submit p (with_encodings s p (map (apply_settings W s) (filled p.encodings)))

    -- `list[index]` under the settings; `none` where the index is past the end.
    abbrev pub apply_at : Settings W.D → List (Encoding W.D) → ℕ → Option (List (Encoding W.D))
    apply_at s es index = elim (get_elem? es index) [
      | none ↦ none
      | some e ↦ some (set es index (apply_settings W s e))
    ]

    -- The list that the index is read in. An empty one is filled for index 0, and past its end for
    -- any other, at which the call returns early.
    abbrev pub filled_at : List (Encoding W.D) → ℕ → List (Encoding W.D)
    filled_at [] zero = W.created ∷ []
    filled_at [] (suc index) = []
    filled_at (e ∷ es) index = e ∷ es

    submit_at :
        Settings W.D → Parameters W.D → Option (List (Encoding W.D)) → ℕ × Option (Parameters W.D)
    unfolding submit
    submit_at s p none = (0, some p)
    submit_at s p (some es) = submit p (with_encodings s p es)

    -- lrtc_impl_rtp_sender_set_encoding_parameters_at.
    unfoldable pub set_encoding_parameters_at :
        Option (Parameters W.D) → ℕ → Option (Settings W.D) → ℕ × Option (Parameters W.D)
    unfolding submit_at
    set_encoding_parameters_at none index s = (0, none)
    set_encoding_parameters_at (some p) index none = (0, some p)
    set_encoding_parameters_at (some p) index (some s) =
        submit_at s p (apply_at s (filled_at p.encodings index) index)

  -- lrtc_impl_rtp_sender_encoding_count.
  unfoldable pub encoding_count : Option (Parameters W.D) → ℕ
  encoding_count none = 0
  encoding_count (some p) = length p.encodings

  -- lrtc_rtp_encoding_info_t.
  pub record Info : Type 0 where
    pub ssrc : ℕ
    pub max_bitrate_bps : ℤ
    pub min_bitrate_bps : ℤ
    pub max_framerate : W.D
    pub scale_resolution_down_by : W.D
    pub active : ℕ
    pub bitrate_priority : W.D
    pub network_priority : ℕ
    pub num_temporal_layers : ℤ
    pub adaptive_ptime : ℕ

  abbrev value_or : {A : Type 0} → Option A → A → A
  value_or none d = d
  value_or (some a) d = a

  -- The getters of RTCRtpEncodingParametersImpl, with their defaults.
  unfoldable pub info_of : Encoding W.D → Info
  info_of e = record {
    ssrc = value_or e.ssrc 0;
    max_bitrate_bps = value_or e.max_bitrate_bps (pos 0);
    min_bitrate_bps = value_or e.min_bitrate_bps (pos 0);
    max_framerate = value_or e.max_framerate W.zero;
    scale_resolution_down_by = value_or e.scale_resolution_down_by W.one;
    active = if e.active then 1 else 0;
    bitrate_priority = e.bitrate_priority;
    network_priority = e.network_priority;
    num_temporal_layers = value_or e.num_temporal_layers (pos 1);
    adaptive_ptime = if e.adaptive_ptime then 1 else 0;
  }

  -- lrtc_impl_rtp_sender_get_encoding_info: what it writes, and `none` for the return value 0, at
  -- which it writes nothing.
  unfoldable pub get_encoding_info : Option (Parameters W.D) → ℕ → Option Info
  unfolding info_of
  get_encoding_info none index = none
  get_encoding_info (some p) index = elim (get_elem? p.encodings index) [
    | none ↦ none
    | some e ↦ some (info_of e)
  ]

  -- lrtc_impl_rtp_sender_get_degradation_preference; `none` is -1.
  unfoldable pub get_degradation_preference : Option (Parameters W.D) → Option ℕ
  get_degradation_preference none = none
  get_degradation_preference (some p) = some (to_bridge_degradation p.degradation_preference)
