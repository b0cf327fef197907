-- ===== src/Encoding.antt =====
-- RTP encoding parameters: native/src/lumenrtc_impl.cpp (BuildEncodingParameters, the calls
-- lrtc_impl_rtp_sender_set_encoding_parameters, _set_encoding_parameters_at, _encoding_count and
-- _get_encoding_info, NormalizeTransceiverDirection, BuildTransceiverInit) over
-- bridge/lumenrtc_bridge/src/rtc_rtp_parameters_impl.cc. Each `encodings()` copies WebRTC's list into
-- new objects, so what the calls change through these references is values here. Floating-point
-- numbers are a parameter.
pub mod Calls
pub mod Fields
pub mod Laws
pub mod Transceiver
pub mod Texts
use lumen_rtc.Base.{
  ℕ, Bool, true, false, [], ◌∷◌, Option, none, some, if◌then◌else◌, ◌==◌, leb, ◌&&◌, ℤ, pos,
  is_nonneg, truthy,
}
use lumen_rtc.Text.{Bytes}

-- `double`, with the tests and values that the code uses.
pub record Double : Type 1 where
  pub D : Type 0
  pub zero : D
  pub one : D
  -- `x > 0.0` and `x >= 0.0`.
  pub is_positive : D → Bool
  pub is_nonnegative : D → Bool

-- RTCDegradationPreference, and WebRTC's enumeration of the same names.
pub data Degradation : Type 0 where
  disabled maintain_framerate maintain_resolution balanced : Degradation

-- ToNativeDegradationPreference of `static_cast<RTCDegradationPreference>(value)`.
unfoldable pub to_native_degradation : ℤ → Degradation
to_native_degradation (pos n) =
    if n == 0
    then disabled
    else if n == 1
    then maintain_framerate
    else if n == 2
    then maintain_resolution
    else balanced
to_native_degradation n = balanced

-- ToBridgeDegradationPreference, with the number of the enumerator.
unfoldable pub to_bridge_degradation : Option Degradation → ℕ
to_bridge_degradation none = 3
to_bridge_degradation (some disabled) = 0
to_bridge_degradation (some maintain_framerate) = 1
to_bridge_degradation (some maintain_resolution) = 2
to_bridge_degradation (some balanced) = 3

-- lrtc_rtp_encoding_settings_t.
pub record Settings (D : Type 0) : Type 0 where
  pub max_bitrate_bps : ℤ
  pub min_bitrate_bps : ℤ
  pub max_framerate : D
  pub scale_resolution_down_by : D
  pub active : ℤ
  pub degradation_preference : ℤ
  pub bitrate_priority : D
  pub network_priority : ℤ
  pub num_temporal_layers : ℤ
  pub scalability_mode : Option Bytes
  pub rid : Option Bytes
  pub adaptive_ptime : ℤ

-- webrtc::RtpEncodingParameters, which an RTCRtpEncodingParametersImpl holds.
pub record Encoding (D : Type 0) : Type 0 where
  pub ssrc : Option ℕ
  pub max_bitrate_bps : Option ℤ
  pub min_bitrate_bps : Option ℤ
  pub max_framerate : Option D
  pub scale_resolution_down_by : Option D
  pub active : Bool
  pub bitrate_priority : D
  pub network_priority : ℕ
  pub num_temporal_layers : Option ℤ
  pub scalability_mode : Option Bytes
  pub rid : Bytes
  pub adaptive_ptime : Bool

-- What the library uses of WebRTC's parameters: `double`, and the default-constructed encoding, which
-- RTCRtpEncodingParameters::Create wraps.
pub record Native : Type 1 where
  pub double : Double
  pub open double use {D, zero, one, is_positive, is_nonnegative}
  pub created : Encoding D

-- The text, if the pointer is not null and the text is not empty.
abbrev pub given : Option Bytes → Option Bytes
given none = none
given (some []) = none
given (some (c ∷ cs)) = some (c ∷ cs)

-- `v >= 0 && v <= 3`.
abbrev pub is_priority : ℤ → Bool
is_priority (pos n) = leb n 3
is_priority n = false

abbrev pub magnitude : ℤ → ℕ
magnitude (pos n) = n
magnitude n = 0

module _ (W : Native) where
  abbrev pub E : Type 0
  E = Encoding W.D

  -- Each test with its setter.
  unfoldable pub put_max_bitrate_bps : Settings W.D → E → E
  put_max_bitrate_bps s e =
      if is_nonneg s.max_bitrate_bps
      then record e { max_bitrate_bps = some s.max_bitrate_bps }
      else e

  unfoldable pub put_min_bitrate_bps : Settings W.D → E → E
  put_min_bitrate_bps s e =
      if is_nonneg s.min_bitrate_bps
      then record e { min_bitrate_bps = some s.min_bitrate_bps }
      else e

  unfoldable pub put_max_framerate : Settings W.D → E → E
  put_max_framerate s e =
      if W.is_positive s.max_framerate then record e { max_framerate = some s.max_framerate } else e

  unfoldable pub put_scale_resolution_down_by : Settings W.D → E → E
  put_scale_resolution_down_by s e =
      if W.is_positive s.scale_resolution_down_by
      then record e { scale_resolution_down_by = some s.scale_resolution_down_by }
      else e

  unfoldable pub put_active : Settings W.D → E → E
  put_active s e = if is_nonneg s.active then record e { active = truthy s.active } else e

  unfoldable pub put_bitrate_priority : Settings W.D → E → E
  put_bitrate_priority s e =
      if W.is_nonnegative s.bitrate_priority
      then record e { bitrate_priority = s.bitrate_priority }
      else e

  unfoldable pub put_network_priority : Settings W.D → E → E
  put_network_priority s e =
      if is_priority s.network_priority
      then record e { network_priority = magnitude s.network_priority }
      else e

  unfoldable pub put_num_temporal_layers : Settings W.D → E → E
  put_num_temporal_layers s e =
      if is_nonneg s.num_temporal_layers
      then record e { num_temporal_layers = some s.num_temporal_layers }
      else e

  set_mode : Option Bytes → E → E
  set_mode none e = e
  set_mode (some m) e = record e { scalability_mode = some m }

  unfoldable pub put_scalability_mode : Settings W.D → E → E
  unfolding set_mode
  put_scalability_mode s e = set_mode (given s.scalability_mode) e

  set_rid : Option Bytes → E → E
  set_rid none e = e
  set_rid (some r) e = record e { rid = r }

  unfoldable pub put_rid : Settings W.D → E → E
  unfolding set_rid
  put_rid s e = set_rid (given s.rid) e

  unfoldable pub put_adaptive_ptime : Settings W.D → E → E
  put_adaptive_ptime s e =
      if is_nonneg s.adaptive_ptime
      then record e { adaptive_ptime = truthy s.adaptive_ptime }
      else e

  -- One encoding under the settings: the same run of tests in BuildEncodingParameters and in the two
  -- calls on senders.
  unfoldable pub apply_settings : Settings W.D → E → E
  apply_settings s e =
      let e1 = put_max_bitrate_bps s e in
      let e2 = put_min_bitrate_bps s e1 in
      let e3 = put_max_framerate s e2 in
      let e4 = put_scale_resolution_down_by s e3 in
      let e5 = put_active s e4 in
      let e6 = put_bitrate_priority s e5 in
      let e7 = put_network_priority s e6 in
      let e8 = put_num_temporal_layers s e7 in
      let e9 = put_scalability_mode s e8 in let e10 = put_rid s e9 in put_adaptive_ptime s e10

  unfoldable pub build_encoding_parameters : Option (Settings W.D) → E
  unfolding apply_settings
  build_encoding_parameters none = W.created
  build_encoding_parameters (some s) = apply_settings s W.created
