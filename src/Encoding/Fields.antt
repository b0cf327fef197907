-- ===== src/Encoding/Fields.antt =====
-- The run of tests and setters as one description, each field for itself.
use lumen_rtc.Base.{
  ◌≡◌, refl, Bool, true, false, Option, none, some, if◌then◌else◌, is_nonneg, truthy,
}
use lumen_rtc.Text.{Bytes}
use lumen_rtc.Encoding.{
  Native, Settings, Encoding, given, is_priority, magnitude, apply_settings, set_mode, set_rid,
  put_max_bitrate_bps, put_min_bitrate_bps, put_max_framerate, put_scale_resolution_down_by,
  put_active, put_bitrate_priority, put_network_priority, put_num_temporal_layers,
  put_scalability_mode, put_rid, put_adaptive_ptime,
}

abbrev pub or_keep {ℓ} : {A : Type ℓ} → Option A → A → A
or_keep none a = a
or_keep (some b) a = b

abbrev pub or_else {ℓ} : {A : Type ℓ} → Option A → Option A → Option A
or_else none a = a
or_else (some b) a = some b

-- A conditional write of one field is a write of a conditional value.
record_if {ℓ κ} :
    {A : Type ℓ} {B : Type κ} (write : A → B) (b : Bool) (new old : A)
    → (if b then write new else write old) ≡ write (if b then new else old)
record_if write true new old = refl
record_if write false new old = refl

module _ (W : Native) where
  put_max_bitrate_bps_lem :
      (s : Settings W.D) (e : Encoding W.D)
      → put_max_bitrate_bps W s e ≡ record e {
        max_bitrate_bps =
            if is_nonneg s.max_bitrate_bps then some s.max_bitrate_bps else e.max_bitrate_bps;
      }
  unfolding put_max_bitrate_bps
  put_max_bitrate_bps_lem s e =
      record_if (λ v. record e { max_bitrate_bps = v }) (is_nonneg s.max_bitrate_bps)
        (some s.max_bitrate_bps) e.max_bitrate_bps

  put_min_bitrate_bps_lem :
      (s : Settings W.D) (e : Encoding W.D)
      → put_min_bitrate_bps W s e ≡ record e {
        min_bitrate_bps =
            if is_nonneg s.min_bitrate_bps then some s.min_bitrate_bps else e.min_bitrate_bps;
      }
  unfolding put_min_bitrate_bps
  put_min_bitrate_bps_lem s e =
      record_if (λ v. record e { min_bitrate_bps = v }) (is_nonneg s.min_bitrate_bps)
        (some s.min_bitrate_bps) e.min_bitrate_bps

  put_max_framerate_lem :
      (s : Settings W.D) (e : Encoding W.D)
      → put_max_framerate W s e ≡ record e {
        max_framerate =
            if W.is_positive s.max_framerate then some s.max_framerate else e.max_framerate;
      }
  unfolding put_max_framerate
  put_max_framerate_lem s e =
      record_if (λ v. record e { max_framerate = v }) (W.is_positive s.max_framerate)
        (some s.max_framerate) e.max_framerate

  put_scale_resolution_down_by_lem :
      (s : Settings W.D) (e : Encoding W.D)
      → put_scale_resolution_down_by W s e ≡ record e {
        scale_resolution_down_by =
            if W.is_positive s.scale_resolution_down_by
            then some s.scale_resolution_down_by
            else e.scale_resolution_down_by;
      }
  unfolding put_scale_resolution_down_by
  put_scale_resolution_down_by_lem s e =
      record_if (λ v. record e { scale_resolution_down_by = v })
        (W.is_positive s.scale_resolution_down_by) (some s.scale_resolution_down_by)
        e.scale_resolution_down_by

  put_active_lem :
      (s : Settings W.D) (e : Encoding W.D)
      → put_active W s e
        ≡ record e { active = if is_nonneg s.active then truthy s.active else e.active }
  unfolding put_active
  put_active_lem s e =
      record_if (λ v. record e { active = v }) (is_nonneg s.active) (truthy s.active) e.active

  put_bitrate_priority_lem :
      (s : Settings W.D) (e : Encoding W.D)
      → put_bitrate_priority W s e ≡ record e {
        bitrate_priority =
            if W.is_nonnegative s.bitrate_priority then s.bitrate_priority else e.bitrate_priority;
      }
  unfolding put_bitrate_priority
  put_bitrate_priority_lem s e =
      record_if (λ v. record e { bitrate_priority = v }) (W.is_nonnegative s.bitrate_priority)
        (s.bitrate_priority) e.bitrate_priority

  put_network_priority_lem :
      (s : Settings W.D) (e : Encoding W.D)
      → put_network_priority W s e ≡ record e {
        network_priority =
            if is_priority s.network_priority
            then magnitude s.network_priority
            else e.network_priority;
      }
  unfolding put_network_priority
  put_network_priority_lem s e =
      record_if (λ v. record e { network_priority = v }) (is_priority s.network_priority)
        (magnitude s.network_priority) e.network_priority

  put_num_temporal_layers_lem :
      (s : Settings W.D) (e : Encoding W.D)
      → put_num_temporal_layers W s e ≡ record e {
        num_temporal_layers =
            if is_nonneg s.num_temporal_layers
            then some s.num_temporal_layers
            else e.num_temporal_layers;
      }
  unfolding put_num_temporal_layers
  put_num_temporal_layers_lem s e =
      record_if (λ v. record e { num_temporal_layers = v }) (is_nonneg s.num_temporal_layers)
        (some s.num_temporal_layers) e.num_temporal_layers

  put_scalability_mode_lem :
      (s : Settings W.D) (e : Encoding W.D)
      → put_scalability_mode W s e
        ≡ record e { scalability_mode = or_else (given s.scalability_mode) e.scalability_mode }
  unfolding put_scalability_mode
  put_scalability_mode_lem s e = go (given s.scalability_mode)
    where
      go :
          (o : Option Bytes)
          → set_mode W o e ≡ record e { scalability_mode = or_else o e.scalability_mode }
      go none = refl
      go (some t) = refl

  put_rid_lem :
      (s : Settings W.D) (e : Encoding W.D)
      → put_rid W s e ≡ record e { rid = or_keep (given s.rid) e.rid }
  unfolding put_rid
  put_rid_lem s e = go (given s.rid)
    where
      go : (o : Option Bytes) → set_rid W o e ≡ record e { rid = or_keep o e.rid }
      go none = refl
      go (some t) = refl

  put_adaptive_ptime_lem :
      (s : Settings W.D) (e : Encoding W.D)
      → put_adaptive_ptime W s e ≡ record e {
        adaptive_ptime =
            if is_nonneg s.adaptive_ptime then truthy s.adaptive_ptime else e.adaptive_ptime;
      }
  unfolding put_adaptive_ptime
  put_adaptive_ptime_lem s e =
      record_if (λ v. record e { adaptive_ptime = v }) (is_nonneg s.adaptive_ptime)
        (truthy s.adaptive_ptime) e.adaptive_ptime

  -- Each field under its own test.
  unfoldable pub fieldwise : Settings W.D → Encoding W.D → Encoding W.D
  fieldwise s e = record {
    ssrc = e.ssrc;
    max_bitrate_bps =
        if is_nonneg s.max_bitrate_bps then some s.max_bitrate_bps else e.max_bitrate_bps;
    min_bitrate_bps =
        if is_nonneg s.min_bitrate_bps then some s.min_bitrate_bps else e.min_bitrate_bps;
    max_framerate = if W.is_positive s.max_framerate then some s.max_framerate else e.max_framerate;
    scale_resolution_down_by =
        if W.is_positive s.scale_resolution_down_by
        then some s.scale_resolution_down_by
        else e.scale_resolution_down_by;
    active = if is_nonneg s.active then truthy s.active else e.active;
    bitrate_priority =
        if W.is_nonnegative s.bitrate_priority then s.bitrate_priority else e.bitrate_priority;
    network_priority =
        if is_priority s.network_priority then magnitude s.network_priority else e.network_priority;
    num_temporal_layers =
        if is_nonneg s.num_temporal_layers
        then some s.num_temporal_layers
        else e.num_temporal_layers;
    scalability_mode = or_else (given s.scalability_mode) e.scalability_mode;
    rid = or_keep (given s.rid) e.rid;
    adaptive_ptime =
        if is_nonneg s.adaptive_ptime then truthy s.adaptive_ptime else e.adaptive_ptime;
  }

  -- Under the settings each field of an encoding takes the new value if its own test holds and keeps
  -- its value otherwise; the tests do not see one another's effect, and the SSRC is never touched.
  pub apply_settings_lem :
      (s : Settings W.D) (e : Encoding W.D) → apply_settings W s e ≡ fieldwise s e
  unfolding apply_settings fieldwise
  apply_settings_lem s e =
      rw
        (
          put_max_bitrate_bps_lem, put_min_bitrate_bps_lem, put_max_framerate_lem,
          put_scale_resolution_down_by_lem, put_active_lem, put_bitrate_priority_lem,
          put_network_priority_lem, put_num_temporal_layers_lem, put_scalability_mode_lem,
          put_rid_lem, put_adaptive_ptime_lem,
        )
        refl

  if_twice {ℓ} :
      {A : Type ℓ} (b : Bool) (x y : A)
      → (if b then x else (if b then x else y)) ≡ (if b then x else y)
  if_twice true x y = refl
  if_twice false x y = refl

  or_else_twice {ℓ} : {A : Type ℓ} (o a : Option A) → or_else o (or_else o a) ≡ or_else o a
  or_else_twice none a = refl
  or_else_twice (some b) a = refl

  or_keep_twice {ℓ} : {A : Type ℓ} (o : Option A) (a : A) → or_keep o (or_keep o a) ≡ or_keep o a
  or_keep_twice none a = refl
  or_keep_twice (some b) a = refl

  -- The same settings a second time change nothing.
  pub apply_settings_twice :
      (s : Settings W.D) (e : Encoding W.D)
      → apply_settings W s (apply_settings W s e) ≡ apply_settings W s e
  unfolding fieldwise
  apply_settings_twice s e =
      rw (apply_settings_lem s e, apply_settings_lem s (fieldwise s e))
        (simp (if_twice, or_else_twice, or_keep_twice))
