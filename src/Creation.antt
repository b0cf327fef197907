-- ===== src/Creation.antt =====
-- What a client creates: the calls lrtc_impl_factory_get_*_device, lrtc_impl_factory_create_*, the two calls of
-- desktop devices that create, lrtc_impl_desktop_media_list_get_source and lrtc_impl_media_constraints_* of
-- native/src/lumenrtc_impl.cpp, with bridge/lumenrtc_bridge/src/rtc_mediaconstraints_impl.cc. A handle that is
-- null or has no `ref`, and a null text, are `none`. What the bridge's objects answer is an argument.
pub mod Given
use lumen_rtc.Base.{
  ℕ, Bool, true, false, List, [], ◌∷◌, ◌++◌, Option, none, some, if◌then◌else◌, Allocator, update,
  remove, ℤ,
}
use lumen_rtc.Text.{Bytes}
use lumen_rtc.Peer.Events.{Handles, wrap}

-- lrtc_audio_options_t and RTCAudioOptions.
pub record AudioOptions : Type 0 where
  pub echo_cancellation : Bool
  pub auto_gain_control : Bool
  pub noise_suppression : Bool
  pub highpass_filter : Bool

-- RTCAudioOptions as it is by default.
abbrev pub default_options : AudioOptions
default_options = record {
  echo_cancellation = true;
  auto_gain_control = true;
  noise_suppression = true;
  highpass_filter = false;
}

-- The bridge's factory: what its members answer, null or an object.
pub record Makers : Type 0 where
  pub audio_device : Option ℕ
  pub video_device : Option ℕ
  pub desktop_device : Option ℕ
  pub audio_source : Bytes → ℤ → AudioOptions → Option ℕ
  pub video_source : ℕ → Bytes → Option ℕ → Option ℕ
  pub desktop_source : ℕ → Bytes → Option ℕ → Option ℕ
  pub audio_track : ℕ → Bytes → Option ℕ
  pub video_track : ℕ → Bytes → Option ℕ
  pub stream : Bytes → Option ℕ

-- The bridge's desktop device.
pub record DesktopMakers : Type 0 where
  pub media_list : ℤ → Option ℕ
  pub capturer : ℕ → Bool → Option ℕ

-- The options of the client, if it gives any.
abbrev pub options_of : Option AudioOptions → AudioOptions
options_of none = default_options
options_of (some o) = record {
  echo_cancellation = o.echo_cancellation;
  auto_gain_control = o.auto_gain_control;
  noise_suppression = o.noise_suppression;
  highpass_filter = o.highpass_filter;
}

module _ (heap : Allocator) where
  -- A new handle on an object that is not null.
  abbrev pub give : Option ℕ → Handles → Option ℕ × Handles
  give none hs = (none, hs)
  give (some object) hs = let (h, hs1) = wrap heap object hs in (some h, hs1)

  -- `new` for a handle, whose `ref` is null, 0, at first.
  abbrev pub new_handle : Handles → ℕ × Handles
  new_handle hs =
      let h = heap.fresh hs.live in (h, record { live = h ∷ hs.live; ref = update hs.ref h 0 })

  -- `delete` of a handle.
  abbrev pub delete_handle : ℕ → Handles → Handles
  delete_handle h hs = record hs { live = remove h hs.live }

  -- A new handle that is given the object, and deleted again if that is null.
  abbrev pub give_or_delete : Option ℕ → Handles → Option ℕ × Handles
  give_or_delete answer hs =
      let (h, hs1) = new_handle hs in
      elim answer [
        | none ↦ (none, delete_handle h hs1)
        | some object ↦ (some h, record hs1 { ref = update hs1.ref h object })
      ]

  -- lrtc_impl_factory_get_audio_device.
  unfoldable pub create_audio_device : Option Makers → Handles → Option ℕ × Handles
  create_audio_device none hs = (none, hs)
  create_audio_device (some f) hs = give_or_delete f.audio_device hs

  -- lrtc_impl_factory_get_video_device.
  unfoldable pub create_video_device : Option Makers → Handles → Option ℕ × Handles
  create_video_device none hs = (none, hs)
  create_video_device (some f) hs = give_or_delete f.video_device hs

  -- lrtc_impl_factory_get_desktop_device.
  unfoldable pub create_desktop_device : Option Makers → Handles → Option ℕ × Handles
  create_desktop_device none hs = (none, hs)
  create_desktop_device (some f) hs = give_or_delete f.desktop_device hs

  -- lrtc_impl_factory_create_audio_source.
  unfoldable pub create_audio_source :
      Option Makers → Option Bytes → ℤ → Option AudioOptions → Handles → Option ℕ × Handles
  create_audio_source none label type options hs = (none, hs)
  create_audio_source (some f) none type options hs = (none, hs)
  create_audio_source (some f) (some label) type options hs =
      give (f.audio_source label type (options_of options)) hs

  -- lrtc_impl_factory_create_video_source; the last argument is the constraints' object, which may be null.
  unfoldable pub create_video_source :
      Option Makers → Option ℕ → Option Bytes → Option ℕ → Handles → Option ℕ × Handles
  create_video_source none capturer label constraints hs = (none, hs)
  create_video_source (some f) none label constraints hs = (none, hs)
  create_video_source (some f) (some c) none constraints hs = (none, hs)
  create_video_source (some f) (some c) (some label) constraints hs =
      give (f.video_source c label constraints) hs

  -- lrtc_impl_factory_create_desktop_source.
  unfoldable pub create_desktop_source :
      Option Makers → Option ℕ → Option Bytes → Option ℕ → Handles → Option ℕ × Handles
  create_desktop_source none capturer label constraints hs = (none, hs)
  create_desktop_source (some f) none label constraints hs = (none, hs)
  create_desktop_source (some f) (some c) none constraints hs = (none, hs)
  create_desktop_source (some f) (some c) (some label) constraints hs =
      give (f.desktop_source c label constraints) hs

  -- lrtc_impl_factory_create_audio_track.
  unfoldable pub create_audio_track :
      Option Makers → Option ℕ → Option Bytes → Handles → Option ℕ × Handles
  create_audio_track none source id hs = (none, hs)
  create_audio_track (some f) none id hs = (none, hs)
  create_audio_track (some f) (some s) none hs = (none, hs)
  create_audio_track (some f) (some s) (some id) hs = give (f.audio_track s id) hs

  -- lrtc_impl_factory_create_video_track.
  unfoldable pub create_video_track :
      Option Makers → Option ℕ → Option Bytes → Handles → Option ℕ × Handles
  create_video_track none source id hs = (none, hs)
  create_video_track (some f) none id hs = (none, hs)
  create_video_track (some f) (some s) none hs = (none, hs)
  create_video_track (some f) (some s) (some id) hs = give (f.video_track s id) hs

  -- lrtc_impl_factory_create_stream.
  unfoldable pub create_stream : Option Makers → Option Bytes → Handles → Option ℕ × Handles
  create_stream none id hs = (none, hs)
  create_stream (some f) none hs = (none, hs)
  create_stream (some f) (some id) hs = give (f.stream id) hs

  -- lrtc_impl_audio_device_release and its like: `delete`, also of a null handle.
  unfoldable pub release_handle : Option ℕ → Handles → Handles
  release_handle none hs = hs
  release_handle (some h) hs = delete_handle h hs

  -- lrtc_impl_desktop_device_get_media_list.
  unfoldable pub get_media_list : Option DesktopMakers → ℤ → Handles → Option ℕ × Handles
  get_media_list none type hs = (none, hs)
  get_media_list (some d) type hs = give (d.media_list type) hs

  -- lrtc_impl_desktop_device_create_capturer.
  unfoldable pub create_desktop_capturer :
      Option DesktopMakers → Option ℕ → Bool → Handles → Option ℕ × Handles
  create_desktop_capturer none source show_cursor hs = (none, hs)
  create_desktop_capturer (some d) none show_cursor hs = (none, hs)
  create_desktop_capturer (some d) (some s) show_cursor hs = give (d.capturer s show_cursor) hs

-- RTCMediaConstraintsImpl.
pub record Constraints : Type 0 where
  pub mandatory : List (Bytes × Bytes)
  pub optional : List (Bytes × Bytes)

abbrev add_entry : Option Bytes → Option Bytes → List (Bytes × Bytes) → List (Bytes × Bytes)
add_entry none value es = es
add_entry (some k) none es = es
add_entry (some k) (some v) es = es ++ (k, v) ∷ []

-- lrtc_impl_media_constraints_add_mandatory with AddMandatoryConstraint.
unfoldable pub add_mandatory : Option Bytes → Option Bytes → Option Constraints → Option Constraints
add_mandatory key value none = none
add_mandatory key value (some c) = some (record c { mandatory = add_entry key value c.mandatory })

-- lrtc_impl_media_constraints_add_optional with AddOptionalConstraint.
unfoldable pub add_optional : Option Bytes → Option Bytes → Option Constraints → Option Constraints
add_optional key value none = none
add_optional key value (some c) = some (record c { optional = add_entry key value c.optional })
