-- ===== src/AudioProcessing.antt =====
-- Custom audio processors, CustomProcessingAdapter of
-- bridge/lumenrtc_bridge/src/rtc_audio_processing_impl.cc. Processors are their addresses. A null
-- pointer is `none`, and so is a call that goes through one.
pub mod Runs
pub mod Delivery
pub mod Rates
use lumen_rtc.Base.{
  ℕ, ◌*◌, Bool, true, false, not, ◌||◌, List, [], ◌∷◌, ◌++◌, Option, none, some, if◌then◌else◌,
  ◌==◌,
}

pub record Adapter : Type 0 where
  -- `custom_processor_`.
  pub processor : Option ℕ
  pub bypass : Bool
  pub initialized : Bool
  pub rate : ℕ
  pub channels : ℕ

-- Calls of a processor: Initialize with the rate and the channels, Reset with the rate, and Process with the
-- bands and the frames of a buffer.
pub data Call : Type 0 where
  initializes : ℕ → ℕ → ℕ → Call
  resets : ℕ → ℕ → Call
  processes : ℕ → ℕ → ℕ → Call

-- `new CustomProcessingAdapter()`: the constructor is defaulted in the class, so that the pointer, which has no
-- initial value of its own, starts as null.
abbrev pub new_adapter : Adapter
new_adapter = record {
  processor = none;
  bypass = false;
  initialized = false;
  rate = 0;
  channels = 0;
}

-- SetExternalAudioProcessing.
unfoldable pub set_processor : Option ℕ → Adapter → Option (Adapter × List Call)
set_processor p a =
    let set = record a { processor = p } in
    if a.initialized
    then elim p [ none ↦ none | some n ↦ some (set, initializes n a.rate a.channels ∷ []) ]
    else some (set, [])

-- SetBypassFlag.
unfoldable pub set_bypass : Bool → Adapter → Option (Adapter × List Call)
set_bypass b a = some (record a { bypass = b }, [])

-- Initialize.
unfoldable pub initialize : ℕ → ℕ → Adapter → Option (Adapter × List Call)
initialize rate channels a =
    let done = record a { rate = rate; channels = channels; initialized = true } in
    elim a.processor [
      | none ↦ some (done, [])
      | some n ↦ some (done, initializes n rate channels ∷ [])
    ]

-- Process, of a buffer of 10 ms.
unfoldable pub process : ℕ → ℕ → Adapter → Option (Adapter × List Call)
process bands frames a = elim a.processor [
  | none ↦ some (a, [])
  | some n ↦
      if a.bypass || not a.initialized
      then some (a, [])
      else if frames * 100 == a.rate
      then some (a, processes n bands frames ∷ [])
      else some (
        record a { rate = frames * 100 },
        resets n (frames * 100) ∷ processes n bands frames ∷ [],
      )
]
