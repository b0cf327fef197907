-- ===== src/AudioProcessing/Runs.antt =====
-- Any order of calls on an adapter.
use lumen_rtc.Base.{ℕ, Bool, List, [], ◌∷◌, ◌++◌, Option, none, some}
use lumen_rtc.AudioProcessing.{Adapter, Call, set_processor, set_bypass, initialize, process}

-- A call of the client, or of WebRTC's audio thread.
pub data Request : Type 0 where
  sets : Option ℕ → Request
  bypasses : Bool → Request
  begins : ℕ → ℕ → Request
  buffers : ℕ → ℕ → Request

abbrev pub perform : Request → Adapter → Option (Adapter × List Call)
perform (sets p) a = set_processor p a
perform (bypasses b) a = set_bypass b a
perform (begins rate channels) a = initialize rate channels a
perform (buffers bands frames) a = process bands frames a

abbrev pub add_calls : List Call → Option (Adapter × List Call) → Option (Adapter × List Call)
add_calls calls none = none
add_calls calls (some x) = some (x.0, calls ++ x.1)

abbrev pub continue :
    (Adapter → Option (Adapter × List Call))
    → Option (Adapter × List Call)
    → Option (Adapter × List Call)
continue rest none = none
continue rest (some x) = add_calls x.1 (rest x.0)

abbrev pub run : List Request → Adapter → Option (Adapter × List Call)
run [] a = some (a, [])
run (r ∷ rs) a = continue (run rs) (perform r a)

abbrev pub adapter_of : Option ℕ → Bool → Bool → ℕ → ℕ → Adapter
adapter_of p bypass initialized rate channels = record {
  processor = p;
  bypass = bypass;
  initialized = initialized;
  rate = rate;
  channels = channels;
}
