-- ===== src/Logging.antt =====
-- Log messages: the calls lrtc_impl_logging_* and LrtcLogMessageHandler of native/src/lumenrtc_impl.cpp, over
-- bridge/lumenrtc_bridge/src/rtc_logging.cc. WebRTC's list of log sinks is a part of the state: it hands each
-- message to the sinks whose severity is not above the message's.
pub mod Delivery
use lumen_rtc.Base.{
  ℕ, Bool, true, false, List, [], ◌∷◌, ◌++◌, Option, none, some, if◌then◌else◌, ◌==◌, leb,
  Allocator, ℤ, pos, negsuc,
}

-- rtc::LoggingSeverity by its order, LS_VERBOSE first.
abbrev pub Severity : Type 0
Severity = ℕ

-- getNativeLoggingSeverity, of the int that a client gives; for one that is no RTCLoggingSeverity it returns
-- nothing.
unfoldable pub native_severity : ℤ → Option Severity
native_severity (pos n) = if leb n 4 then some n else none
native_severity (negsuc n) = none

pub record Log : Type 0 where
  -- g_log_callback, and log_sink.
  pub callback : Option ℕ
  pub sink : Option ℕ
  -- rtc::LogMessage's sinks.
  pub streams : List (ℕ × Severity)
  pub debug_level : Severity

abbrev pub silent : Log
silent = record { callback = none; sink = none; streams = []; debug_level = 1 }

abbrev pub addresses : List (ℕ × Severity) → List ℕ
addresses [] = []
addresses (s ∷ ss) = s.0 ∷ addresses ss

abbrev pub without : ℕ → List (ℕ × Severity) → List (ℕ × Severity)
without a [] = []
without a (s ∷ ss) = let rest = without a ss in if s.0 == a then rest else s ∷ rest

-- removeLogSink.
unfoldable pub remove_log_sink : Log → Log
remove_log_sink l = elim l.sink [ none ↦ l | some a ↦ record l { streams = without a l.streams } ]

abbrev pub live_sinks : Option ℕ → List ℕ
live_sinks none = []
live_sinks (some a) = a ∷ []

-- setLogSink. The new sink is made before the old one is deleted.
unfoldable pub set_log_sink : Allocator → Severity → Log → Log
unfolding remove_log_sink
set_log_sink heap severity l =
    let removed = remove_log_sink l in
    let a = heap.fresh (live_sinks l.sink) in
    record removed { sink = some a; streams = (a, severity) ∷ removed.streams }

-- lrtc_impl_logging_set_callback, of a callback that may be null.
unfoldable pub set_callback : Allocator → Severity → Option ℕ → Log → Log
unfolding set_log_sink
set_callback heap severity callback l =
    let stored = record l { callback = callback } in
    elim callback [ none ↦ remove_log_sink stored | some f ↦ set_log_sink heap severity stored ]

-- lrtc_impl_logging_remove_callback.
unfoldable pub remove_callback : Log → Log
unfolding remove_log_sink
remove_callback l = remove_log_sink (record l { callback = none })

-- lrtc_impl_logging_set_min_level with setMinDebugLogLevel.
unfoldable pub set_min_level : Severity → Log → Log
set_min_level severity l = record l { debug_level = severity }

-- LrtcLogMessageHandler: the callback that it calls.
unfoldable pub handle_message : Log → List ℕ
handle_message l = elim l.callback [ none ↦ [] | some f ↦ f ∷ [] ]

-- The callbacks that WebRTC's loop over the sinks calls for a message.
unfoldable pub deliver : Severity → List (ℕ × Severity) → Log → List ℕ
unfolding handle_message
deliver severity [] l = []
deliver severity (s ∷ ss) l =
    let rest = deliver severity ss l in if leb s.1 severity then handle_message l ++ rest else rest
