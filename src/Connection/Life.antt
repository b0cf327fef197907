-- ===== src/Connection/Life.antt =====
-- A connection over any order of calls and notifications: the steps, and what stays true behind Close.
use lumen_rtc.Base.{ℕ, ◌≡◌, false, List, [], ◌∷◌, ◌++◌, Option, none, some, elem}
use lumen_rtc.Connection.Bridge.{
  Outcome, crashes, returns, Request, WebRtc, Remote, Connection, Event, asks, Reply,
  close_connection, on_add_stream, on_remove_stream, on_channel, register_observer,
}
use lumen_rtc.Connection.Operations.{Result, Operation, perform}

abbrev pub wrappers : List Remote → List ℕ
wrappers [] = []
wrappers (r ∷ rs) = r.wrapper ∷ wrappers rs

module _ {I : Type 0} where
  -- A call that returns, or a notification. A new wrapper has an address at which no other is.
  pub data Step (c : Connection) : Connection → List (Event I) → Type 0 where
    performs :
        {r : Reply} {d : Connection} {es : List (Event I)} (w : WebRtc I) (q : Operation I)
        → perform w q c ≡ returns (r, d, es)
        → Step c d es
    registers : (o : Option ℕ) → Step c (register_observer o c) []
    gains_stream :
        (wrapper stream : ℕ)
        → elem wrapper (wrappers c.remote_streams) ≡ false
        → Step c
            (on_add_stream {I = I} wrapper stream c).0
            (on_add_stream {I = I} wrapper stream c).1
    loses_stream :
        (stream : ℕ)
        → Step c (on_remove_stream {I = I} stream c).0 (on_remove_stream {I = I} stream c).1
    gains_channel :
        (wrapper : ℕ) → Step c (on_channel {I = I} wrapper c).0 (on_channel {I = I} wrapper c).1

  -- Any number of steps, with all that was asked and told.
  pub data Run (c : Connection) : Connection → List (Event I) → Type 0 where
    rest : Run c c []
    then_step :
        {d f : Connection} {es fs : List (Event I)} → Run c d es → Step d f fs → Run c f (es ++ fs)

  abbrev pub requests : List (Event I) → List (Request I)
  requests [] = []
  requests (asks q ∷ es) = q ∷ requests es
  requests (e ∷ es) = requests es

  abbrev Silent : Connection → List (Event I) → Type 0
  Silent d es = (d.native ≡ none) × (requests es ≡ [])

  abbrev AllSilent : Outcome (Result I) → Type 0
  AllSilent crashes = Unit
  AllSilent (returns (r, d, es)) = Silent d es

  -- What Close asks WebRTC for.
  abbrev pub closing_requests : Option ℕ → List (Request I)
  closing_requests none = []
  closing_requests (some n) = close_connection ∷ []
