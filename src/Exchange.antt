-- ===== src/Exchange.antt =====
-- Session descriptions and statistics: the nine calls of native/src/lumenrtc_impl.cpp that answer through
-- a success or a failure callback, over bridge/lumenrtc_bridge/src/rtc_peerconnection_impl.cc. WebRTC
-- answers what it is asked later, through an observer that the bridge hands it.
pub mod Answers
pub mod Once
pub mod Closed
use lumen_rtc.Base.{
  ℕ, ◌≡◌, ◌*◌, Bool, true, false, not, ◌&&◌, ◌||◌, List, [], ◌∷◌, ◌++◌, Option, none, some,
  if◌then◌else◌, ltb, get_elem?, zero, suc, ℤ, to_i32,
}
use lumen_rtc.Text.{Bytes, c_string}
use lumen_rtc.Json.{build_stats_json}
use lumen_rtc.Peer.Config.{Configuration}
use lumen_rtc.Connection.Native.{OfferOptions, offer_options}

-- RTCMediaConstraints: mandatory and optional keys with values.
pub record Constraints : Type 0 where
  pub mandatory : List (Bytes × Bytes)
  pub optional : List (Bytes × Bytes)

-- The texts that a failure callback gets.
pub data Message : Type 0 where
  invalid_arguments not_initialized invalid_type unparsable no_local_description
        no_remote_description :
      Message
  message_of : Bytes → Message

-- A client's callbacks, null or not, with its user data.
pub record Callbacks : Type 0 where
  pub success : Bool
  pub failure : Bool
  pub user_data : ℕ

-- A call of a client's callback.
pub data Call : Type 0 where
  described : ℕ → Bytes → Bytes → Call
  done : ℕ → Call
  measured : ℕ → Bytes → Call
  failed : ℕ → Message → Call

-- `set_bandwidth` of the video and the audio content, where the code calls it.
pub record Limits : Type 0 where
  pub video : Option ℤ
  pub audio : Option ℤ

-- What WebRTC is asked.
pub data Task : Type 0 where
  offers answers : OfferOptions → Task
  sets_local : Bytes → Bytes → Task
  sets_remote : Bytes → Bytes → Limits → Task
  collects : Task
  collects_of_sender collects_of_receiver : ℕ → Task

-- What WebRTC tells its observer in the end: an error's message, or none with the description or the
-- reports that it was asked for.
pub record Verdict : Type 0 where
  pub error : Option Bytes
  pub sdp : Bytes
  pub type : Bytes
  pub reports : List (Option Bytes)

-- A task that WebRTC has not answered yet, with the callbacks that its observer holds.
pub record Pending : Type 0 where
  pub task : Task
  pub callbacks : Callbacks

pub record Session : Type 0 where
  -- Whether `rtc_peerconnection_` is set.
  pub is_open : Bool
  pub configuration : Configuration
  pub pending : List Pending
  -- The callbacks called so far.
  pub called : List Call

-- WebRTC, when a call is made.
pub record Native : Type 0 where
  pub is_type : Bytes → Bool
  pub parses : Bytes → Bytes → Bool
  pub has_video : Bytes → Bool
  pub has_audio : Bytes → Bool
  pub local_description : Option (Bytes × Bytes)
  pub remote_description : Option (Bytes × Bytes)
  -- CopyConstraintsIntoOfferAnswerOptions: `none` for `false`.
  pub constrained : Constraints → Option OfferOptions

-- The nine calls, with their arguments behind the callbacks. A media constraints handle is null, or holds
-- constraints or nothing; a sender or a receiver is `none` for a null handle or a handle with no `ref`.
pub data Ask : Type 0 where
  create_offer create_answer : Option (Option Constraints) → Ask
  set_local_description set_remote_description : Option Bytes → Option Bytes → Ask
  get_local_description get_remote_description get_stats : Ask
  get_sender_stats get_receiver_stats : Option ℕ → Ask

abbrev pub succeed : Callbacks → Call → List Call
succeed cb c = if cb.success then c ∷ [] else []

abbrev pub fail : Callbacks → Message → List Call
fail cb m = if cb.failure then failed cb.user_data m ∷ [] else []

abbrev pub call_now : List Call → Session → Session
call_now cs s = record s { called = s.called ++ cs }

abbrev pub wait : Task → Callbacks → Session → Session
wait t cb s = record s { pending = s.pending ++ record { task = t; callbacks = cb } ∷ [] }

-- The constraints of a handle, or empty ones.
abbrev pub or_created : Option (Option Constraints) → Constraints
or_created (some (some c)) = c
or_created (some none) = record { mandatory = []; optional = [] }
or_created none = record { mandatory = []; optional = [] }

abbrev or_else : Option OfferOptions → OfferOptions → OfferOptions
or_else none d = d
or_else (some o) d = o

-- The limit of a content, in bits per second, from a bandwidth in kilobits per second.
unfoldable pub limit : Bool → ℕ → Option ℤ
limit content bandwidth =
    if content && ltb 0 bandwidth then some (to_i32 (bandwidth * 1000)) else none

-- `none` where the call dereferences a null pointer.
module _ (w : Native) (cb : Callbacks) (s : Session) where
  -- CreateOffer and CreateAnswer.
  unfoldable pub create_description : (OfferOptions → Task) → Constraints → Option Session
  create_description task constraints =
      if not s.is_open
      then some (call_now (fail cb not_initialized) s)
      else some
          (wait (task (or_else (w.constrained constraints) (offer_options s.configuration))) cb s)

  -- SetLocalDescription.
  unfoldable pub set_local : Bytes → Bytes → Option Session
  set_local sdp type =
      if not (w.is_type type)
      then some (call_now (fail cb invalid_type) s)
      else if not (w.parses type sdp)
      then some (call_now (fail cb unparsable) s)
      else if s.is_open
      then some (wait (sets_local sdp type) cb s)
      else none

  -- SetRemoteDescription.
  unfoldable pub set_remote : Bytes → Bytes → Option Session
  unfolding limit
  set_remote sdp type =
      let limits : Limits = record {
        video = limit (w.has_video sdp) s.configuration.options.local_video_bandwidth;
        audio = limit (w.has_audio sdp) s.configuration.options.local_audio_bandwidth;
      } in
      if not (w.is_type type)
      then some (call_now (fail cb invalid_type) s)
      else if not (w.parses type sdp)
      then some (call_now (fail cb unparsable) s)
      else if s.is_open
      then some (wait (sets_remote sdp type limits) cb s)
      else none

  -- GetLocalDescription and GetRemoteDescription: they answer at once.
  unfoldable pub get_description : Option (Bytes × Bytes) → Message → Option Session
  get_description description missing =
      if s.is_open
      then (elim description [
        | none ↦ some (call_now (fail cb missing) s)
        | some d ↦
            some (call_now (succeed cb (described cb.user_data (c_string d.0) (c_string d.1))) s)
      ])
      else none

  -- GetStats.
  unfoldable pub collect : Task → Option Session
  collect task =
      if not s.is_open then some (call_now (fail cb not_initialized) s) else some (wait task cb s)

  abbrev reject : Option Session
  reject = some (call_now (fail cb invalid_arguments) s)

  abbrev with_texts :
      (Bytes → Bytes → Option Session) → Option Bytes → Option Bytes → Option Session
  with_texts f none type = reject
  with_texts f (some sdp) none = reject
  with_texts f (some sdp) (some type) = f sdp type

  abbrev collect_of : (ℕ → Task) → Option ℕ → Option Session
  collect_of task none = reject
  collect_of task (some o) = collect (task o)

  -- lrtc_impl_peer_connection_create_offer, _create_answer, _set_local_description,
  -- _set_remote_description, _get_local_description, _get_remote_description, _get_stats,
  -- _get_sender_stats and _get_receiver_stats, of a handle that is null or holds no connection, or of one
  -- that does.
  unfoldable pub ask : Bool → Ask → Option Session
  unfolding create_description set_local set_remote get_description collect
  ask false q = reject
  ask true (create_offer constraints) = create_description offers (or_created constraints)
  ask true (create_answer constraints) = create_description answers (or_created constraints)
  ask true (set_local_description sdp type) = with_texts set_local sdp type
  ask true (set_remote_description sdp type) = with_texts set_remote sdp type
  ask true get_local_description = get_description w.local_description no_local_description
  ask true get_remote_description = get_description w.remote_description no_remote_description
  ask true get_stats = collect collects
  ask true (get_sender_stats sender) = collect_of collects_of_sender sender
  ask true (get_receiver_stats receiver) = collect_of collects_of_receiver receiver

abbrev pub or_failure : Callbacks → Option Bytes → Call → List Call
or_failure cb none c = succeed cb c
or_failure cb (some m) c = fail cb (message_of (c_string m))

-- CreateSessionDescriptionObserverProxy, SetSessionDescriptionObserverProxy and
-- WebRTCStatsCollectorCallback, which has no failure, with the client's callbacks behind them.
unfoldable pub conclude : Task → Callbacks → Verdict → List Call
conclude (offers o) cb v =
    or_failure cb v.error (described cb.user_data (c_string v.sdp) (c_string v.type))
conclude (answers o) cb v =
    or_failure cb v.error (described cb.user_data (c_string v.sdp) (c_string v.type))
conclude (sets_local sdp type) cb v = or_failure cb v.error (done cb.user_data)
conclude (sets_remote sdp type limits) cb v = or_failure cb v.error (done cb.user_data)
conclude collects cb v = succeed cb (measured cb.user_data (c_string (build_stats_json v.reports)))
conclude (collects_of_sender o) cb v =
    succeed cb (measured cb.user_data (c_string (build_stats_json v.reports)))
conclude (collects_of_receiver o) cb v =
    succeed cb (measured cb.user_data (c_string (build_stats_json v.reports)))

abbrev pub erase : ℕ → List Pending → List Pending
erase i [] = []
erase zero (p ∷ ps) = ps
erase (suc i) (p ∷ ps) = p ∷ erase i ps

-- WebRTC answers the first of the pending tasks behind `skipped` others.
unfoldable pub complete : ℕ → Verdict → Session → Session
unfolding conclude
complete skipped v s = elim (get_elem? s.pending skipped) [
  | none ↦ s
  | some p ↦ record s {
    pending = erase skipped s.pending;
    called = s.called ++ conclude p.task p.callbacks v;
  }
]

-- Close, for the calls here.
unfoldable pub shut : Session → Session
shut s = record s { is_open = false }
