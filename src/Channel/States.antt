-- ===== src/Channel/States.antt =====
-- The states of a data channel and what the client sends on it: lrtc_impl_data_channel_send, with
-- RTCDataChannelImpl::Send, OnStateChange and state, and DataChannelObserverImpl::OnStateChange. A
-- change of state is one step here.
use lumen_rtc.Base.{
  ℕ, ◌≡◌, List, ◌++◌, Bool, false, [], Option, none, some, if◌then◌else◌, ltb, take,
}
use lumen_rtc.Text.{Bytes}
use lumen_rtc.Channel.{Channel, opened, set_callbacks, close, release, test_message, call_message}

-- RTCDataChannelState, and WebRTC's DataState, which has the same values.
pub data DataState : Type 0 where
  channel_connecting channel_open channel_closing channel_closed : DataState

-- A channel with its states.
pub record View : Type 0 where
  pub channel : Channel
  -- The observer's `on_state_change`, if the client set one.
  pub on_state : Option ℕ
  -- `state_`, which has no value before the first change.
  pub state : Option DataState

abbrev pub new_view : View
new_view = record { channel = opened; on_state = none; state = none }

-- What a change leads to.
pub data Told : Type 0 where
  quiet : Told
  tells : ℕ → DataState → Told
  -- The observer is used, and was deleted.
  dangles : Told

-- DataChannelObserverImpl::OnStateChange.
unfoldable pub observer_on_state_change : Option ℕ → DataState → Told
observer_on_state_change none s = quiet
observer_on_state_change (some f) s = tells f s

-- RTCDataChannelImpl::OnStateChange, which WebRTC calls while the channel is registered.
unfoldable pub on_state_change : DataState → View → View × Told
unfolding observer_on_state_change
on_state_change s v =
    let told = if v.channel.observer then observer_on_state_change v.on_state s else dangles in
    if v.channel.registered
    then (record v { state = some s }, if v.channel.observed then told else quiet)
    else (v, quiet)

-- What WebRTC's Send gets: the bytes and whether they are binary.
pub record Sent : Type 0 where
  pub data_bytes : Bytes
  pub binary : Bool

-- lrtc_impl_data_channel_send: `data` is none where it is null, and else the bytes from it on, of which it
-- takes `size`.
unfoldable pub send : Option Bytes → ℕ → Bool → Option Sent
send none size binary =
    if ltb 0 size then none else some (record { data_bytes = []; binary = binary })
send (some bytes) size binary = some (record { data_bytes = take size bytes; binary = binary })

-- A client's call on a handle that it has not released, a change of WebRTC's state, or one of the two steps of
-- OnMessage.
pub data Step (v : View) : View → Type 0 where
  sets_both :
      (f g : Option ℕ)
      → v.channel.released ≡ false
      → Step v (record v { channel = set_callbacks f v.channel; on_state = g })
  closes_it : v.channel.released ≡ false → Step v (record v { channel = close v.channel })
  releases_it : v.channel.released ≡ false → Step v (record v { channel = release v.channel })
  changes : (s : DataState) → Step v (on_state_change s v).0
  meets : (m : Bytes) → Step v (record v { channel = test_message m v.channel })
  hands_on : Step v (record v { channel = (call_message v.channel).0 })

-- Any number of steps.
pub data Run (v : View) : View → Type 0 where
  rest : Run v v
  then_step : {w x : View} → Run v w → Step w x → Run v x

-- The second list is what is left of the first one at its end.
abbrev pub Remains : List Bytes → List Bytes → Type 0
Remains ms ns = (gone : List Bytes) × (ms ≡ gone ++ ns)

-- The channel is not registered, its state is what it was, and of the messages under way some are left.
abbrev Still : View → View → Type 0
Still v w =
    (w.channel.registered ≡ false)
    × (w.state ≡ v.state)
    × Remains v.channel.under_way w.channel.under_way

abbrev answer : Bool → Bool → Bool → Option ℕ → DataState → Told
answer registered observed observer f s =
    let told = if observer then observer_on_state_change f s else dangles in
    if registered then (if observed then told else quiet) else quiet
