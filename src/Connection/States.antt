-- ===== src/Connection/States.antt =====
-- The states of a connection: from WebRTC's notification over the bridge's conversions
-- (bridge/lumenrtc_bridge/src/rtc_peerconnection_impl.cc) to the number that the client's callback gets.
use lumen_rtc.Base.{
  ℕ, ◌≡◌, refl, Bool, true, false, ◌∷◌, [], Option, none, some, ℤ, pos, negsuc, List, get_elem?,
  Allocator,
}
use lumen_rtc.Peer.Events.{
  Notification, signaling, connection, gathering, ice, Observer, Handles, Call, notify, when_set,
  signaling_state, peer_connection_state, ice_gathering_state, ice_connection_state,
}

pub data PeerConnectionState : Type 0 where
  connection_new connecting connected disconnected failed closed : PeerConnectionState

pub data IceGatheringState : Type 0 where
  gathering_new gathering_started gathering_complete : IceGatheringState

pub data IceConnectionState : Type 0 where
  ice_new ice_checking ice_connected ice_completed ice_failed ice_disconnected ice_closed ice_max :
      IceConnectionState

pub data SignalingState : Type 0 where
  stable have_local_offer have_local_pranswer have_remote_offer have_remote_pranswer
        signaling_closed :
      SignalingState

-- ToBridgePeerConnectionState.
unfoldable pub to_bridge_connection : PeerConnectionState → ℕ
to_bridge_connection connection_new = 0
to_bridge_connection connecting = 1
to_bridge_connection connected = 2
to_bridge_connection disconnected = 3
to_bridge_connection failed = 4
to_bridge_connection closed = 5

-- ToBridgeIceGatheringState.
unfoldable pub to_bridge_gathering : IceGatheringState → ℕ
to_bridge_gathering gathering_new = 0
to_bridge_gathering gathering_started = 1
to_bridge_gathering gathering_complete = 2

-- ToBridgeIceConnectionState.
unfoldable pub to_bridge_ice : IceConnectionState → ℕ
to_bridge_ice ice_new = 0
to_bridge_ice ice_checking = 1
to_bridge_ice ice_completed = 2
to_bridge_ice ice_connected = 3
to_bridge_ice ice_failed = 4
to_bridge_ice ice_disconnected = 5
to_bridge_ice ice_closed = 6
to_bridge_ice ice_max = 7

-- ToBridgeSignalingState.
unfoldable pub to_bridge_signaling : SignalingState → ℕ
to_bridge_signaling stable = 0
to_bridge_signaling have_local_offer = 1
to_bridge_signaling have_remote_offer = 2
to_bridge_signaling have_local_pranswer = 3
to_bridge_signaling have_remote_pranswer = 4
to_bridge_signaling signaling_closed = 5

-- A change of state that WebRTC reports.
pub data Change : Type 0 where
  connection_change : PeerConnectionState → Change
  gathering_change : IceGatheringState → Change
  ice_change : IceConnectionState → Change
  signaling_change : SignalingState → Change

-- OnConnectionChange, OnIceGatheringChange, OnIceConnectionChange and OnSignalingChange, with an observer.
unfoldable pub on_change : Change → Notification
unfolding to_bridge_connection to_bridge_gathering to_bridge_ice to_bridge_signaling
on_change (connection_change s) = connection (pos (to_bridge_connection s))
on_change (gathering_change s) = gathering (pos (to_bridge_gathering s))
on_change (ice_change s) = ice (pos (to_bridge_ice s))
on_change (signaling_change s) = signaling (pos (to_bridge_signaling s))

-- A reader of the header, native/include/lumenrtc.h: what each callback's number stands for.
abbrev connection_states : List PeerConnectionState
connection_states = connection_new ∷ connecting ∷ connected ∷ disconnected ∷ failed ∷ closed ∷ []

abbrev gathering_states : List IceGatheringState
gathering_states = gathering_new ∷ gathering_started ∷ gathering_complete ∷ []

abbrev ice_states : List IceConnectionState
ice_states =
    ice_new ∷ ice_checking ∷ ice_completed ∷ ice_connected ∷ ice_failed ∷ ice_disconnected
    ∷ ice_closed ∷ ice_max ∷ []

abbrev signaling_states : List SignalingState
signaling_states =
    stable ∷ have_local_offer ∷ have_remote_offer ∷ have_local_pranswer ∷ have_remote_pranswer
    ∷ signaling_closed ∷ []

abbrev nth : {A : Type 0} → List A → ℤ → (A → Change) → Option Change
nth states (negsuc n) f = none
nth states (pos n) f = elim (get_elem? states n) [ none ↦ none | some s ↦ some (f s) ]

-- The change that a client reads off a call of one of its four state callbacks.
abbrev pub read_change : List Call → Option Change
read_change (peer_connection_state u n ∷ []) = nth connection_states n connection_change
read_change (ice_gathering_state u n ∷ []) = nth gathering_states n gathering_change
read_change (ice_connection_state u n ∷ []) = nth ice_states n ice_change
read_change (signaling_state u n ∷ []) = nth signaling_states n signaling_change
read_change calls = none

-- The callback of a change of state.
abbrev pub hears : Observer → Change → Bool
hears o (connection_change s) = o.callbacks.on_peer_connection_state
hears o (gathering_change s) = o.callbacks.on_ice_gathering_state
hears o (ice_change s) = o.callbacks.on_ice_connection_state
hears o (signaling_change s) = o.callbacks.on_signaling_state

nth_connection :
    (s : PeerConnectionState)
    → nth connection_states (pos (to_bridge_connection s)) connection_change
      ≡ some (connection_change s)
unfolding to_bridge_connection
nth_connection connection_new = refl
nth_connection connecting = refl
nth_connection connected = refl
nth_connection disconnected = refl
nth_connection failed = refl
nth_connection closed = refl

nth_gathering :
    (s : IceGatheringState)
    → nth gathering_states (pos (to_bridge_gathering s)) gathering_change
      ≡ some (gathering_change s)
unfolding to_bridge_gathering
nth_gathering gathering_new = refl
nth_gathering gathering_started = refl
nth_gathering gathering_complete = refl

nth_ice :
    (s : IceConnectionState)
    → nth ice_states (pos (to_bridge_ice s)) ice_change ≡ some (ice_change s)
unfolding to_bridge_ice
nth_ice ice_new = refl
nth_ice ice_checking = refl
nth_ice ice_connected = refl
nth_ice ice_completed = refl
nth_ice ice_failed = refl
nth_ice ice_disconnected = refl
nth_ice ice_closed = refl
nth_ice ice_max = refl

nth_signaling :
    (s : SignalingState)
    → nth signaling_states (pos (to_bridge_signaling s)) signaling_change
      ≡ some (signaling_change s)
unfolding to_bridge_signaling
nth_signaling stable = refl
nth_signaling have_local_offer = refl
nth_signaling have_local_pranswer = refl
nth_signaling have_remote_offer = refl
nth_signaling have_remote_pranswer = refl
nth_signaling signaling_closed = refl

when_set_reads :
    (set : Bool) (c : Call) (change : Change)
    → read_change (c ∷ []) ≡ some change
    → (set ≡ true → read_change (when_set set c) ≡ some change)
      × (set ≡ false → when_set set c ≡ [])
when_set_reads true c change e = (λ _. e, λ p. cc)
when_set_reads false c change e = (λ p. cc, λ _. refl)

-- A client whose callback for it is set reads, with the header's constants, the very state that WebRTC has
-- changed to, through the bridge and its observer, in one call; a client whose callback is null gets none.
pub read_change-on_change :
    (heap : Allocator) (o : Observer) (change : Change) (hs : Handles)
    → (hears o change ≡ true → read_change (notify heap o (on_change change) hs).1 ≡ some change)
      × (hears o change ≡ false → (notify heap o (on_change change) hs).1 ≡ [])
unfolding notify on_change to_bridge_connection to_bridge_gathering to_bridge_ice
    to_bridge_signaling
read_change-on_change heap o (connection_change s) hs = when_set_reads _ _ _ (nth_connection s)
read_change-on_change heap o (gathering_change s) hs = when_set_reads _ _ _ (nth_gathering s)
read_change-on_change heap o (ice_change s) hs = when_set_reads _ _ _ (nth_ice s)
read_change-on_change heap o (signaling_change s) hs = when_set_reads _ _ _ (nth_signaling s)
