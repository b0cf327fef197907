-- ===== src/Peer/Events.antt =====
-- PeerConnectionObserverImpl, native/src/lumenrtc_impl.cpp. Each handler works on a snapshot of the
-- callbacks, which the mutex makes one step; an object of WebRTC is a number.
use lumen_rtc.Base.{
  ℕ, Bool, false, List, [], ◌∷◌, Option, none, some, if◌then◌else◌, ℤ, update, Allocator,
}
use lumen_rtc.Text.{Bytes, c_string}
use lumen_rtc.MediaList.{same_text}

-- lrtc_peer_connection_callbacks_t: which of its pointers are set.
pub record Callbacks : Type 0 where
  pub on_signaling_state : Bool
  pub on_peer_connection_state : Bool
  pub on_ice_gathering_state : Bool
  pub on_ice_connection_state : Bool
  pub on_ice_candidate : Bool
  pub on_data_channel : Bool
  pub on_renegotiation_needed : Bool
  pub on_track : Bool
  pub on_video_track : Bool
  pub on_audio_track : Bool
  pub on_remove_track : Bool

abbrev pub no_callbacks : Callbacks
no_callbacks = record {
  on_signaling_state = false;
  on_peer_connection_state = false;
  on_ice_gathering_state = false;
  on_ice_connection_state = false;
  on_ice_candidate = false;
  on_data_channel = false;
  on_renegotiation_needed = false;
  on_track = false;
  on_video_track = false;
  on_audio_track = false;
  on_remove_track = false;
}

pub record Observer : Type 0 where
  pub callbacks : Callbacks
  pub user_data : ℕ

-- SetCallbacks.
unfoldable pub set_callbacks : Option Callbacks → ℕ → Observer → Observer
set_callbacks none user_data o = record { callbacks = no_callbacks; user_data = user_data }
set_callbacks (some cb) user_data o = record { callbacks = cb; user_data = user_data }

-- RTCMediaTrack, RTCRtpReceiver and RTCRtpTransceiver, with what their getters return.
pub record Track : Type 0 where
  pub object : ℕ
  pub kind : Bytes

pub record Receiver : Type 0 where
  pub object : ℕ
  pub track : Option Track

pub record Transceiver : Type 0 where
  pub object : ℕ
  pub receiver : Option Receiver

-- RTCIceCandidate.
pub record Candidate : Type 0 where
  pub sdp_mid : Bytes
  pub sdp_mline_index : ℤ
  pub candidate : Bytes

-- The handles that were newed and not deleted, and the object that each holds.
pub record Handles : Type 0 where
  pub live : List ℕ
  pub ref : ℕ → ℕ

-- A call of one of the client's callbacks: its user data first, handles by address. `remove_track`
-- passes a null transceiver beside its receiver.
pub data Call : Type 0 where
  signaling_state peer_connection_state ice_gathering_state ice_connection_state : ℕ → ℤ → Call
  ice_candidate : ℕ → Bytes → ℤ → Bytes → Call
  data_channel : ℕ → ℕ → Call
  renegotiation_needed : ℕ → Call
  track : ℕ → ℕ → ℕ → Call
  video_track audio_track : ℕ → ℕ → Call
  remove_track : ℕ → ℕ → Call

-- What WebRTC tells the observer.
pub data Notification : Type 0 where
  signaling connection gathering ice : ℤ → Notification
  candidate : Option Candidate → Notification
  channel : Option ℕ → Notification
  renegotiation : Notification
  track_added : Option Transceiver → Notification
  track_removed : Option Receiver → Notification

abbrev pub video : Bytes
video = b'v' ∷ b'i' ∷ b'd' ∷ b'e' ∷ b'o' ∷ []

abbrev pub audio : Bytes
audio = b'a' ∷ b'u' ∷ b'd' ∷ b'i' ∷ b'o' ∷ []

abbrev pub when_set : Bool → Call → List Call
when_set set c = if set then c ∷ [] else []

-- OnIceCandidate.
unfoldable pub on_ice_candidate : Observer → Option Candidate → List Call
on_ice_candidate o none = []
on_ice_candidate o (some c) =
    when_set o.callbacks.on_ice_candidate
      (ice_candidate o.user_data (c_string c.sdp_mid) c.sdp_mline_index (c_string c.candidate))

module _ (heap : Allocator) where
  -- `new` with `handle->ref = object`.
  unfoldable pub wrap : ℕ → Handles → ℕ × Handles
  wrap object hs =
      let h = heap.fresh hs.live in (h, record { live = h ∷ hs.live; ref = update hs.ref h object })

  -- OnDataChannel.
  unfoldable pub on_data_channel : Observer → Option ℕ → Handles → Handles × List Call
  unfolding wrap
  on_data_channel o none hs = (hs, [])
  on_data_channel o (some object) hs =
      let (h, hs1) = wrap object hs in
      if o.callbacks.on_data_channel then (hs1, data_channel o.user_data h ∷ []) else (hs, [])

  -- The tests of OnTrack on the track's kind.
  unfoldable pub by_kind : Observer → Track → Handles → Handles × List Call
  unfolding wrap
  by_kind o t hs =
      let (h, hs1) = wrap t.object hs in
      if same_text (c_string t.kind) video
      then (if o.callbacks.on_video_track then (hs1, video_track o.user_data h ∷ []) else (hs, []))
      else if same_text (c_string t.kind) audio
      then (if o.callbacks.on_audio_track then (hs1, audio_track o.user_data h ∷ []) else (hs, []))
      else (hs, [])

  -- OnTrack behind its tests for null.
  unfoldable pub with_track : Observer → ℕ → ℕ → Track → Handles → Handles × List Call
  unfolding wrap by_kind
  with_track o transceiver receiver t hs =
      let (x, hs1) = wrap transceiver hs in
      let (r, hs2) = wrap receiver hs1 in
      if o.callbacks.on_track
      then (let (hs3, calls) = by_kind o t hs2 in (hs3, track o.user_data x r ∷ calls))
      else by_kind o t hs

  unfoldable pub with_receiver : Observer → ℕ → Option Receiver → Handles → Handles × List Call
  unfolding with_track
  with_receiver o transceiver none hs = (hs, [])
  with_receiver o transceiver (some r) hs = elim r.track [
    | none ↦ (hs, [])
    | some t ↦ with_track o transceiver r.object t hs
  ]

  -- OnTrack.
  unfoldable pub on_track : Observer → Option Transceiver → Handles → Handles × List Call
  unfolding with_receiver
  on_track o none hs = (hs, [])
  on_track o (some t) hs = with_receiver o t.object t.receiver hs

  -- OnRemoveTrack.
  unfoldable pub on_remove_track : Observer → Option Receiver → Handles → Handles × List Call
  unfolding wrap
  on_remove_track o none hs = (hs, [])
  on_remove_track o (some r) hs =
      let (h, hs1) = wrap r.object hs in
      if o.callbacks.on_remove_track then (hs1, remove_track o.user_data h ∷ []) else (hs, [])

  -- All handlers; OnSignalingState, OnPeerConnectionState, OnIceGatheringState, OnIceConnectionState and
  -- OnRenegotiationNeeded have no other branch than their callback's test.
  unfoldable pub notify : Observer → Notification → Handles → Handles × List Call
  unfolding on_ice_candidate on_data_channel on_track on_remove_track
  notify o (signaling s) hs =
      (hs, when_set o.callbacks.on_signaling_state (signaling_state o.user_data s))
  notify o (connection s) hs =
      (hs, when_set o.callbacks.on_peer_connection_state (peer_connection_state o.user_data s))
  notify o (gathering s) hs =
      (hs, when_set o.callbacks.on_ice_gathering_state (ice_gathering_state o.user_data s))
  notify o (ice s) hs =
      (hs, when_set o.callbacks.on_ice_connection_state (ice_connection_state o.user_data s))
  notify o (candidate c) hs = (hs, on_ice_candidate o c)
  notify o (channel c) hs = on_data_channel o c hs
  notify o renegotiation hs =
      (hs, when_set o.callbacks.on_renegotiation_needed (renegotiation_needed o.user_data))
  notify o (track_added t) hs = on_track o t hs
  notify o (track_removed r) hs = on_remove_track o r hs
