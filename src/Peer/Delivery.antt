-- ===== src/Peer/Delivery.antt =====
-- What a client gets of a peer connection's notifications.
use lumen_rtc.Base.{
  ℕ, ◌≡◌, refl, Bool, true, false, List, [], ◌∷◌, Option, none, some, if◌then◌else◌, Allocator, All,
}
use lumen_rtc.Text.{c_string}
use lumen_rtc.MediaList.{same_text}
use lumen_rtc.Peer.Events.{
  video, audio, Observer, Track, Receiver, Transceiver, Candidate, Handles, Call, Notification,
  signaling_state, peer_connection_state, ice_gathering_state, ice_connection_state, ice_candidate,
  data_channel, renegotiation_needed, track, video_track, audio_track, remove_track, signaling,
  connection, gathering, ice, candidate, channel, renegotiation, track_added, track_removed,
  on_ice_candidate, wrap, on_data_channel, by_kind, with_track, with_receiver, on_track,
  on_remove_track, notify, when_set,
}

-- The handles that the client was given, onto those that were live.
abbrev pub given_onto : List Call → List ℕ → List ℕ
given_onto [] live = live
given_onto (data_channel u h ∷ cs) live = given_onto cs (h ∷ live)
given_onto (track u x r ∷ cs) live = given_onto cs (r ∷ x ∷ live)
given_onto (video_track u h ∷ cs) live = given_onto cs (h ∷ live)
given_onto (audio_track u h ∷ cs) live = given_onto cs (h ∷ live)
given_onto (remove_track u h ∷ cs) live = given_onto cs (h ∷ live)
given_onto (c ∷ cs) live = given_onto cs live

-- The call goes to a callback that is set, with the observer's user data.
abbrev pub Allowed : Observer → Call → Type 0
Allowed o (signaling_state u s) = (o.callbacks.on_signaling_state ≡ true) × (u ≡ o.user_data)
Allowed o (peer_connection_state u s) =
    (o.callbacks.on_peer_connection_state ≡ true) × (u ≡ o.user_data)
Allowed o (ice_gathering_state u s) =
    (o.callbacks.on_ice_gathering_state ≡ true) × (u ≡ o.user_data)
Allowed o (ice_connection_state u s) =
    (o.callbacks.on_ice_connection_state ≡ true) × (u ≡ o.user_data)
Allowed o (ice_candidate u m i c) = (o.callbacks.on_ice_candidate ≡ true) × (u ≡ o.user_data)
Allowed o (data_channel u h) = (o.callbacks.on_data_channel ≡ true) × (u ≡ o.user_data)
Allowed o (renegotiation_needed u) =
    (o.callbacks.on_renegotiation_needed ≡ true) × (u ≡ o.user_data)
Allowed o (track u x r) = (o.callbacks.on_track ≡ true) × (u ≡ o.user_data)
Allowed o (video_track u h) = (o.callbacks.on_video_track ≡ true) × (u ≡ o.user_data)
Allowed o (audio_track u h) = (o.callbacks.on_audio_track ≡ true) × (u ≡ o.user_data)
Allowed o (remove_track u h) = (o.callbacks.on_remove_track ≡ true) × (u ≡ o.user_data)

abbrev Delivered : Observer → Handles → Handles × List Call → Type 0
Delivered o hs (hs1, calls) = (hs1.live ≡ given_onto calls hs.live) × All (Allowed o) calls

module _ (heap : Allocator) (o : Observer) where
  when_set-Delivered :
      (set : Bool) (c : Call) (hs : Handles)
      → (set ≡ true → Delivered o hs (hs, c ∷ []))
      → Delivered o hs (hs, when_set set c)
  when_set-Delivered true c hs h = h refl
  when_set-Delivered false c hs h = (refl, tt)

  if-Delivered :
      (b : Bool) (hs : Handles) (x y : Handles × List Call)
      → (b ≡ true → Delivered o hs x)
      → Delivered o hs y
      → Delivered o hs (if b then x else y)
  if-Delivered true hs x y p q = p refl
  if-Delivered false hs x y p q = q

  candidate-Delivered :
      (c : Option Candidate) (hs : Handles) → Delivered o hs (hs, on_ice_candidate o c)
  unfolding on_ice_candidate
  candidate-Delivered none hs = (refl, tt)
  candidate-Delivered (some c) hs =
      when_set-Delivered o.callbacks.on_ice_candidate _ hs (λ e. (refl, ((e, refl), tt)))

  channel-Delivered : (c : Option ℕ) (hs : Handles) → Delivered o hs (on_data_channel heap o c hs)
  unfolding on_data_channel wrap
  channel-Delivered none hs = (refl, tt)
  channel-Delivered (some object) hs =
      if-Delivered o.callbacks.on_data_channel hs _ _ (λ e. (refl, ((e, refl), tt))) (refl, tt)

  kind-Delivered : (t : Track) (hs : Handles) → Delivered o hs (by_kind heap o t hs)
  unfolding by_kind wrap
  kind-Delivered t hs =
      if-Delivered (same_text (c_string t.kind) video) hs as_video
        (if same_text (c_string t.kind) audio then as_audio else (hs, []))
        (λ v.
          if-Delivered o.callbacks.on_video_track hs (wrapped, video_track o.user_data h ∷ [])
            (hs, []) (λ e. (refl, ((e, refl), tt))) (refl, tt))
        (if-Delivered (same_text (c_string t.kind) audio) hs as_audio (hs, [])
          (λ a.
            if-Delivered o.callbacks.on_audio_track hs (wrapped, audio_track o.user_data h ∷ [])
              (hs, []) (λ e. (refl, ((e, refl), tt))) (refl, tt))
          (refl, tt))
    where
      h : ℕ
      h = (wrap heap t.object hs).0

      wrapped : Handles
      wrapped = (wrap heap t.object hs).1

      as_video : Handles × List Call
      as_video =
          if o.callbacks.on_video_track then (wrapped, video_track o.user_data h ∷ []) else (hs, [])

      as_audio : Handles × List Call
      as_audio =
          if o.callbacks.on_audio_track then (wrapped, audio_track o.user_data h ∷ []) else (hs, [])

  track-Delivered :
      (x r : ℕ) (t : Track) (hs : Handles) → Delivered o hs (with_track heap o x r t hs)
  unfolding with_track
  track-Delivered x r t hs =
      let (h1, hs1) = wrap heap x hs in
      let (h2, hs2) = wrap heap r hs1 in
      let d = kind-Delivered t hs2 in
      if-Delivered o.callbacks.on_track hs _ _ (λ e. (d.0, ((e, refl), d.1))) (kind-Delivered t hs)

  receiver-Delivered :
      (x : ℕ) (r : Option Receiver) (hs : Handles) → Delivered o hs (with_receiver heap o x r hs)
  unfolding with_receiver
  receiver-Delivered x none hs = (refl, tt)
  receiver-Delivered x (some r) hs = go r.track
    where
      go :
          (t : Option Track)
          → Delivered o hs (elim t [ none ↦ (hs, []) | some t ↦ with_track heap o x r.object t hs ])
      go none = (refl, tt)
      go (some t) = track-Delivered x r.object t hs

  added-Delivered : (t : Option Transceiver) (hs : Handles) → Delivered o hs (on_track heap o t hs)
  unfolding on_track
  added-Delivered none hs = (refl, tt)
  added-Delivered (some t) hs = receiver-Delivered t.object t.receiver hs

  removed-Delivered :
      (r : Option Receiver) (hs : Handles) → Delivered o hs (on_remove_track heap o r hs)
  unfolding on_remove_track wrap
  removed-Delivered none hs = (refl, tt)
  removed-Delivered (some r) hs =
      if-Delivered o.callbacks.on_remove_track hs _ _ (λ e. (refl, ((e, refl), tt))) (refl, tt)

  -- Whatever WebRTC notifies: only callbacks that are set are called, each with the user data that was
  -- registered with it, and every handle that is created for the notification is given to the client, so
  -- that none is lost.
  pub notify-Delivered :
      (n : Notification) (hs : Handles)
      → let (hs1, calls) = notify heap o n hs in
        (hs1.live ≡ given_onto calls hs.live) × All (Allowed o) calls
  unfolding notify
  notify-Delivered (signaling s) hs =
      when_set-Delivered o.callbacks.on_signaling_state _ hs (λ e. (refl, ((e, refl), tt)))
  notify-Delivered (connection s) hs =
      when_set-Delivered o.callbacks.on_peer_connection_state _ hs (λ e. (refl, ((e, refl), tt)))
  notify-Delivered (gathering s) hs =
      when_set-Delivered o.callbacks.on_ice_gathering_state _ hs (λ e. (refl, ((e, refl), tt)))
  notify-Delivered (ice s) hs =
      when_set-Delivered o.callbacks.on_ice_connection_state _ hs (λ e. (refl, ((e, refl), tt)))
  notify-Delivered (candidate c) hs = candidate-Delivered c hs
  notify-Delivered (channel c) hs = channel-Delivered c hs
  notify-Delivered renegotiation hs =
      when_set-Delivered o.callbacks.on_renegotiation_needed _ hs (λ e. (refl, ((e, refl), tt)))
  notify-Delivered (track_added t) hs = added-Delivered t hs
  notify-Delivered (track_removed r) hs = removed-Delivered r hs
