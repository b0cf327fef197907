-- ===== src/Peer/Lookup.antt =====
-- The handles that a client asks a peer connection or a receiver for, native/src/lumenrtc_impl.cpp: the
-- counts and the getters by index. A list is what WebRTC answers, `none` a null handle or a handle with
-- no `ref`; a null object in the list is `none` too.
use lumen_rtc.Base.{
  ℕ, zero, suc, ◌<◌, ◌≡◌, refl, List, [], ◌∷◌, Option, none, some, arith, if◌then◌else◌, count, ap,
  subst, ◌∙◌, sym, ◌≤◌, length, get_elem?, Allocator,
}
use lumen_rtc.Text.{Bytes, c_string}
use lumen_rtc.MediaList.{same_text}
use lumen_rtc.Peer.Events.{Handles, Track, wrap, audio, video}

abbrev pub Objects : Type 0
Objects = Option (List (Option ℕ))

abbrev pub count_of : Objects → ℕ
count_of none = 0
count_of (some objects) = length objects

abbrev flatten : Option (Option ℕ) → Option ℕ
flatten none = none
flatten (some o) = o

-- The object at an index; nothing past the end.
abbrev pub object_at : Objects → ℕ → Option ℕ
object_at none index = none
object_at (some objects) index = flatten (get_elem? objects index)

-- lrtc_impl_peer_connection_sender_count, _receiver_count and _transceiver_count, and
-- lrtc_impl_rtp_receiver_stream_count.
unfoldable pub sender_count : Objects → ℕ
sender_count = count_of

unfoldable pub receiver_count : Objects → ℕ
receiver_count = count_of

unfoldable pub transceiver_count : Objects → ℕ
transceiver_count = count_of

unfoldable pub stream_count : Objects → ℕ
stream_count = count_of

module _ (heap : Allocator) where
  -- A handle on an object that is not null.
  unfoldable pub handle_on : Option ℕ → Handles → Option ℕ × Handles
  unfolding wrap
  handle_on none hs = (none, hs)
  handle_on (some object) hs = let (h, hs1) = wrap heap object hs in (some h, hs1)

  -- lrtc_impl_peer_connection_get_sender.
  unfoldable pub get_sender : Objects → ℕ → Handles → Option ℕ × Handles
  unfolding handle_on
  get_sender senders index hs = handle_on (object_at senders index) hs

  -- lrtc_impl_peer_connection_get_receiver.
  unfoldable pub get_receiver : Objects → ℕ → Handles → Option ℕ × Handles
  unfolding handle_on
  get_receiver receivers index hs = handle_on (object_at receivers index) hs

  -- lrtc_impl_peer_connection_get_transceiver.
  unfoldable pub get_transceiver : Objects → ℕ → Handles → Option ℕ × Handles
  unfolding handle_on
  get_transceiver transceivers index hs = handle_on (object_at transceivers index) hs

  -- lrtc_impl_rtp_receiver_get_stream.
  unfoldable pub get_stream : Objects → ℕ → Handles → Option ℕ × Handles
  unfolding handle_on
  get_stream streams index hs = handle_on (object_at streams index) hs

  -- A handle on a track of the kind, by strcmp.
  abbrev of_kind : Bytes → Option Track → Option ℕ
  of_kind kind none = none
  of_kind kind (some t) = if same_text (c_string t.kind) kind then some t.object else none

  -- lrtc_impl_rtp_sender_get_audio_track and _get_video_track, of the sender's track; `none` is a null
  -- handle, a handle with no `ref` or a null track.
  unfoldable pub sender_audio_track : Option Track → Handles → Option ℕ × Handles
  unfolding handle_on
  sender_audio_track track hs = handle_on (of_kind audio track) hs

  unfoldable pub sender_video_track : Option Track → Handles → Option ℕ × Handles
  unfolding handle_on
  sender_video_track track hs = handle_on (of_kind video track) hs

  -- lrtc_impl_rtp_receiver_get_audio_track and _get_video_track.
  unfoldable pub receiver_audio_track : Option Track → Handles → Option ℕ × Handles
  unfolding handle_on
  receiver_audio_track track hs = handle_on (of_kind audio track) hs

  unfoldable pub receiver_video_track : Option Track → Handles → Option ℕ × Handles
  unfolding handle_on
  receiver_video_track track hs = handle_on (of_kind video track) hs

  -- lrtc_impl_rtp_transceiver_get_sender and _get_receiver.
  unfoldable pub transceiver_sender : Option ℕ → Handles → Option ℕ × Handles
  unfolding handle_on
  transceiver_sender = handle_on

  unfoldable pub transceiver_receiver : Option ℕ → Handles → Option ℕ × Handles
  unfolding handle_on
  transceiver_receiver = handle_on

  -- A new handle on the object, which changes no other.
  abbrev pub IsNew : Handles → ℕ → Option ℕ × Handles → Type 0
  IsNew hs object (result, hs1) =
      (h : ℕ) × (result ≡ some h)
      × (count h hs.live ≡ 0)
      × (hs1.live ≡ h ∷ hs.live)
      × (hs1.ref h ≡ object)
      × ((a : ℕ) → 0 < count a hs.live → hs1.ref a ≡ hs.ref a)

  handle_on-IsNew : (object : ℕ) (hs : Handles) → IsNew hs object (handle_on (some object) hs)
  unfolding handle_on wrap
  handle_on-IsNew object hs = (
    _,
    refl,
    heap.fresh_new hs.live,
    refl,
    ground arith,
    λ a p. ground (arith, heap.fresh_new hs.live),
  )

  object_past : (objects : Objects) (i : ℕ) → count_of objects ≤ i → object_at objects i ≡ none
  object_past none i h = refl
  object_past (some os) i h = past os i h
    where
      past : (os : List (Option ℕ)) (i : ℕ) → length os ≤ i → object_at (some os) i ≡ none
      past [] i h = refl
      past (o ∷ os) zero h = absurd (omega arith)
      past (o ∷ os) (suc i) h = past os i (omega arith)

  handle_on-none : (hs : Handles) → handle_on none hs ≡ (none, hs)
  unfolding handle_on
  handle_on-none hs = refl

  -- For an index at or past the count of transceivers, and for a null transceiver, the call gives no
  -- handle and creates none; for any other it gives a new handle on the transceiver at the index, and
  -- the handles that clients have keep theirs.
  pub get_transceiver_lem :
      (transceivers : Objects) (i : ℕ) (hs : Handles)
      → (transceiver_count transceivers ≤ i → get_transceiver transceivers i hs ≡ (none, hs))
        × (object_at transceivers i ≡ none → get_transceiver transceivers i hs ≡ (none, hs))
        × ((object : ℕ)
            → object_at transceivers i ≡ some object
            → IsNew hs object (get_transceiver transceivers i hs))
  unfolding get_transceiver transceiver_count
  get_transceiver_lem transceivers i hs = (
    (λ h. ap (λ o. handle_on o hs) (object_past transceivers i h) ∙ handle_on-none hs),
    (λ e. ap (λ o. handle_on o hs) e ∙ handle_on-none hs),
    λ object e. subst (λ o. IsNew hs object (handle_on o hs)) (sym e) (handle_on-IsNew object hs),
  )
