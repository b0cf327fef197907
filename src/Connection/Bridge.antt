-- ===== src/Connection/Bridge.antt =====
-- RTCPeerConnectionImpl, bridge/lumenrtc_bridge/src/rtc_peerconnection_impl.cc: its state and its operations,
-- but for the session descriptions and the statistics. The bridge's objects are their addresses.
use lumen_rtc.Base.{
  ℕ, Bool, List, [], ◌∷◌, ◌++◌, Option, none, some, if◌then◌else◌, ◌==◌, ℤ, is_some,
}
use lumen_rtc.Text.{Bytes, c_string}
use lumen_rtc.MediaList.{same_text}
use lumen_rtc.Peer.Config.{Configuration}
use lumen_rtc.Peer.Events.{Track, audio, video}
use lumen_rtc.Connection.Native.{MediaType}

-- A call that dereferences a null pointer, or one that returns.
pub data Outcome (A : Type 0) : Type 0 where
  crashes : Outcome A
  returns : A → Outcome A

-- RTCDataChannelInit and webrtc::DataChannelInit: the fields that they share.
pub record ChannelInit : Type 0 where
  pub ordered : Bool
  pub reliable : Bool
  pub max_retransmit_time : ℤ
  pub max_retransmits : ℤ
  pub protocol : Bytes
  pub negotiated : Bool
  pub id : ℤ

-- What the bridge asks of WebRTC's connection; `I` is a transceiver's initialisation.
pub data Request (I : Type 0) : Type 0 where
  close_connection : Request I
  add_ice_candidate : Bytes → ℤ → Bytes → Request I
  restart_ice_gathering : Request I
  open_channel : Bytes → ChannelInit → Request I
  add_stream_of remove_stream_of : ℕ → Request I
  add_track_of : ℕ → List Bytes → Request I
  remove_track_of : ℕ → Request I
  transceiver_of_track : ℕ → Option I → Request I
  transceiver_of_type : MediaType → Option I → Request I

-- WebRTC, when a call is made: the object that a request gives, or `none` for an error, which stands for
-- `false` too; and what its parser and its lists say.
pub record WebRtc (I : Type 0) : Type 0 where
  pub answer : Request I → Option ℕ
  pub parses_candidate : Bytes → ℤ → Bytes → Bool
  pub senders : List ℕ
  pub receivers : List ℕ
  pub transceivers : List ℕ

-- A MediaStreamImpl on a stream of the remote side.
pub record Remote : Type 0 where
  pub wrapper : ℕ
  pub stream : ℕ

pub record Connection : Type 0 where
  -- `rtc_peerconnection_`.
  pub native : Option ℕ
  pub observer : Option ℕ
  pub local_streams : List ℕ
  pub remote_streams : List Remote
  pub data_channel : Option ℕ
  pub configuration : Configuration

-- A request to WebRTC, and what the observer is told of remote streams and channels.
pub data Event (I : Type 0) : Type 0 where
  asks : Request I → Event I
  tells_stream tells_no_stream tells_channel : ℕ → Event I

-- What an operation gives back: nothing, a Boolean, a number, an object or null, or a list of objects.
pub data Reply : Type 0 where
  unit : Reply
  flag : Bool → Reply
  number : ℤ → Reply
  object : Option ℕ → Reply
  objects : List ℕ → Reply

-- The constructor, with Initialize: `created` is what CreatePeerConnectionOrError gives. Its failure is
-- Close, which finds no connection.
unfoldable pub initialize : Configuration → Option ℕ → Connection × Bool
initialize configuration created = (
  record {
    native = created;
    observer = none;
    local_streams = [];
    remote_streams = [];
    data_channel = none;
    configuration = configuration;
  },
  is_some created,
)

-- ToNativeTrack, of a track or null. A wrapper and its WebRTC object have one number.
unfoldable pub to_native_track : Option Track → Option ℕ
to_native_track none = none
to_native_track (some t) =
    if same_text (c_string t.kind) video
    then some t.object
    else if same_text (c_string t.kind) audio
    then some t.object
    else none

-- The first of the remote streams with WebRTC's stream.
unfoldable pub find_remote : ℕ → List Remote → Option Remote
find_remote stream [] = none
find_remote stream (r ∷ rs) =
    let rest = find_remote stream rs in if r.stream == stream then some r else rest

unfoldable pub erase_remote : ℕ → List Remote → List Remote
erase_remote stream [] = []
erase_remote stream (r ∷ rs) =
    let rest = erase_remote stream rs in if r.stream == stream then rs else r ∷ rest

module _ {I : Type 0} where
  -- A call of the observer, where one is registered.
  abbrev pub tell : Option ℕ → Event I → List (Event I)
  tell none e = []
  tell (some o) e = e ∷ []

  abbrev pub tell_removed : Option ℕ → List Remote → List (Event I)
  tell_removed o [] = []
  tell_removed o (r ∷ rs) = tell o (tells_no_stream r.wrapper) ++ tell_removed o rs

  -- OnAddStream, whose new wrapper is given.
  unfoldable pub on_add_stream : ℕ → ℕ → Connection → Connection × List (Event I)
  on_add_stream wrapper stream c = (
    record c {
      remote_streams = c.remote_streams ++ record { wrapper = wrapper; stream = stream } ∷ [];
    },
    tell c.observer (tells_stream wrapper),
  )

  -- OnRemoveStream.
  unfoldable pub on_remove_stream : ℕ → Connection → Connection × List (Event I)
  unfolding find_remote erase_remote
  on_remove_stream stream c = elim (find_remote stream c.remote_streams) [
    | none ↦ (c, [])
    | some r ↦ (
      record c { remote_streams = erase_remote stream c.remote_streams },
      tell c.observer (tells_no_stream r.wrapper),
    )
  ]

  -- OnDataChannel, whose new wrapper is given.
  unfoldable pub on_channel : ℕ → Connection → Connection × List (Event I)
  on_channel wrapper c =
      (record c { data_channel = some wrapper }, tell c.observer (tells_channel wrapper))

  -- Close.
  unfoldable pub close : Connection → Connection × List (Event I)
  close c = elim c.native [
    | none ↦ (c, [])
    | some n ↦ (
      record c { native = none; data_channel = none; local_streams = []; remote_streams = [] },
      asks close_connection ∷ tell_removed c.observer c.remote_streams,
    )
  ]

-- RegisterRTCPeerConnectionObserver and DeRegisterRTCPeerConnectionObserver.
unfoldable pub register_observer : Option ℕ → Connection → Connection
register_observer o c = record c { observer = o }
