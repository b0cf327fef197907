-- ===== src/Lib.antt =====
-- LumenRTC: a C interface to WebRTC (native/src/lumenrtc_impl.cpp, with its header
-- native/include/lumenrtc.h) over a bridge of C++ wrappers (bridge/lumenrtc_bridge). A client holds
-- handles, addresses of small objects with a counted reference `ref` to a bridge object. Its calls test
-- the handles for null and pass the rest to the bridge; notifications come back as calls of the
-- callbacks that it registered, with new handles.
--
-- The files, and the code that each is about:
--   Base           shared names: tests, lists, integers, and the heap's addresses
--   FramePool      the pool of video frame handles (AllocateVideoFrameHandle, FreeVideoFrameHandle,
--                  VideoSinkImpl::OnFrame, lrtc_impl_video_frame_retain and _release)
--   Text           texts across the interface: CStringEqualsIgnoreCase, MimeEquals,
--                  IsTraceIceNativeEnabled, BuildStringVector, and in Text/Copy CopyPortableString
--   Codecs         BuildCodecPreferences, and in Codecs/Preferences the two calls that apply it
--   Json           AppendJsonEscaped, AppendJsonString, BuildStatsJson, BuildCodecMimeJson and
--                  BuildRtpCapabilitiesJson; Json/Value is JSON as such, Json/Escape a reader of strings,
--                  Json/Numbers and Json/Parser one of documents; Json/RoundTrip and Json/Reading are about
--                  what it reads of the written texts
--   Encoding       BuildEncodingParameters and RTCRtpEncodingParametersImpl
--                  (bridge/lumenrtc_bridge/src/rtc_rtp_parameters_impl.cc); Encoding/Calls and
--                  Encoding/Texts the calls on senders and receivers; Encoding/Transceiver
--                  NormalizeTransceiverDirection and BuildTransceiverInit
--   Capturer       bridge/lumenrtc_bridge/src/rtc_desktop_capturer_impl.cc
--   MediaList      bridge/lumenrtc_bridge/src/rtc_desktop_media_list_impl.cc; MediaList/Queue its
--                  thumbnail requests
--   Desktop        the calls lrtc_impl_desktop_media_list_*, lrtc_impl_media_source_get_* and
--                  lrtc_impl_desktop_capturer_* on these two
--   Peer           CopyConfig (Peer/Config), PeerConnectionObserverImpl (Peer/Events), and the getters of
--                  handles by index and of tracks (Peer/Lookup)
--   Connection     bridge/lumenrtc_bridge/src/rtc_peerconnection_impl.cc: what it hands to WebRTC for a new
--                  connection (Connection/Native), the states that it tells (Connection/States), its state
--                  (Connection/Bridge) and requests (Connection/Operations); Connection/Closing,
--                  Connection/Life, Connection/Streams and Connection/Follow are about any order of them.
--                  Connection/Calls is the calls lrtc_impl_peer_connection_add_* and _remove_* and the
--                  creation of channels, Connection/Giving what they ask WebRTC for
--   Exchange       session descriptions and statistics: the calls lrtc_impl_peer_connection_create_offer
--                  to _get_receiver_stats with SetLocalDescription and its like; Exchange/Answers and
--                  Exchange/Once their callbacks, Exchange/Closed a closed connection
--   Factory        bridge/lumenrtc_bridge/src/rtc_peerconnection_factory_impl.cc: its threads
--                  (Factory/Invariant), devices and capabilities (Factory/Devices), and who keeps a
--                  connection alive (Factory/Lifetime)
--   MediaStream    bridge/lumenrtc_bridge/src/rtc_media_stream_impl.cc, and the calls
--                  lrtc_impl_media_stream_add_* and _remove_*
--   AudioDevice    the calls lrtc_impl_audio_device_*, with
--                  bridge/lumenrtc_bridge/src/rtc_audio_device_impl.cc; AudioDevice/Switch is about the order
--                  of switches
--   VideoCapture   cameras: the calls lrtc_impl_video_device_* and lrtc_impl_video_capturer_*, with
--                  bridge/lumenrtc_bridge/src/rtc_video_device_impl.cc and
--                  bridge/lumenrtc_bridge/src/internal/vcm_capturer.cc; VideoCapture/Life is about a capturer's
--                  life, VideoCapture/Choice about the choice of a camera
--   Creation       the calls that create devices, sources, tracks, streams, lists, capturers and constraints;
--                  Creation/Given is about their handles
--   Capability     bridge/lumenrtc_bridge/src/rtc_rtp_capabilities_impl.cc: the texts of a codec's parameters
--                  (Capability/Split, Capability/Fmtp)
--   Picture        bridge/lumenrtc_bridge/src/rtc_video_frame_impl.cc, and the calls
--                  lrtc_impl_video_frame_width to _to_argb: planes (Picture/Planes) and the conversion
--                  (Picture/Convert)
--   AudioProcessing  bridge/lumenrtc_bridge/src/rtc_audio_processing_impl.cc; AudioProcessing/Rates is about
--                  the rates that a processor is told
--   Logging        the calls lrtc_impl_logging_* and bridge/lumenrtc_bridge/src/rtc_logging.cc;
--                  Logging/Delivery is about who gets a message
--   Sender         the calls lrtc_impl_rtp_sender_* on tracks, stream ids and DTLS, with
--                  bridge/lumenrtc_bridge/src/rtc_rtp_sender_impl.cc and rtc_dtls_transport_impl.cc
--   Transceiver    the calls lrtc_impl_rtp_transceiver_*, with
--                  bridge/lumenrtc_bridge/src/rtc_rtp_transceiver_impl.cc
--   Tracks         the calls lrtc_impl_audio_track_*, _audio_sink_*, _video_track_* and _video_sink_*, with
--                  bridge/lumenrtc_bridge/src/rtc_audio_track_impl.h; Tracks/Sinks is about what an audio
--                  track's sinks hear
--   Cryptor        bridge/lumenrtc_bridge/src/rtc_frame_cryptor_impl.cc; Cryptor/Keys is about its keys
--   Renderers      bridge/lumenrtc_bridge/src/rtc_video_sink_adapter.cc (Renderers/Frames) and
--                  bridge/lumenrtc_bridge/src/internal/custom_audio_transport_impl.cc (Renderers/Senders)
--   Dtmf           the DTMF handles of one RTP sender, over
--                  bridge/lumenrtc_bridge/src/rtc_dtmf_sender_impl.cc; Dtmf/Insert is about its tones
--   Channel        the observer of a data channel against OnMessage,
--                  bridge/lumenrtc_bridge/src/rtc_data_channel_impl.cc; Channel/States is about its states
--                  and what a client sends
--   Tests          the theorems at concrete inputs
--
-- State is a record, an operation a function to the new state with its result and what it sends out, and
-- each effect under a mutex or on one thread is one step. Reachability (`Reach`, `Run`) is over any order
-- of steps. A null pointer is `none`. Objects are addresses; `Allocator` is what the models use of
-- `operator new`. A text is the list of its bytes. A call through a null pointer is an outcome, `crashes`,
-- or `none` in Exchange and in sequences of requests.
--
-- WebRTC is a parameter: what SelectSource, GetSourceList, SetParameters, a connection's requests, its
-- parsers and the capabilities answer, whether a stream calls OnChanged within AddTrack, the modules for
-- cameras and audio devices, and `double`
-- with the tests that the code makes on it. Bounds: the pool holds sixteen frames, a configuration
-- eight servers, and a size is taken modulo 2^64 and 2^32 where the code narrows it. The decimal
-- digits are on fuel, one more than the number, which has no more digits than that; the
-- reader of documents is on fuel, and Json/Steps counts what a value takes.
--
-- Not modelled: pixel data, the Windows branches, the texts of session
-- descriptions, the state getters of the bridge's connection, and the wrappers that pass a
-- call straight on to WebRTC, the bridge's copies of other projects' code (base/portable.h, win), the
-- generated exports, and the C# wrapper. In Peer, Connection and Dtmf the objects are numbers, and
-- counted references are not counted: an object that a handle refers to stays. Factory/Lifetime counts
-- those of the connections.
pub mod AudioDevice
pub mod AudioProcessing
pub mod Base
pub mod Capability
pub mod Capturer
pub mod Channel
pub mod Codecs
pub mod Connection
pub mod Creation
pub mod Cryptor
pub mod Desktop
pub mod Dtmf
pub mod Encoding
pub mod Exchange
pub mod Factory
pub mod FramePool
pub mod Json
pub mod Logging
pub mod MediaList
pub mod MediaStream
pub mod Peer
pub mod Picture
pub mod Renderers
pub mod Sender
pub mod Tests
pub mod Text
pub mod Tracks
pub mod Transceiver
pub mod VideoCapture
