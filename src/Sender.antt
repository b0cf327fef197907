-- ===== src/Sender.antt =====
-- RTP senders and their DTLS transports: the calls lrtc_impl_rtp_sender_get_dtls_info to
-- _set_stream_ids of native/src/lumenrtc_impl.cpp, over bridge/lumenrtc_bridge/src/rtc_rtp_sender_impl.cc and
-- bridge/lumenrtc_bridge/src/rtc_dtls_transport_impl.cc. A handle that is null or has no `ref` is `none`.
pub mod Tracks
pub mod Streams
use lumen_rtc.Base.{
  ℕ, ◌%◌, ◌^◌, Bool, true, false, List, [], ◌∷◌, Option, none, some, if◌then◌else◌, ◌==◌, ltb,
  length, get_elem?, map, ℤ, pos, negsuc,
}
use lumen_rtc.Text.{Bytes, c_string, build_string_vector}
use lumen_rtc.Text.Copy.{copy_string}
use lumen_rtc.Peer.Events.{Track}
use lumen_rtc.Connection.Bridge.{to_native_track}

-- WebRTC's sender: its track has the number that the track's wrapper has.
pub record Sender : Type 0 where
  pub media_type : ℤ
  pub track : Option ℕ
  pub ssrc : ℕ
  pub id : Bytes
  pub stream_ids : List Bytes

-- RTCMediaType::AUDIO and RTCMediaType::VIDEO.
abbrev pub audio_type : ℕ
audio_type = 0

abbrev pub video_type : ℕ
video_type = 1

abbrev pub is_type : ℕ → ℤ → Bool
is_type t (pos n) = n == t
is_type t (negsuc n) = false

-- RTCRtpSenderImpl::set_track, where WebRTC's SetTrack answers `accepts`, and keeps the track if it is true.
unfoldable pub set_track : (Option ℕ → Sender → Bool) → Option Track → Sender → Bool × Sender
unfolding to_native_track
set_track accepts t s =
    let native = to_native_track t in
    if accepts native s then (true, record s { track = native }) else (false, s)

-- The track of a handle: a null handle is no track, one with no `ref` is refused.
pub data TrackHandle : Type 0 where
  null_handle empty_handle : TrackHandle
  track_of : Track → TrackHandle

replaced : Bool × Sender → ℕ × Option Sender
replaced (ok, s) = (if ok then 1 else 0, some s)

replace_track : (Option ℕ → Sender → Bool) → ℕ → TrackHandle → Option Sender → ℕ × Option Sender
unfolding set_track replaced
replace_track accepts type handle none = (0, none)
replace_track accepts type handle (some s) =
    if is_type type s.media_type
    then elim handle [
      | null_handle ↦ replaced (set_track accepts none s)
      | empty_handle ↦ (0, some s)
      | track_of t ↦ replaced (set_track accepts (some t) s)
    ]
    else (0, some s)

-- lrtc_impl_rtp_sender_replace_audio_track.
unfoldable pub replace_audio_track :
    (Option ℕ → Sender → Bool) → TrackHandle → Option Sender → ℕ × Option Sender
unfolding replace_track
replace_audio_track accepts = replace_track accepts audio_type

-- lrtc_impl_rtp_sender_replace_video_track.
unfoldable pub replace_video_track :
    (Option ℕ → Sender → Bool) → TrackHandle → Option Sender → ℕ × Option Sender
unfolding replace_track
replace_video_track accepts = replace_track accepts video_type

-- lrtc_impl_rtp_sender_get_ssrc.
unfoldable pub get_ssrc : Option Sender → ℕ
get_ssrc none = 0
get_ssrc (some s) = s.ssrc

-- lrtc_impl_rtp_sender_get_media_type.
unfoldable pub get_media_type : Option Sender → ℤ
get_media_type none = negsuc 0
get_media_type (some s) = s.media_type

-- lrtc_impl_rtp_sender_get_id, with the buffer afterwards.
unfoldable pub get_id : Option Sender → Option Bytes → ℕ → ℤ × Option Bytes
unfolding copy_string
get_id none buffer len = (negsuc 0, buffer)
get_id (some s) buffer len = copy_string s.id buffer len

-- RTCRtpSenderImpl::stream_ids, which reads each as a C string.
unfoldable pub bridge_stream_ids : Sender → List Bytes
bridge_stream_ids s = map c_string s.stream_ids

-- lrtc_impl_rtp_sender_stream_id_count.
unfoldable pub stream_id_count : Option Sender → ℕ
unfolding bridge_stream_ids
stream_id_count none = 0
stream_id_count (some s) = length (bridge_stream_ids s) % 2 ^ 32

-- A text that may be missing, with the buffer afterwards.
abbrev pub copy_id : Option Bytes → Option Bytes → ℕ → ℤ × Option Bytes
copy_id none buffer len = (negsuc 0, buffer)
copy_id (some id) buffer len = copy_string id buffer len

-- lrtc_impl_rtp_sender_get_stream_id.
unfoldable pub get_stream_id : Option Sender → ℕ → Option Bytes → ℕ → ℤ × Option Bytes
unfolding copy_string bridge_stream_ids
get_stream_id none index buffer len = (negsuc 0, buffer)
get_stream_id (some s) index buffer len = copy_id (get_elem? (bridge_stream_ids s) index) buffer len

-- lrtc_impl_rtp_sender_set_stream_ids with RTCRtpSenderImpl::set_stream_ids.
unfoldable pub set_stream_ids : Option (List (Option Bytes)) → ℕ → Option Sender → ℕ × Option Sender
unfolding build_string_vector
set_stream_ids ids count none = (0, none)
set_stream_ids ids count (some s) =
    (1, some (record s { stream_ids = build_string_vector ids count }))

-- webrtc::DtlsTransportInformation: the cipher suites are there once they are agreed on.
pub record Information : Type 0 where
  pub state : ℕ
  pub ssl_cipher_suite : Option ℤ
  pub srtp_cipher_suite : Option ℤ

-- lrtc_dtls_transport_info_t.
pub record DtlsInfo : Type 0 where
  pub state : ℕ
  pub ssl_cipher_suite : ℤ
  pub srtp_cipher_suite : ℤ

-- LRTC_DTLS_NEW, without cipher suites.
abbrev pub new_info : DtlsInfo
new_info = record { state = 0; ssl_cipher_suite = pos 0; srtp_cipher_suite = pos 0 }

-- FillDtlsInfo, of a transport that may be null; the second argument says whether `info` is not null. `none`
-- is std::optional's exception for a value that is not there, which nothing catches.
unfoldable pub fill_dtls_info : Option Information → Bool → Option (Bool × Option DtlsInfo)
fill_dtls_info transport false = some (false, none)
fill_dtls_info none true = some (false, some new_info)
fill_dtls_info (some t) true = elim t.ssl_cipher_suite [
  | none ↦ none
  | some ssl ↦ elim t.srtp_cipher_suite [
    | none ↦ none
    | some srtp ↦
        some (
          true,
          some (record { state = t.state; ssl_cipher_suite = ssl; srtp_cipher_suite = srtp }),
        )
  ]
]

-- lrtc_impl_rtp_sender_get_dtls_info and lrtc_impl_rtp_receiver_get_dtls_info, of a handle with a transport
-- that may be null.
unfoldable pub get_dtls_info : Option (Option Information) → Bool → Option (ℕ × Option DtlsInfo)
unfolding fill_dtls_info
get_dtls_info none info? = some (0, none)
get_dtls_info (some transport) info? = elim (fill_dtls_info transport info?) [
  | none ↦ none
  | some r ↦ some (if r.0 then 1 else 0, r.1)
]
