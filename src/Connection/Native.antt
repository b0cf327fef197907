-- ===== src/Connection/Native.antt =====
-- What the bridge hands to WebRTC for a new connection, and the numbers in which it tells WebRTC's states:
-- bridge/lumenrtc_bridge/src/rtc_peerconnection_impl.cc. WebRTC's enumerations are data types, the
-- bridge's and the client's are their numbers.
use lumen_rtc.Base.{
  ℕ, zero, suc, ◌≡◌, ◌↔◌, refl, ap, ◌∙◌, arith, Bool, true, false, List, [], ◌∷◌, take, length,
  Option, none, some, if◌then◌else◌, ◌==◌, ltb, ==_iff, ℤ, pos, negsuc,
}
use lumen_rtc.Text.{Bytes}
use lumen_rtc.Peer.Config.{
  Server, ServerArguments, Arguments, Configuration, copy_config, copy_servers, copied_count,
  server_of, or_empty, max_ice_servers,
}

pub data RtcpMuxPolicy : Type 0 where
  negotiate require : RtcpMuxPolicy

pub data SdpSemantics : Type 0 where
  plan_b unified_plan : SdpSemantics

pub data CandidateNetworkPolicy : Type 0 where
  all_networks low_cost : CandidateNetworkPolicy

pub data BundlePolicy : Type 0 where
  balanced max_bundle max_compat : BundlePolicy

pub data IceTransportsType : Type 0 where
  no_transports relay no_host all_transports : IceTransportsType

pub data TcpCandidatePolicy : Type 0 where
  enabled disabled : TcpCandidatePolicy

pub data MediaType : Type 0 where
  audio_type video_type unsupported : MediaType

-- ToNativeRtcpMuxPolicy, of any number that the client may have passed.
unfoldable pub to_native_rtcp_mux : ℕ → RtcpMuxPolicy
to_native_rtcp_mux n = if n == 0 then negotiate else require

-- ToNativeSdpSemantics.
unfoldable pub to_native_sdp_semantics : ℕ → SdpSemantics
to_native_sdp_semantics n = if n == 0 then plan_b else unified_plan

-- ToNativeCandidateNetworkPolicy.
unfoldable pub to_native_network_policy : ℕ → CandidateNetworkPolicy
to_native_network_policy n = if n == 1 then low_cost else all_networks

-- ToNativeBundlePolicy.
unfoldable pub to_native_bundle : ℕ → BundlePolicy
to_native_bundle n = if n == 1 then max_bundle else if n == 2 then max_compat else balanced

-- ToNativeIceTransportType.
unfoldable pub to_native_ice_transport : ℕ → IceTransportsType
to_native_ice_transport n =
    if n == 0
    then no_transports
    else if n == 1
    then relay
    else if n == 2
    then no_host
    else all_transports

-- ToNativeTcpCandidatePolicy.
unfoldable pub to_native_tcp_policy : ℕ → TcpCandidatePolicy
to_native_tcp_policy n = if n == 1 then disabled else enabled

-- ToNativeMediaType.
unfoldable pub to_native_media_type : ℕ → MediaType
to_native_media_type n = if n == 0 then audio_type else if n == 1 then video_type else unsupported

-- webrtc::PeerConnectionInterface::RTCConfiguration: the fields that the bridge sets.
pub record NativeConfiguration : Type 0 where
  pub servers : List Server
  pub bundle_policy : BundlePolicy
  pub sdp_semantics : SdpSemantics
  pub candidate_network_policy : CandidateNetworkPolicy
  pub tcp_candidate_policy : TcpCandidatePolicy
  pub type : IceTransportsType
  pub rtcp_mux_policy : RtcpMuxPolicy
  pub ice_candidate_pool_size : ℤ
  pub disable_ipv6_on_wifi : Bool
  pub disable_link_local_networks : Bool
  pub max_ipv6_networks : ℤ
  -- `none` where WebRTC's default stays.
  pub screencast_min_bitrate : Option ℤ
  pub dscp : Bool

-- webrtc::PeerConnectionInterface::RTCOfferAnswerOptions: the fields that the bridge sets.
pub record OfferOptions : Type 0 where
  pub offer_to_receive_audio : Bool
  pub offer_to_receive_video : Bool
  pub use_rtp_mux : Bool

abbrev add_server : Server → Bytes → List Server → List Server
add_server s [] rest = rest
add_server s (c ∷ cs) rest = s ∷ rest

-- The loop of RTCPeerConnectionImpl::Initialize over the servers.
unfoldable pub native_servers : List Server → List Server
native_servers [] = []
native_servers (s ∷ ss) = add_server s s.uri (native_servers ss)

-- `configuration_.screencast_min_bitrate` where it is above 0.
abbrev pub positive : ℤ → Option ℤ
positive (pos n) = if n == 0 then none else some (pos n)
positive (negsuc n) = none

-- What Initialize builds before the constraints are copied into it.
unfoldable pub native_configuration : Configuration → NativeConfiguration
unfolding native_servers to_native_bundle to_native_sdp_semantics to_native_network_policy
    to_native_tcp_policy to_native_ice_transport to_native_rtcp_mux
native_configuration c = record {
  servers = native_servers c.ice_servers;
  bundle_policy = to_native_bundle c.options.bundle_policy;
  sdp_semantics = to_native_sdp_semantics c.options.sdp_semantics;
  candidate_network_policy = to_native_network_policy c.options.candidate_network_policy;
  tcp_candidate_policy = to_native_tcp_policy c.options.tcp_candidate_policy;
  type = to_native_ice_transport c.options.type;
  rtcp_mux_policy = to_native_rtcp_mux c.options.rtcp_mux_policy;
  ice_candidate_pool_size = c.options.ice_candidate_pool_size;
  disable_ipv6_on_wifi = c.options.disable_ipv6_on_wifi;
  disable_link_local_networks = c.options.disable_link_local_networks;
  max_ipv6_networks = c.options.max_ipv6_networks;
  screencast_min_bitrate = positive c.options.screencast_min_bitrate;
  dscp = c.options.enable_dscp;
}

-- `offer_answer_options_`.
unfoldable pub offer_options : Configuration → OfferOptions
offer_options c = record {
  offer_to_receive_audio = c.options.offer_to_receive_audio;
  offer_to_receive_video = c.options.offer_to_receive_video;
  use_rtp_mux = c.options.use_rtp_mux;
}

-- `options.disable_encryption`.
unfoldable pub disable_encryption : Configuration → Bool
disable_encryption c = c.options.srtp_type == 0

-- The enumerators' numbers in the bridge's and the client's enumerations.
abbrev pub mux_number : RtcpMuxPolicy → ℕ
mux_number negotiate = 0
mux_number require = 1

abbrev pub semantics_number : SdpSemantics → ℕ
semantics_number plan_b = 0
semantics_number unified_plan = 1

abbrev pub network_number : CandidateNetworkPolicy → ℕ
network_number all_networks = 0
network_number low_cost = 1

abbrev pub bundle_number : BundlePolicy → ℕ
bundle_number balanced = 0
bundle_number max_bundle = 1
bundle_number max_compat = 2

abbrev pub transport_number : IceTransportsType → ℕ
transport_number no_transports = 0
transport_number relay = 1
transport_number no_host = 2
transport_number all_transports = 3

abbrev pub tcp_number : TcpCandidatePolicy → ℕ
tcp_number enabled = 0
tcp_number disabled = 1

-- A number that names no enumerator is read as the default.
abbrev pub in_range : ℕ → ℕ → ℕ → ℕ
in_range last default n = if ltb last n then default else n

abbrev blank : Server
blank = record { uri = []; username = []; password = [] }

-- RTCConfiguration as it is constructed.
abbrev pub default_configuration : Configuration
default_configuration = record {
  ice_servers = blank ∷ blank ∷ blank ∷ blank ∷ blank ∷ blank ∷ blank ∷ blank ∷ [];
  options = record {
    type = 3;
    bundle_policy = 0;
    rtcp_mux_policy = 1;
    candidate_network_policy = 0;
    tcp_candidate_policy = 0;
    ice_candidate_pool_size = pos 0;
    srtp_type = 2;
    sdp_semantics = 1;
    offer_to_receive_audio = true;
    offer_to_receive_video = true;
    disable_ipv6 = false;
    disable_ipv6_on_wifi = false;
    max_ipv6_networks = pos 5;
    disable_link_local_networks = false;
    screencast_min_bitrate = negsuc 0;
    enable_dscp = false;
    use_rtp_mux = true;
    local_audio_bandwidth = 0;
    local_video_bandwidth = 0;
  };
}

abbrev add_named : Option Bytes → Server → List Server → List Server
add_named none s rest = rest
add_named (some []) s rest = rest
add_named (some (c ∷ cs)) s rest = s ∷ rest

-- The servers that a client names: those whose URI is there and not empty.
abbrev pub named : List ServerArguments → List Server
named [] = []
named (s ∷ ss) = add_named s.uri (server_of s) (named ss)

abbrev blanks : ℕ → List Server
blanks zero = []
blanks (suc n) = blank ∷ blanks n

native-blanks : (n : ℕ) → native_servers (blanks n) ≡ []
unfolding native_servers
native-blanks zero = refl
native-blanks (suc n) = native-blanks n

native-add :
    (s : ServerArguments) (rest : List Server)
    → add_server (server_of s) (or_empty s.uri) rest ≡ add_named s.uri (server_of s) rest
native-add s rest = go s.uri
  where
    go :
        (uri : Option Bytes)
        → add_server (server_of s) (or_empty uri) rest ≡ add_named uri (server_of s) rest
    go none = refl
    go (some []) = refl
    go (some (c ∷ cs)) = refl

native-copied :
    (count : ℕ) (src : List ServerArguments) (n : ℕ)
    → length src ≡ n
    → native_servers (copy_servers count src (blanks n)) ≡ named (take count src)
unfolding native_servers copy_servers
native-copied zero src n e = native-blanks n
native-copied (suc count) [] n e = native-blanks n
native-copied (suc count) (s ∷ ss) zero e = absurd (omega (arith, e))
native-copied (suc count) (s ∷ ss) (suc n) e =
    ap (add_server (server_of s) (or_empty s.uri)) (native-copied count ss n (omega (arith, e)))
    ∙ native-add s _

-- Of the servers that a client lists, WebRTC gets those below its count, at most eight, that have a URI, in
-- the client's order; each policy keeps the client's number, or is the default where the number names no
-- enumerator; and the encryption is turned off exactly by the number 0.
pub native_configuration-copy_config :
    (a : Arguments)
    → length a.ice_servers ≡ max_ice_servers
    → let config = copy_config (some a) default_configuration in
      let native = native_configuration config in
      (native.servers ≡ named (take (copied_count a.ice_server_count) a.ice_servers))
      × (bundle_number native.bundle_policy ≡ in_range 2 0 a.options.bundle_policy)
      × (semantics_number native.sdp_semantics ≡ in_range 1 1 a.options.sdp_semantics)
      × (network_number native.candidate_network_policy
          ≡ in_range 1 0 a.options.candidate_network_policy)
      × (tcp_number native.tcp_candidate_policy ≡ in_range 1 0 a.options.tcp_candidate_policy)
      × (transport_number native.type ≡ in_range 3 3 a.options.type)
      × (mux_number native.rtcp_mux_policy ≡ in_range 1 1 a.options.rtcp_mux_policy)
      × ((disable_encryption config ≡ true) ↔ (a.options.srtp_type ≡ 0))
unfolding native_configuration copy_config disable_encryption to_native_bundle
    to_native_sdp_semantics to_native_network_policy to_native_tcp_policy to_native_ice_transport
    to_native_rtcp_mux
native_configuration-copy_config a e = (
  native-copied (copied_count a.ice_server_count) a.ice_servers 8 e,
  ground arith,
  ground arith,
  ground arith,
  ground arith,
  ground arith,
  ground arith,
  ==_iff _ _,
)
