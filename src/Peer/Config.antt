-- ===== src/Peer/Config.antt =====
-- CopyConfig, native/src/lumenrtc_impl.cpp. The enumerations are their numbers.
use lumen_rtc.Base.{
  ℕ, zero, suc, ◌≡◌, refl, ◌∙◌, Bool, List, [], ◌∷◌, Option, none, some, arith, if◌then◌else◌, ltb,
  length, get_elem?, ℤ,
}
use lumen_rtc.Text.{Bytes}

-- lrtc_ice_server_t.
pub record ServerArguments : Type 0 where
  pub uri : Option Bytes
  pub username : Option Bytes
  pub password : Option Bytes

-- IceServer.
pub record Server : Type 0 where
  pub uri : Bytes
  pub username : Bytes
  pub password : Bytes

-- The fields that lrtc_rtc_config_t and RTCConfiguration have in common.
pub record Options : Type 0 where
  pub type : ℕ
  pub bundle_policy : ℕ
  pub rtcp_mux_policy : ℕ
  pub candidate_network_policy : ℕ
  pub tcp_candidate_policy : ℕ
  pub ice_candidate_pool_size : ℤ
  pub srtp_type : ℕ
  pub sdp_semantics : ℕ
  pub offer_to_receive_audio : Bool
  pub offer_to_receive_video : Bool
  pub disable_ipv6 : Bool
  pub disable_ipv6_on_wifi : Bool
  pub max_ipv6_networks : ℤ
  pub disable_link_local_networks : Bool
  pub screencast_min_bitrate : ℤ
  pub enable_dscp : Bool
  pub use_rtp_mux : Bool
  pub local_audio_bandwidth : ℕ
  pub local_video_bandwidth : ℕ

-- lrtc_rtc_config_t, whose array has LRTC_MAX_ICE_SERVERS entries.
pub record Arguments : Type 0 where
  pub ice_servers : List ServerArguments
  pub ice_server_count : ℕ
  pub options : Options

-- RTCConfiguration, whose array has as many.
pub record Configuration : Type 0 where
  pub ice_servers : List Server
  pub options : Options

abbrev pub max_ice_servers : ℕ
max_ice_servers = 8

abbrev pub or_empty : Option Bytes → Bytes
or_empty none = []
or_empty (some s) = s

abbrev pub server_of : ServerArguments → Server
server_of s = record {
  uri = or_empty s.uri;
  username = or_empty s.username;
  password = or_empty s.password;
}

-- The loop over the first `count` servers.
unfoldable pub copy_servers : ℕ → List ServerArguments → List Server → List Server
copy_servers zero src dst = dst
copy_servers (suc count) [] dst = dst
copy_servers (suc count) (s ∷ ss) [] = []
copy_servers (suc count) (s ∷ ss) (d ∷ ds) = server_of s ∷ copy_servers count ss ds

abbrev pub copied_count : ℕ → ℕ
copied_count count = if ltb count max_ice_servers then count else max_ice_servers

-- CopyConfig, of a destination that is not null.
unfoldable pub copy_config : Option Arguments → Configuration → Configuration
unfolding copy_servers
copy_config none dst = dst
copy_config (some src) dst = record {
  ice_servers = copy_servers (copied_count src.ice_server_count) src.ice_servers dst.ice_servers;
  options = src.options;
}

abbrev pub map_server : Option ServerArguments → Option Server
map_server none = none
map_server (some s) = some (server_of s)

copy_servers_lem :
    (count i : ℕ) (src : List ServerArguments) (dst : List Server)
    → length src ≡ length dst
    → get_elem? (copy_servers count src dst) i
      ≡ (if ltb i count then map_server (get_elem? src i) else get_elem? dst i)
unfolding copy_servers
copy_servers_lem zero i src dst e = ground arith
copy_servers_lem (suc count) i [] [] e = ground arith
copy_servers_lem (suc count) i [] (d ∷ ds) e = absurd (omega (arith, e))
copy_servers_lem (suc count) i (s ∷ ss) [] e = absurd (omega (arith, e))
copy_servers_lem (suc count) zero (s ∷ ss) (d ∷ ds) e = ground arith
copy_servers_lem (suc count) (suc i) (s ∷ ss) (d ∷ ds) e =
    copy_servers_lem count i ss ds (omega (arith, e)) ∙ ground arith

-- Of the servers that a client lists, the configuration takes those below its count, at most eight of
-- them, each with empty texts for null pointers, in their places; every other place keeps what it had,
-- and every other option is the client's.
pub copy_config_lem :
    (src : Arguments) (dst : Configuration)
    → length src.ice_servers ≡ max_ice_servers
    → length dst.ice_servers ≡ max_ice_servers
    → ((copy_config (some src) dst).options ≡ src.options)
      × ((i : ℕ)
          → get_elem? (copy_config (some src) dst).ice_servers i ≡ (
              if ltb i (copied_count src.ice_server_count)
              then map_server (get_elem? src.ice_servers i)
              else get_elem? dst.ice_servers i))
unfolding copy_config
copy_config_lem src dst h k = (
  refl,
  λ i.
      copy_servers_lem (copied_count src.ice_server_count) i src.ice_servers dst.ice_servers
        (omega (arith, h, k)),
)
