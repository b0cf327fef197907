-- ===== src/Capability.antt =====
-- Codec capabilities, bridge/lumenrtc_bridge/src/rtc_rtp_capabilities_impl.cc: the texts of a codec's
-- parameters and of its MIME type. Every separator is one byte. `none` stands for an index past the end
-- of a vector, `parameter_split[1]` of a shorter one.
pub mod Split
pub mod Fmtp
use lumen_rtc.Base.{
  ℕ, Bool, true, false, List, [], ◌∷◌, ◌++◌, Option, none, some, if◌then◌else◌, ◌==◌, ltb, elem,
  get_elem?, ℤ, pos, negsuc,
}
use lumen_rtc.Text.{Bytes}
use lumen_rtc.MediaList.{same_text}

-- The bytes behind the last separator are a piece if there are any.
abbrev pub last_piece : Bytes → List Bytes
last_piece [] = []
last_piece (c ∷ cs) = (c ∷ cs) ∷ []

-- What `split` does from a place on: the bytes since the last separator, and those to come.
unfoldable pub split_from : ℕ → Bytes → Bytes → List Bytes
split_from d token [] = last_piece token
split_from d token (c ∷ cs) = elim (c == d) [
  | true ↦ token ∷ split_from d [] cs
  | false ↦ split_from d (token ++ c ∷ []) cs
]

-- split.
unfoldable pub split : Bytes → ℕ → List Bytes
unfolding split_from
split s d = split_from d [] s

-- join.
unfoldable pub join : List Bytes → ℕ → Bytes
join [] d = []
join (x ∷ []) d = x
join (x ∷ y ∷ ys) d = x ++ d ∷ join (y ∷ ys) d

-- The order of std::string.
unfoldable pub less : Bytes → Bytes → Bool
less [] [] = false
less [] (b ∷ bs) = true
less (a ∷ as') [] = false
less (a ∷ as') (b ∷ bs) =
    let rest = less as' bs in if ltb a b then true else if a == b then rest else false

-- A std::map by its entries in the order of the keys, and `m[k] = v`.
abbrev pub Parameters : Type 0
Parameters = List (Bytes × Bytes)

unfoldable pub insert : Bytes → Bytes → Parameters → Parameters
insert k v [] = (k, v) ∷ []
insert k v ((j, w) ∷ m) =
    let rest = insert k v m in
    if less k j then (k, v) ∷ (j, w) ∷ m else if less j k then (j, w) ∷ rest else (j, v) ∷ m

-- The text of a parameter in sdp_fmtp_line.
unfoldable pub entry_text : Bytes × Bytes → Bytes
entry_text ([], v) = v
entry_text (c ∷ cs, v) = (c ∷ cs) ++ b'=' ∷ v

unfoldable pub entry_texts : Parameters → List Bytes
entry_texts [] = []
entry_texts (e ∷ es) = entry_text e ∷ entry_texts es

-- RTCRtpCodecCapabilityImpl::sdp_fmtp_line.
unfoldable pub sdp_fmtp_line : Parameters → Bytes
unfolding entry_texts entry_text join
sdp_fmtp_line m = join (entry_texts m) b';'

-- The loop's body in set_sdp_fmtp_line.
unfoldable pub set_parameter : Bytes → Parameters → Option Parameters
unfolding split insert
set_parameter text m =
    if elem b'=' text
    then elim (split text b'=') [
      | [] ↦ none
      | k ∷ rest ↦ elim rest [ [] ↦ none | v ∷ more ↦ some (insert k v m) ]
    ]
    else some (insert [] text m)

unfoldable pub set_parameters : List Bytes → Parameters → Option Parameters
set_parameters [] m = some m
set_parameters (t ∷ ts) m = elim (set_parameter t m) [
  | none ↦ none
  | some m' ↦ set_parameters ts m'
]

-- RTCRtpCodecCapabilityImpl::set_sdp_fmtp_line, which leaves the parameters that it does not name.
unfoldable pub set_sdp_fmtp_line : Bytes → Parameters → Option Parameters
unfolding set_parameters set_parameter split
set_sdp_fmtp_line line m = set_parameters (split line b';') m

-- webrtc::MediaType.
pub data Kind : Type 0 where
  any audio video application_data : Kind

audio_text : Bytes
audio_text = b'a' ∷ b'u' ∷ b'd' ∷ b'i' ∷ b'o' ∷ []

video_text : Bytes
video_text = b'v' ∷ b'i' ∷ b'd' ∷ b'e' ∷ b'o' ∷ []

data_text : Bytes
data_text = b'd' ∷ b'a' ∷ b't' ∷ b'a' ∷ []

kind_of : Bytes → Kind
unfolding audio_text video_text data_text
kind_of t =
    if same_text t audio_text
    then audio
    else if same_text t video_text
    then video
    else if same_text t data_text
    then application_data
    else any

-- RTCRtpCodecCapabilityImpl::set_mime_type: the kind and the name.
unfoldable pub set_mime_type : Bytes → Option (Kind × Bytes)
unfolding kind_of split
set_mime_type mime = elim (split mime b'/') [
  | [] ↦ none
  | k ∷ rest ↦ elim rest [ [] ↦ none | name ∷ more ↦ some (kind_of k, name) ]
]

-- RTCRtpCodecCapabilityImpl::clock_rate and ::channels, RTCRtpHeaderExtensionCapabilityImpl::preferred_id.
unfoldable pub value_or_minus_one : Option ℤ → ℤ
value_or_minus_one none = negsuc 0
value_or_minus_one (some n) = n
