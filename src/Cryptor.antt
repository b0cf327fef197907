-- ===== src/Cryptor.antt =====
-- Keys of frame cryptors, bridge/lumenrtc_bridge/src/rtc_frame_cryptor_impl.cc: the key provider and the
-- cryptors. A map is the list of its entries; an index is the number of its 32 bits.
pub mod Keys
use lumen_rtc.Base.{ℕ, Bool, true, false, List, [], ◌∷◌, Option, none, some, if◌then◌else◌, ◌==◌}
use lumen_rtc.Text.{Bytes}
use lumen_rtc.MediaList.{same_text}

module _ {K V : Type 0} (same : K → K → Bool) where
  -- `find`, and what `m[key] = value` leaves.
  abbrev pub get : K → List (K × V) → Option V
  get k [] = none
  get k (e ∷ es) = let rest = get k es in if same k e.0 then some e.1 else rest

  abbrev pub put : K → V → List (K × V) → List (K × V)
  put k v [] = (k, v) ∷ []
  put k v (e ∷ es) = let rest = put k v es in if same e.0 k then (e.0, v) ∷ es else e ∷ rest

-- DefaultKeyProviderImpl.
pub record Provider : Type 0 where
  pub shared_key : Bool
  pub shared_keys : List (ℕ × Bytes)
  pub participant_keys : List (Bytes × List (ℕ × Bytes))
  pub sif_trailer : Bytes

abbrev pub keys_of : Option (List (ℕ × Bytes)) → List (ℕ × Bytes)
keys_of none = []
keys_of (some ks) = ks

abbrev pub key_or : Option Bytes → Bytes → Bytes
key_or none d = d
key_or (some k) d = k

-- KeyProvider::Create, of options that may be null, with their `shared_key`.
unfoldable pub create_provider : Option Bool → Provider
create_provider options = record {
  shared_key = elim options [ none ↦ false | some s ↦ s ];
  shared_keys = [];
  participant_keys = [];
  sif_trailer = [];
}

-- SetSharedKey.
unfoldable pub set_shared_key : ℕ → Bytes → Provider → Bool × Provider
set_shared_key index key p = (true, record p { shared_keys = put ◌==◌ index key p.shared_keys })

-- ExportSharedKey.
unfoldable pub export_shared_key : ℕ → Provider → Bytes
export_shared_key index p = key_or (get ◌==◌ index p.shared_keys) []

-- RatchetSharedKey.
unfoldable pub ratchet_shared_key : ℕ → Provider → Bytes × Provider
unfolding export_shared_key
ratchet_shared_key index p = (export_shared_key index p, p)

-- SetKey.
unfoldable pub set_key : Bytes → ℕ → Bytes → Provider → Bool × Provider
set_key participant index key p = (
  true,
  record p {
    participant_keys =
        put same_text participant
          (put ◌==◌ index key (keys_of (get same_text participant p.participant_keys)))
          p.participant_keys;
  },
)

-- ExportKey.
unfoldable pub export_key : Bytes → ℕ → Provider → Bytes
unfolding export_shared_key
export_key participant index p =
    let fallback = if p.shared_key then export_shared_key index p else [] in
    elim (get same_text participant p.participant_keys) [
      | none ↦ fallback
      | some keys ↦ key_or (get ◌==◌ index keys) fallback
    ]

-- RatchetKey.
unfoldable pub ratchet_key : Bytes → ℕ → Provider → Bytes × Provider
unfolding export_key
ratchet_key participant index p = (export_key participant index p, p)

-- SetSifTrailer.
unfoldable pub set_sif_trailer : Bytes → Provider → Provider
set_sif_trailer trailer p = record p { sif_trailer = trailer }

-- RTCFrameCryptorImpl, which keeps neither the provider nor the sender or receiver.
pub record Cryptor : Type 0 where
  pub participant_id : Bytes
  pub enabled : Bool
  pub key_index : ℕ
  pub observer : Option ℕ

-- The constructors, and the factory's two functions.
unfoldable pub create_cryptor : Bytes → Cryptor
create_cryptor participant_id = record {
  participant_id = participant_id;
  enabled = false;
  key_index = 0;
  observer = none;
}

-- SetEnabled.
unfoldable pub set_enabled : Bool → Cryptor → Bool × Cryptor
set_enabled enabled c = (true, record c { enabled = enabled })

-- SetKeyIndex.
unfoldable pub set_key_index : ℕ → Cryptor → Bool × Cryptor
set_key_index index c = (true, record c { key_index = index })
