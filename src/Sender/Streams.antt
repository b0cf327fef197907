-- ===== src/Sender/Streams.antt =====
-- The stream ids that a client reads are those that it has set.
use lumen_rtc.Base.{
  ℕ, ◌≡◌, ◌<◌, ◌%◌, ◌^◌, refl, ap, ◌∙◌, arith, false, List, [], ◌∷◌, Option, some, All, elem,
  length, get_elem?, map,
}
use lumen_rtc.Text.{Bytes, c_string, build_string_vector}
use lumen_rtc.Sender.{Sender, set_stream_ids, stream_id_count, get_stream_id, copy_id}

c_string_lem : (s : Bytes) → elem 0 s ≡ false → c_string s ≡ s
c_string_lem [] h = refl
c_string_lem (c ∷ cs) h = ground (arith, c_string_lem cs)

map-c_string : (ss : List Bytes) → All (λ s. elem 0 s ≡ false) ss → map c_string ss ≡ ss
map-c_string [] h = refl
map-c_string (s ∷ ss) h = ground (arith, c_string_lem s h.0, map-c_string ss h.1)

-- After a client has set the stream ids of a sender, to C strings, the count is that of those that are not
-- null, and the id at each index is copied to the client, or -1 answered past the end.
pub stream_ids-set :
    (ids : Option (List (Option Bytes))) (count : ℕ) (s : Sender) (index : ℕ)
    (buffer : Option Bytes) (len : ℕ)
    → All (λ t. elem 0 t ≡ false) (build_string_vector ids count)
    → length (build_string_vector ids count) < 2 ^ 32
    → (stream_id_count (set_stream_ids ids count (some s)).1
        ≡ length (build_string_vector ids count))
      × (get_stream_id (set_stream_ids ids count (some s)).1 index buffer len
          ≡ copy_id (get_elem? (build_string_vector ids count) index) buffer len)
unfolding set_stream_ids stream_id_count get_stream_id
stream_ids-set ids count s index buffer len h l = (
  ap (λ v. length v % 2 ^ 32) same ∙ omega (arith, l),
  ap (λ v. copy_id (get_elem? v index) buffer len) same,
)
  where
    same : map c_string (build_string_vector ids count) ≡ build_string_vector ids count
    same = map-c_string _ h
