-- ===== src/Text.antt =====
-- Text as the C ABI sees it, native/src/lumenrtc_impl.cpp: comparison without case, the environment
-- switch, and the arrays of strings that clients pass. A C string is the list of its bytes before the
-- terminator, and `none` a null pointer; a bridge string is the list of its bytes.
pub mod CaseFold
pub mod Copy
use lumen_rtc.Base.{
  ℕ, zero, suc, ◌+◌, Bool, true, false, not, ◌&&◌, ◌||◌, List, [], ◌∷◌, ◌++◌, Option, none, some,
  if◌then◌else◌, ◌==◌, leb,
}

abbrev pub Bytes : Type 0
Bytes = List ℕ

-- What `c_string()` shows of a string: its bytes up to the first NUL.
abbrev pub c_string : Bytes → Bytes
c_string [] = []
c_string (c ∷ cs) = if c == 0 then [] else c ∷ c_string cs

-- std::tolower of an unsigned char, in the "C" locale.
unfoldable pub to_lower : ℕ → ℕ
to_lower c = if leb b'A' c && leb c b'Z' then c + 32 else c

-- The loop of CStringEqualsIgnoreCase and the test behind it.
unfoldable pub equals_from : Bytes → Bytes → Bool
equals_from [] [] = true
equals_from [] (b ∷ bs) = false
equals_from (a ∷ as') [] = false
equals_from (a ∷ as') (b ∷ bs) =
    let rest = equals_from as' bs in if not (to_lower a == to_lower b) then false else rest

unfoldable pub equals_ignore_case : Option Bytes → Option Bytes → Bool
unfolding equals_from
equals_ignore_case none b = false
equals_ignore_case (some a) none = false
equals_ignore_case (some a) (some b) = equals_from a b

-- MimeEquals, whose loop is the same.
unfoldable pub mime_equals : Bytes → Option Bytes → Bool
unfolding equals_from
mime_equals a none = false
mime_equals a (some b) = equals_from (c_string a) b

-- The words that IsTraceIceNativeEnabled reads as "off".
abbrev pub off_words : List Bytes
off_words =
    (b'0' ∷ [])
    ∷ (b'f' ∷ b'a' ∷ b'l' ∷ b's' ∷ b'e' ∷ [])
    ∷ (b'n' ∷ b'o' ∷ [])
    ∷ (b'o' ∷ b'f' ∷ b'f' ∷ [])
    ∷ []

is_off : Bytes → List Bytes → Bool
is_off value [] = false
is_off value (w ∷ ws) = equals_ignore_case (some value) (some w) || is_off value ws

-- IsTraceIceNativeEnabled, of the value of LUMENRTC_TRACE_ICE_NATIVE.
unfoldable pub is_trace_ice_enabled : Option Bytes → Bool
unfolding is_off
is_trace_ice_enabled none = false
is_trace_ice_enabled (some []) = false
is_trace_ice_enabled (some (c ∷ cs)) = not (is_off (c ∷ cs) off_words)

-- The loop of BuildStringVector: the entries before `count` that are not null.
unfoldable pub non_null : ℕ → List (Option Bytes) → List Bytes
non_null zero items = []
non_null (suc count) [] = []
non_null (suc count) (none ∷ items) = non_null count items
non_null (suc count) (some s ∷ items) = s ∷ non_null count items

-- BuildStringVector. The array is the client's, with `count` entries or more.
unfoldable pub build_string_vector : Option (List (Option Bytes)) → ℕ → List Bytes
unfolding non_null
build_string_vector none count = []
build_string_vector (some items) count = if count == 0 then [] else non_null count items
