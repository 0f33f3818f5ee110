-- ===== src/Patterns.antt =====
-- The regular expressions of the program, matched against a whole text.
use gpu_control.Base.{
  ℕ, Bool, false, ◌&&◌, ◌||◌, Option, none, some, [], ◌∷◌, Text, codes, leb, ◌==◌, length, all_in,
  after_prefix, is_empty, if◌then◌else◌,
}
use gpu_control.Value.{Value, text}

abbrev pub is_digit : ℕ → Bool
is_digit c = leb b'0' c && leb c b'9'

abbrev pub is_lower : ℕ → Bool
is_lower c = leb b'a' c && leb c b'z'

abbrev pub is_upper : ℕ → Bool
is_upper c = leb b'A' c && leb c b'Z'

-- `[0-9a-f]`
abbrev pub is_hex_lower : ℕ → Bool
is_hex_lower c = is_digit c || (leb b'a' c && leb c b'f')

-- `[0-9a-fA-F]`
abbrev pub is_hex : ℕ → Bool
is_hex c = is_hex_lower c || (leb b'A' c && leb c b'F')

-- `[a-z0-9]`
abbrev pub is_lower_digit : ℕ → Bool
is_lower_digit c = is_lower c || is_digit c

-- `[A-Za-z0-9_.-]`
abbrev pub is_repo_char : ℕ → Bool
is_repo_char c = is_lower c || is_upper c || is_digit c || c == b'_' || c == b'.' || c == b'-'

-- A character of the first class, then at most `max` of the second.
unfoldable pub head_then : (ℕ → Bool) → (ℕ → Bool) → ℕ → Text → Bool
unfolding all_in
head_then first rest max [] = false
head_then first rest max (c ∷ s) = first c && all_in rest s && leb (length s) max

-- `^sha256:[0-9a-f]{64}$`
unfoldable pub is_sha256_text : Text → Bool
unfolding after_prefix all_in
is_sha256_text s = elim (after_prefix (codes "sha256:") s) [
  | none ↦ false
  | some digits ↦ (length digits == 64) && all_in is_hex_lower digits
]

-- `isinstance(v, str) and _FINGERPRINT_RE.fullmatch(v)`
unfoldable pub is_fingerprint : Value → Bool
unfolding is_sha256_text
is_fingerprint (text s) = is_sha256_text s
is_fingerprint _ = false

-- `^[a-z0-9][a-z0-9_.-]{0,63}$`
unfoldable pub is_provider_text : Text → Bool
unfolding head_then
is_provider_text =
    head_then is_lower_digit (λ c. is_lower_digit c || c == b'_' || c == b'.' || c == b'-') 63

unfoldable pub is_provider_id : Value → Bool
unfolding is_provider_text
is_provider_id (text s) = is_provider_text s
is_provider_id _ = false

-- `^[a-z0-9][a-z0-9-]{0,63}$`
unfoldable pub is_profile_text : Text → Bool
unfolding head_then
is_profile_text = head_then is_lower_digit (λ c. is_lower_digit c || c == b'-') 63

-- `^[0-9a-fA-F]{40}$`
unfoldable pub is_sha_text : Text → Bool
unfolding all_in
is_sha_text s = (length s == 40) && all_in is_hex s

-- What stands behind the first slash of a text whose characters before it are in the class.
unfoldable pub after_slash : Text → Option Text
after_slash [] = none
after_slash (c ∷ s) =
    let rest = after_slash s in if c == b'/' then some s else if is_repo_char c then rest else none

-- `^[A-Za-z0-9][A-Za-z0-9_.-]*/[A-Za-z0-9_.-]+$`
unfoldable pub is_repo_text : Text → Bool
unfolding after_slash all_in
is_repo_text [] = false
is_repo_text (c ∷ s) = (is_lower c || is_upper c || is_digit c) && (elim (after_slash s) [
  | none ↦ false
  | some name ↦ if is_empty name then false else all_in is_repo_char name
])
