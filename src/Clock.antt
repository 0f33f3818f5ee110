-- ===== src/Clock.antt =====
-- Timestamps and texts as fields: the checks that execution.py, lifecycle.py, results.py,
-- pricing.py, controller.py and finalization.py each repeat with their own exception class.
use gpu_control.Base.{
  ℕ, ◌≡◌, ◌≤◌, String, ◌<>◌, Bool, true, false, ◌||◌, not, none, some, [], ◌∷◌, ◌++◌, arith, Text,
  codes, strip, before_suffix, text_eq, length, leb, ltb, ◌==◌, Result, ok, err, Error, guard, ◌>>◌,
  if◌then◌else◌,
}
use gpu_control.Value.{Value, text, is_nonblank}
use gpu_control.Host.{Host, DateTime, is_utc}

-- `s[:-1] + "+00:00" if s.endswith("Z") else s`
unfoldable pub restore_zone : Text → Text
restore_zone s = elim (before_suffix (codes "Z") s) [
  | none ↦ s
  | some front ↦ front ++ codes "+00:00"
]

-- `ord(ch) < 32 or ord(ch) == 127` of some character
unfoldable pub has_control : Text → Bool
has_control [] = false
has_control (c ∷ s) = (ltb c 32 || c == 127) || has_control s

module _ ⦃h : Host⦄ (fail : String → Error) where
  -- `fromisoformat` of a text whose zone was restored, and the test for UTC.
  unfoldable pub read_utc : Text → String → Result DateTime
  read_utc s field = elim (h.fromisoformat (restore_zone s)) [
    | none ↦ err (fail (field <> " must be an ISO 8601 timestamp"))
    | some d ↦ if is_utc d then ok d else err (fail (field <> " must be timezone-aware UTC"))
  ]

  stripped_utc : Value → String → Result DateTime
  stripped_utc (text s) field = read_utc (strip s) field
  stripped_utc v field = err (fail (field <> " is required"))

  -- The `_parse_utc` that strips its text.
  unfoldable pub parse_utc : Value → String → Result DateTime
  unfolding stripped_utc
  parse_utc v field = do
    guard (is_nonblank v) (fail (field <> " is required"))
    stripped_utc v field

  -- `_format_utc`: only a UTC datetime has a text.
  unfoldable pub format_utc : DateTime → String → Result Value
  format_utc d field =
      if is_utc d
      then ok (text (h.utc_isoformat d))
      else err (fail (field <> " must be timezone-aware UTC"))

  trimmed : ℕ → Text → String → Result Text
  trimmed max s field = do
    guard (text_eq s (strip s)) (fail (field <> " must not contain surrounding whitespace"))
    guard (leb (length s) max) (fail (field <> (" exceeds maximum length " <> h.int_str max)))
    guard (not (has_control s)) (fail (field <> " must not contain control characters"))
    ok s

  text_within : ℕ → Value → String → Result Text
  unfolding trimmed
  text_within max (text s) field = trimmed max s field
  text_within max v field = err (fail (field <> " is required"))

  -- `_require_text`
  unfoldable pub require_text : Value → String → ℕ → Result Text
  unfolding text_within
  require_text v field max = do
    guard (is_nonblank v) (fail (field <> " is required"))
    text_within max v field

-- A text that `_require_text` lets through: trimmed, bounded and free of control characters.
pub record IsCleanText (max : ℕ) (v : Value) (s : Text) : Type 0 where
  pub is_text : v ≡ text s
  pub nonblank : is_nonblank v ≡ true
  pub trim : text_eq s (strip s) ≡ true
  pub bounded : length s ≤ max
  pub printable : has_control s ≡ false

module _ ⦃h : Host⦄ (fail : String → Error) where
  pub require_text-eq-ok :
      (v : Value) (field : String) (max : ℕ) (s : Text)
      → require_text fail v field max ≡ ok s
      → IsCleanText max v s
  unfolding require_text
  require_text-eq-ok (text t) field max s e = ground arith
  require_text-eq-ok v field max s e = ground arith

  pub require_text_self :
      (v : Value) (field : String) (max : ℕ) (s : Text)
      → IsCleanText max v s
      → require_text fail v field max ≡ ok s
  unfolding require_text
  require_text_self (text t) field max s c = ground (arith, c.is_text)
  require_text_self v field max s c = ground (arith, c.is_text)

  pub parse_utc-eq-ok :
      (v : Value) (field : String) (d : DateTime)
      → parse_utc fail v field ≡ ok d
      → (is_nonblank v ≡ true) × (is_utc d ≡ true)
  unfolding parse_utc read_utc
  parse_utc-eq-ok (text s) field d e = ground arith
  parse_utc-eq-ok v field d e = ground arith

-- A UTC datetime is written without surrounding whitespace and read back as itself.
pub record ClockLaws (h : Host) : Type 0 where
  pub nonblank : (d : DateTime) → is_utc d ≡ true → is_nonblank (text (h.utc_isoformat d)) ≡ true
  pub trim : (d : DateTime) → is_utc d ≡ true → strip (h.utc_isoformat d) ≡ h.utc_isoformat d
  pub read_back :
      (d : DateTime) → is_utc d ≡ true → h.fromisoformat (restore_zone (h.utc_isoformat d)) ≡ some d

module _ ⦃h : Host⦄ (laws : ClockLaws h) (fail : String → Error) where
  -- Writing a datetime and reading it gives it back, also under another exception class.
  pub parse_utc-format_utc :
      (fail' : String → Error) (d : DateTime) (field field' : String) (v : Value)
      → format_utc fail d field ≡ ok v
      → (parse_utc fail' v field' ≡ ok d) × (is_utc d ≡ true)
  unfolding format_utc parse_utc read_utc
  parse_utc-format_utc fail' d field field' v e =
      ground (arith, laws.nonblank d, laws.trim d, laws.read_back d)
