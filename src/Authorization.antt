-- ===== src/Authorization.antt =====
-- src/gpu_control/repository_security.py, paid_authorization.py and human_authorization.py: who may reach
-- paid compute, and the permit that binds a live submission to one plan. The fields of the evidence
-- and of the context are not checked when they are made.
pub mod Repository
pub mod Paid
pub mod Human
pub mod Identity
pub mod Permit
use gpu_control.Base.{
  String, ◌<>◌, Bool, true, false, ◌&&◌, not, none, some, Option, Text, codes, strip, text_eq, pos,
  ℤ, int_eq, Result, ok, err, Error, guard, ◌>>=◌, ◌>>◌,
}
use gpu_control.Decimal.{Decimal, finite, decimal_eq}
use gpu_control.Value.{
  Value, Fields, flag, int, float, decimal, text, object, get, as_flag, is_nonblank,
}
use gpu_control.Clock.{has_control}

-- `v == 1`
unfoldable pub equals_one : Value → Bool
equals_one (flag b) = b
equals_one (int n) = int_eq n (pos 1)
equals_one (float d) = decimal_eq d (finite (pos 1) (pos 0))
equals_one (decimal d) = decimal_eq d (finite (pos 1) (pos 0))
equals_one _ = false

-- `d.get(key) == 1`, `d.get(key) is True` and `d.get(key) is False`
abbrev pub is_one : Option Value → Bool
is_one none = false
is_one (some v) = equals_one v

abbrev pub is_true : Option Value → Bool
is_true (some (flag b)) = b
is_true _ = false

abbrev pub is_false : Option Value → Bool
is_false (some (flag b)) = not b
is_false _ = false

module _ (fail : String → Error) where
  -- `_text` of repository_security.py
  abbrev trimmed_text : Text → String → Result Text
  trimmed_text s field = do
    guard (text_eq s (strip s)) (fail (field <> " must not contain surrounding whitespace"))
    ok s

  unfoldable pub spaced_text : Value → String → Result Text
  spaced_text v field = do
    guard (is_nonblank v) (fail (field <> " is required"))
    elim v [ text s ↦ trimmed_text s field | _ ↦ err (fail (field <> " is required")) ]

  -- `_text` of paid_authorization.py and of human_authorization.py
  unfoldable pub plain_text : Value → String → Result Text
  plain_text v field = do
    s ← spaced_text v field
    guard (not (has_control s)) (fail (field <> " must not contain control characters"))
    ok s

  -- A text that `d.get(key)` finds.
  unfoldable pub got : (Value → String → Result Text) → Option Value → String → Result Text
  got read none field = err (fail (field <> " is required"))
  got read (some v) field = read v field

  -- `isinstance(v, Mapping)`
  unfoldable pub mapping : Option Value → String → Result Fields
  mapping (some (object fs)) message = ok fs
  mapping _ message = err (fail message)
