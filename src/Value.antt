-- ===== src/Value.antt =====
-- Values whose Python type the program does not control: what a JSON or YAML document or an
-- adapter's response holds. `is_…` predicates are the `isinstance` checks of the source.
use gpu_control.Base.{
  String, ◌<>◌, codes, Error, Result, guard, ◌>>◌, ◌≡◌, ap, Bool, true, false, ◌&&◌, ◌||◌, not,
  Option, none, some, List, [], ◌∷◌, Text, ℤ, text_eq, text_eq→eq, text_eq_refl, is_empty, strip,
  if◌then◌else◌,
}
use gpu_control.Decimal.{Decimal}

mutual
  pub data Value : Type 0 where
    null : Value
    flag : Bool → Value
    int : ℤ → Value
    -- a `float`, as the decimal that its `repr` spells
    float : Decimal → Value
    decimal : Decimal → Value
    text : Text → Value
    items : Values → Value
    object : Fields → Value

  pub data Values : Type 0 where
    nil : Values
    cons : Value → Values → Values

  -- a `dict` with text keys, in insertion order
  pub data Fields : Type 0 where
    end : Fields
    entry : Text → Value → Fields → Fields

-- `isinstance(v, str)`, with the text.
unfoldable pub as_text : Value → Option Text
as_text (text s) = some s
as_text _ = none

-- `isinstance(v, int) and not isinstance(v, bool)`, with the number.
unfoldable pub as_int : Value → Option ℤ
as_int (int n) = some n
as_int _ = none

-- `isinstance(v, bool)`, with the truth value.
unfoldable pub as_flag : Value → Option Bool
as_flag (flag b) = some b
as_flag _ = none

-- `isinstance(v, str) and v.strip()`
unfoldable pub is_nonblank : Value → Bool
is_nonblank (text s) = not (is_empty (strip s))
is_nonblank _ = false

-- `a == b` where one of the two is known to be a `str`: then both are, and are the same text.
unfoldable pub same_text : Value → Value → Bool
same_text (text s) (text t) = text_eq s t
same_text _ _ = false

pub same_text→eq : (v w : Value) → same_text v w ≡ true → v ≡ w
unfolding same_text
same_text→eq (text s) (text t) h = ap text (text_eq→eq s t h)
same_text→eq v w h = cc

-- A text is equal to itself.
pub same_text_self : (v : Value) → is_nonblank v ≡ true → same_text v v ≡ true
unfolding same_text is_nonblank
same_text_self (text s) h = text_eq_refl s
same_text_self v h = cc

-- `d.get(key)`
unfoldable pub get : Text → Fields → Option Value
get key end = none
get key (entry k v fs) = if text_eq k key then some v else get key fs

-- `set(d)` as a list, and membership in such a list.
unfoldable pub keys : Fields → List Text
keys end = []
keys (entry k v fs) = k ∷ keys fs

unfoldable pub member : Text → List Text → Bool
member t [] = false
member t (s ∷ ss) = text_eq t s || member t ss

-- `not (xs - ys)`: every entry of the first list is in the second.
unfoldable pub subset : List Text → List Text → Bool
unfolding member
subset [] ys = true
subset (x ∷ xs) ys = member x ys && subset xs ys

-- `payload[name]`, behind the test that the payload has all its keys.
unfoldable pub item : String → Fields → Value
unfolding get text_eq
item name fs = elim (get (codes name) fs) [ none ↦ null | some v ↦ v ]

-- `_require_exact_keys`, without the names in the messages.
unfoldable pub require_exact_keys :
    (String → Error) → Fields → List Text → String → Result (Unit {0})
unfolding subset keys text_eq
require_exact_keys fail payload expected label = do
  guard (subset expected (keys payload)) (fail (label <> " is missing fields"))
  guard (subset (keys payload) expected) (fail (label <> " contains unknown fields"))
