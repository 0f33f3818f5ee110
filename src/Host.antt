-- ===== src/Host.antt =====
-- What the program takes from Python and from outside: aware datetimes, the conversions of the
-- standard library between values and texts, hashing and the JSON encoder. The conversions are
-- parameters, with the laws that the code relies on.
use gpu_control.Base.{
  String, ◌+◌, ◌*◌, ◌/◌, ◌^◌, true, negsuc, pos_part, neg_part, sub_ℕ, ℕ, Bool, false, Option, none,
  some, List, Text, ℤ, pos, int_eq, ltb, leb,
}
use gpu_control.Decimal.{Decimal, finite, special}
use gpu_control.Value.{Value, null, flag, int, float, decimal, text, items, object}

-- `datetime.datetime`: the instant in microseconds, and `utcoffset()` in seconds, `none` for a
-- naive value. Aware datetimes are ordered by their instants.
pub record DateTime : Type 0 where
  pub instant : ℕ
  pub offset : Option ℤ

-- `tzinfo is not None and utcoffset() == timezone.utc.utcoffset(...)`
unfoldable pub is_utc : DateTime → Bool
is_utc d = elim d.offset [ none ↦ false | some z ↦ int_eq z (pos 0) ]

-- `a < b` and `a <= b` for aware datetimes.
abbrev pub before : DateTime → DateTime → Bool
before a b = ltb a.instant b.instant

abbrev pub not_after : DateTime → DateTime → Bool
not_after a b = leb a.instant b.instant

-- `PurePosixPath(s)`: whether it is absolute, its `parts`, and `str` of it.
pub record PosixPath : Type 0 where
  pub is_absolute : Bool
  pub parts : List Text
  pub shown : Text

pub record Host : Type 0 where
  -- `datetime.fromisoformat(s)`, `none` for a ValueError
  pub fromisoformat : Text → Option DateTime
  -- `d.astimezone(timezone.utc).isoformat().replace("+00:00", "Z")` for a UTC datetime
  pub utc_isoformat : DateTime → Text
  -- `Decimal(s)`, `none` for an InvalidOperation
  pub decimal_of_text : Text → Option Decimal
  -- `format(d, "f")` and `str(d)`
  pub format_f : Decimal → Text
  pub decimal_str : Decimal → Text
  -- `int(s)` of a text, `none` for a ValueError
  pub int_of_text : Text → Option ℤ
  -- `str(n)`
  pub int_str : ℕ → String
  -- `PurePosixPath(s)`
  pub posix_path : Text → PosixPath
  -- `json.dumps(v, ensure_ascii=True, sort_keys=True, separators=(",", ":"))`
  pub json_dumps : Value → Text
  -- `hashlib.sha256(s.encode("utf-8")).hexdigest()`
  pub sha256_hex : Text → Text

module _ ⦃h : Host⦄ where
  -- The integer part of a decimal, towards zero.
  truncated : Decimal → Option ℤ
  truncated (finite (pos c) e) = some (pos (c * 10 ^ pos_part e / 10 ^ neg_part e))
  truncated (finite (negsuc c) e) = some (sub_ℕ 0 ((c + 1) * 10 ^ pos_part e / 10 ^ neg_part e))
  truncated special = none

  -- `int(v)`, `none` for a TypeError or a ValueError. The OverflowError of an infinity is `none` as
  -- well.
  unfoldable pub int_of : Value → Option ℤ
  unfolding truncated
  int_of null = none
  int_of (flag true) = some (pos 1)
  int_of (flag false) = some (pos 0)
  int_of (int n) = some n
  int_of (float d) = truncated d
  int_of (decimal d) = truncated d
  int_of (text s) = h.int_of_text s
  int_of (items vs) = none
  int_of (object fs) = none

  -- `Decimal(str(v))`, `none` for an InvalidOperation: no text that `str` gives for `None`, a
  -- truth value, a list or a dict is a number.
  unfoldable pub decimal_of : Value → Option Decimal
  decimal_of (int n) = some (finite n (pos 0))
  decimal_of (float d) = some d
  decimal_of (decimal d) = some d
  decimal_of (text s) = h.decimal_of_text s
  decimal_of _ = none
