-- ===== src/Validation.antt =====
-- src/gpu_control/validation.py: the public input contract of a workload request.
pub mod Canonical
use gpu_control.Base.{
  ℕ, ◌+◌, Bool, true, false, ◌&&◌, ◌||◌, not, Option, none, some, List, [], ◌∷◌, map, Text, codes,
  ℤ, pos, ◌==◌, int_pos, has_char, Result, ok, err, Error, validation, type_error,
  invalid_operation, guard, ◌>>=◌, ◌>>◌, if◌then◌else◌,
}
use gpu_control.Decimal.{Decimal, finite, is_positive, finer_than_cents, quantize_cents}
use gpu_control.Value.{
  Value, Values, Fields, null, flag, int, float, decimal, text, items, object, nil, cons, end,
  member, same_text, get,
}
use gpu_control.Host.{Host, int_of, decimal_of}
use gpu_control.Patterns.{is_upper, is_repo_text, is_sha_text, is_profile_text}

pub record WorkloadRequest : Type 0 where
  pub target_repo : Text
  pub target_sha : Text
  pub dockerfile_path : Text
  pub gpu_profile : Text
  pub max_runtime_minutes : ℤ
  pub max_cost_usd : Decimal

abbrev not_text : Error
not_text = type_error "expected string or bytes-like object"

-- A value that is no `str` makes `fullmatch` raise a TypeError.
unfoldable pub validate_repo : Value → Result Text
validate_repo (text s) =
    if is_repo_text s then ok s else err (validation "target_repo must use owner/repository syntax")
validate_repo _ = err not_text

-- `c.lower()` for the characters that the pattern lets through.
abbrev pub lower_char : ℕ → ℕ
lower_char c = if is_upper c then c + 32 else c

unfoldable pub validate_sha : Value → Result Text
validate_sha (text s) =
    if is_sha_text s
    then ok (map lower_char s)
    else err (validation "target_sha must be an immutable 40-character hexadecimal commit SHA")
validate_sha _ = err not_text

-- `not v`
unfoldable pub is_falsy : Value → Bool
is_falsy null = true
is_falsy (flag b) = not b
is_falsy (int (pos n)) = n == 0
is_falsy (float (finite (pos n) e)) = n == 0
is_falsy (decimal (finite (pos n) e)) = n == 0
is_falsy (text []) = true
is_falsy (items nil) = true
is_falsy (object end) = true
is_falsy _ = false

abbrev bad_path : Error
bad_path = validation "dockerfile_path must be a non-empty POSIX relative path"

abbrev not_a_path : Error
not_a_path = type_error "argument should be a str or an os.PathLike object"

-- `"\\" in v`
unfoldable holds_backslash : Values → Bool
holds_backslash nil = false
holds_backslash (cons v vs) = same_text v (text (92 ∷ [])) || holds_backslash vs

unfoldable pub validate_profile : Value → Result Text
validate_profile (text s) =
    if is_profile_text s
    then ok s
    else err (validation "gpu_profile contains unsupported characters")
validate_profile _ = err not_text

module _ ⦃h : Host⦄ where
  -- Behind the first test only a text has a path: other values raise a TypeError, unless they are
  -- a list or a dict that holds the text of a backslash.
  path_of : Value → Result Text
  path_of (text s) = do
    guard (not (has_char 92 s)) bad_path
    let path = h.posix_path s
    guard
        (not (path.is_absolute || member (codes "..") path.parts || member (codes ".") path.parts))
        (validation "dockerfile_path must not be absolute or contain traversal segments")
    ok path.shown
  path_of (items vs) = if holds_backslash vs then err bad_path else err not_a_path
  path_of (object fs) = elim (get (92 ∷ []) fs) [ none ↦ err not_a_path | some v ↦ err bad_path ]
  path_of _ = err not_a_path

  unfoldable pub validate_relative_path : Value → Result Text
  unfolding path_of holds_backslash
  validate_relative_path v = do guard (not (is_falsy v)) bad_path; path_of v

  unfoldable pub parse_runtime : Value → Result ℤ
  parse_runtime v = elim (int_of v) [
    | none ↦ err (validation "max_runtime_minutes must be an integer")
    | some runtime ↦
        if int_pos runtime
        then ok runtime
        else err (validation "max_runtime_minutes must be greater than zero")
  ]

  -- The last step: `quantize` raises an InvalidOperation that nothing here catches.
  abbrev pub in_cents : Option Decimal → Result Decimal
  in_cents none = err (invalid_operation "quantize result has too many digits")
  in_cents (some cost) = ok cost

  unfoldable pub parse_cost : Value → Result Decimal
  parse_cost v = elim (decimal_of v) [
    | none ↦ err (validation "max_cost_usd must be a decimal number")
    | some cost ↦ do
      guard (is_positive cost) (validation "max_cost_usd must be a finite positive number")
      guard (not (finer_than_cents cost))
          (validation "max_cost_usd must use at most two decimal places")
      in_cents (quantize_cents cost)
  ]

  unfoldable pub build_request :
      Value → Value → Value → Value → Value → Value → Result WorkloadRequest
  build_request repo sha path profile runtime cost = do
    target_repo ← validate_repo repo
    target_sha ← validate_sha sha
    dockerfile_path ← validate_relative_path path
    gpu_profile ← validate_profile profile
    max_runtime_minutes ← parse_runtime runtime
    max_cost_usd ← parse_cost cost
    ok (record {
      target_repo = target_repo;
      target_sha = target_sha;
      dockerfile_path = dockerfile_path;
      gpu_profile = gpu_profile;
      max_runtime_minutes = max_runtime_minutes;
      max_cost_usd = max_cost_usd;
    })
