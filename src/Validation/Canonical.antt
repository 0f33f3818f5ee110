-- ===== src/Validation/Canonical.antt =====
-- What a validated request holds: validation.py gives canonical values.
use gpu_control.Base.{
  ℕ, ◌*◌, ◌^◌, ◌≡◌, refl, true, false, some, [], ◌∷◌, map, ◌-◌, ◌≤◌, pos_part, neg_part, Text, ℤ,
  pos, int_pos, ok, arith, all_in, length, is_empty, has_char, Option-cases, inl, inr,
}
use native.Mathlib.Nat.{mul-pos, one-le-pow}
use gpu_control.Decimal.{Decimal, finite, special, is_positive, finer_than_cents, quantize_cents}
use gpu_control.Value.{Value, decimal, text}
use gpu_control.Host.{Host, decimal_of}
use gpu_control.Patterns.{is_hex, is_sha_text}
use gpu_control.Validation.{
  WorkloadRequest, build_request, lower_char, validate_repo, validate_sha, validate_profile,
  parse_runtime, parse_cost, validate_relative_path, path_of, is_falsy,
}

lower_char_idem : (c : ℕ) → lower_char (lower_char c) ≡ lower_char c
lower_char_idem c = ground arith

is_hex-lower_char : (c : ℕ) → is_hex c ≡ true → is_hex (lower_char c) ≡ true
is_hex-lower_char c h = ground arith

map-lower_char_idem : (s : Text) → map lower_char (map lower_char s) ≡ map lower_char s
map-lower_char_idem [] = refl
map-lower_char_idem (c ∷ s) = cc (lower_char_idem c, map-lower_char_idem s)

length-lower : (s : Text) → length (map lower_char s) ≡ length s
length-lower [] = refl
length-lower (c ∷ s) = omega (arith, length-lower s)

all_in-lower : (s : Text) → all_in is_hex s ≡ true → all_in is_hex (map lower_char s) ≡ true
unfolding all_in
all_in-lower [] h = refl
all_in-lower (c ∷ s) h = ground (arith, is_hex-lower_char c, all_in-lower s)

-- A validated commit is canonical: it has the pattern, and validating it again changes nothing.
validate_sha-canonical :
    (v : Value) {s : Text} → validate_sha v ≡ ok s → validate_sha (text s) ≡ ok s
unfolding validate_sha is_sha_text
validate_sha-canonical (text t) h =
    ground (arith, length-lower t, all_in-lower t, map-lower_char_idem t)
validate_sha-canonical v h = cc

scaled_pos : (n k m : ℕ) → 1 ≤ n → 1 ≤ n * 10 ^ k * 10 ^ m
scaled_pos n k m h =
    mul-pos (mul-pos h (one-le-pow k 10 (omega arith))) (one-le-pow m 10 (omega arith))

quantize_cents-canonical :
    (d c : Decimal)
    → quantize_cents d ≡ some c
    → is_positive d ≡ true
    → finer_than_cents d ≡ false
    → (is_positive c ≡ true) × (finer_than_cents c ≡ false) × (quantize_cents c ≡ some c)
unfolding quantize_cents finer_than_cents
quantize_cents-canonical (finite n e) (finite (pos m) f) h p q =
    ground (arith, scaled_pos (pos_part n) (pos_part e) (2 - neg_part e))
quantize_cents-canonical (finite n e) c h p q = ground arith
quantize_cents-canonical special c h p f = cc

parse_runtime-eq-ok : ⦃h : Host⦄ (v : Value) {n : ℤ} → parse_runtime v ≡ ok n → int_pos n ≡ true
unfolding parse_runtime
parse_runtime-eq-ok v e = ground arith

-- A validated cost is positive, in whole cents, and validating it again changes nothing.
parse_cost-canonical :
    ⦃h : Host⦄ (v : Value) {c : Decimal}
    → parse_cost v ≡ ok c
    → (is_positive c ≡ true) × (parse_cost (decimal c) ≡ ok c)
unfolding parse_cost decimal_of
parse_cost-canonical v {c} e = elim (Option-cases (decimal_of v)) [
  | inl n ↦ ground arith
  | inr (d, same) ↦ elim (Option-cases (quantize_cents d)) [
    | inl n ↦ ground arith
    | inr (q, cents) ↦ ground (arith, quantize_cents-canonical d q)
  ]
]

-- `PurePosixPath` normalises: the text of a path is read back as that path.
pub record PathLaws (h : Host) : Type 0 where
  pub reparse : (s : Text) → h.posix_path (h.posix_path s).shown ≡ h.posix_path s
  pub shown_nonempty : (s : Text) → is_empty (h.posix_path s).shown ≡ false
  pub shown_backslash :
      (s : Text) → has_char 92 s ≡ false → has_char 92 (h.posix_path s).shown ≡ false

module _ ⦃h : Host⦄ (laws : PathLaws h) where
  path_of-canonical :
      (s : Text) {p : Text} → path_of (text s) ≡ ok p → validate_relative_path (text p) ≡ ok p
  unfolding validate_relative_path is_falsy
  path_of-canonical s e =
      ground (arith, laws.reparse s, laws.shown_nonempty s, laws.shown_backslash s)

  validate_relative_path-canonical :
      (v : Value) {p : Text}
      → validate_relative_path v ≡ ok p
      → validate_relative_path (text p) ≡ ok p
  unfolding validate_relative_path
  validate_relative_path-canonical (text s) e = path_of-canonical s (ground arith)
  validate_relative_path-canonical v e = ground arith

-- Every field of a request is one that its validator accepts and leaves as it is.
pub record IsCanonical ⦃h : Host⦄ (r : WorkloadRequest) : Type 0 where
  pub repo : validate_repo (text r.target_repo) ≡ ok r.target_repo
  pub sha : validate_sha (text r.target_sha) ≡ ok r.target_sha
  pub path : validate_relative_path (text r.dockerfile_path) ≡ ok r.dockerfile_path
  pub profile : validate_profile (text r.gpu_profile) ≡ ok r.gpu_profile
  pub runtime : int_pos r.max_runtime_minutes ≡ true
  pub cost_positive : is_positive r.max_cost_usd ≡ true
  pub cost : parse_cost (decimal r.max_cost_usd) ≡ ok r.max_cost_usd

validate_repo-canonical :
    (v : Value) {s : Text} → validate_repo v ≡ ok s → validate_repo (text s) ≡ ok s
unfolding validate_repo
validate_repo-canonical (text s) h = ground arith
validate_repo-canonical v h = cc

validate_profile-canonical :
    (v : Value) {s : Text} → validate_profile v ≡ ok s → validate_profile (text s) ≡ ok s
unfolding validate_profile
validate_profile-canonical (text s) h = ground arith
validate_profile-canonical v h = cc

-- Whatever the raw inputs were, a request that `build_request` returns is canonical: each
-- validator accepts its own field again and returns it unchanged, the runtime is positive and the
-- cost is positive. The paths are those of a `PurePosixPath` that reads its own text back.
pub build_request-IsCanonical :
    ⦃h : Host⦄ (laws : PathLaws h) (repo sha path profile runtime cost : Value)
    {r : WorkloadRequest}
    → build_request repo sha path profile runtime cost ≡ ok r
    → IsCanonical r
unfolding build_request
build_request-IsCanonical laws repo sha path profile runtime cost {r} e = record {
  repo = ground (arith, validate_repo-canonical repo {s = r.target_repo});
  sha = ground (arith, validate_sha-canonical sha {s = r.target_sha});
  path = ground (arith, validate_relative_path-canonical laws path {p = r.dockerfile_path});
  profile = ground (arith, validate_profile-canonical profile {s = r.gpu_profile});
  runtime = ground (arith, parse_runtime-eq-ok runtime {n = r.max_runtime_minutes});
  cost_positive = ground (arith, parse_cost-canonical cost {c = r.max_cost_usd});
  cost = ground (arith, parse_cost-canonical cost {c = r.max_cost_usd});
}
