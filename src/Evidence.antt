-- ===== src/Evidence.antt =====
-- The evidence of the paid-compute gate: SourceVerificationResult of src/gpu_control/source.py,
-- ContainerVerificationResult of container.py and PricingVerificationResult of pricing.py. Only
-- the program itself makes these, so their fields have the declared types.
use gpu_control.Base.{
  Bool, not, Text, strip, is_empty, Result, ok, pricing_error, value_error, guard, ◌>>=◌, ◌>>◌,
}
use gpu_control.Decimal.{Decimal, is_positive}
use gpu_control.Value.{text}
use gpu_control.Host.{Host, DateTime, before}
use gpu_control.Patterns.{is_sha256_text}
use gpu_control.Clock.{parse_utc}

pub record SourceVerificationResult : Type 0 where
  pub repository : Text
  pub commit_sha : Text
  pub dockerfile_path : Text
  pub repository_public : Bool
  pub commit_verified : Bool
  pub dockerfile_verified : Bool

pub record ContainerVerificationResult : Type 0 where
  pub repository : Text
  pub commit_sha : Text
  pub dockerfile_path : Text
  pub image_digest : Text
  pub verification_reference : Text
  pub build_isolated : Bool
  pub runtime_isolated : Bool
  pub smoke_test_passed : Bool
  pub output_contract_verified : Bool
  pub credentials_absent : Bool
  pub network_policy_enforced : Bool
  pub resource_limits_enforced : Bool

-- `s.strip()` is truthy
abbrev pub has_text : Text → Bool
has_text s = not (is_empty (strip s))

-- `ContainerVerificationResult.validate_shape`
unfoldable pub validate_container : ContainerVerificationResult → Result (Unit {0})
validate_container c = do
  guard (is_sha256_text c.image_digest)
      (value_error "image_digest must be a lowercase sha256 digest")
  guard (has_text c.verification_reference) (value_error "verification_reference is required")

pub record PricingVerificationResult : Type 0 where
  pub provider : Text
  pub gpu_profile : Text
  pub provider_resource_id : Text
  pub hourly_price_usd : Decimal
  pub verification_reference : Text
  pub verified_at_utc : Text
  pub valid_until_utc : Text
  pub price_verified : Bool
  pub availability_verified : Bool

-- `PricingVerificationResult.validate_shape`
unfoldable pub validate_pricing :
    ⦃h : Host⦄ → PricingVerificationResult → Result (DateTime × DateTime)
validate_pricing p = do
  guard (has_text p.provider) (pricing_error "pricing provider is required")
  guard (has_text p.gpu_profile) (pricing_error "pricing gpu_profile is required")
  guard (has_text p.provider_resource_id) (pricing_error "provider_resource_id is required")
  guard (has_text p.verification_reference)
      (pricing_error "pricing verification_reference is required")
  guard (is_positive p.hourly_price_usd)
      (pricing_error "hourly_price_usd must be finite and positive")
  verified_at ← parse_utc pricing_error (text p.verified_at_utc) "verified_at_utc"
  valid_until ← parse_utc pricing_error (text p.valid_until_utc) "valid_until_utc"
  guard (before verified_at valid_until)
      (pricing_error "valid_until_utc must be after verified_at_utc")
  ok (verified_at, valid_until)
