-- ===== src/Receipt/Restored.antt =====
-- A receipt matches the plan that it was made from, and survives storage as a dictionary.
use gpu_control.Base.{
  ◌≡◌, Bool, true, false, some, text_eq_refl, pos, negsuc, int_eq, ok, lifecycle, arith,
  Result-cases, inl, inr,
}
use gpu_control.Decimal.{Decimal, finite, special, is_positive, decimal_eq}
use gpu_control.Value.{
  Value, text, object, is_nonblank, as_int, same_text, same_text_self, item, require_exact_keys,
}
use gpu_control.Host.{Host, DateTime, is_utc, before, not_after}
use gpu_control.Patterns.{is_fingerprint}
use gpu_control.Clock.{parse_utc, format_utc, ClockLaws, parse_utc-format_utc}
use gpu_control.Plan.{ApprovedExecutionPlan, fingerprint}
use gpu_control.Receipt.{
  SubmissionReceipt, validate_receipt, receipt_to_dict, receipt_from_dict, parse_decimal_string,
  validate_plan_for_submission, build_submission_receipt, validate_receipt_against_plan,
}

pub fingerprint_self : (v : Value) → is_fingerprint v ≡ true → same_text v v ≡ true
unfolding is_fingerprint same_text
fingerprint_self (text s) h = text_eq_refl s
fingerprint_self v h = cc

pub decimal_eq_refl : (d : Decimal) → is_positive d ≡ true → decimal_eq d d ≡ true
unfolding decimal_eq
decimal_eq_refl (finite c e) h = ground arith
decimal_eq_refl special h = cc

module _ ⦃h : Host⦄ where
  -- A receipt that is built from a plan passes every check of that receipt against that plan.
  pub build_submission_receipt-matches :
      (p : ApprovedExecutionPlan) (job : Value) (t : DateTime) (r : SubmissionReceipt)
      → build_submission_receipt p job t ≡ ok r
      → validate_receipt_against_plan p r ≡ ok tt
  unfolding build_submission_receipt validate_receipt_against_plan validate_receipt
  build_submission_receipt-matches p job t r e = ground (
    arith,
    fingerprint_self (text (fingerprint p)),
    fingerprint_self p.image_digest,
    same_text_self p.provider,
    same_text_self p.provider_resource_id,
    decimal_eq_refl p.max_cost_usd,
  )

  -- The submission falls into the window of the verified price, and the plan has the three gates
  -- that are tested again.
  pub record IsFresh (p : ApprovedExecutionPlan) (t : DateTime) : Type 0 where
    pub verified_at : DateTime
    pub valid_until : DateTime
    pub reads_from :
        parse_utc lifecycle p.pricing_verified_at_utc "pricing_verified_at_utc" ≡ ok verified_at
    pub reads_until :
        parse_utc lifecycle p.pricing_valid_until_utc "pricing_valid_until_utc" ≡ ok valid_until
    pub utc : is_utc t ≡ true
    pub not_early : not_after verified_at t ≡ true
    pub not_late : before t valid_until ≡ true
    pub pricing : p.pricing_verified ≡ true
    pub human : p.explicit_human_authorization ≡ true
    pub cleanup : p.cleanup_guaranteed ≡ true

  -- Where a formatted UTC time reads back, a plan that the second check lets through is submitted at
  -- a UTC time within its pricing window, the end excluded, with verified pricing, a human
  -- authorization and a cleanup guarantee.
  pub validate_plan_for_submission-IsFresh :
      (laws : ClockLaws h) (p : ApprovedExecutionPlan) (t : DateTime)
      → validate_plan_for_submission p t ≡ ok tt
      → IsFresh p t
  unfolding validate_plan_for_submission
  validate_plan_for_submission-IsFresh laws p t e =
      elim (Result-cases (format_utc lifecycle t "submission_time_utc")) [
        | inr (x, failed) ↦ absurd (ground arith)
        | inl (v, written) ↦
            let (same, utc) =
              parse_utc-format_utc laws lifecycle lifecycle t "submission_time_utc"
                "submission_time_utc" v written in
            elim (Result-cases
              (parse_utc lifecycle p.pricing_verified_at_utc "pricing_verified_at_utc")) [
                | inr (x, failed) ↦ absurd (ground arith)
                | inl (from, reads_from) ↦
                    elim (Result-cases
                      (parse_utc lifecycle p.pricing_valid_until_utc "pricing_valid_until_utc")) [
                        | inr (x, failed) ↦ absurd (ground arith)
                        | inl (until, reads_until) ↦ record {
                          verified_at = from;
                          valid_until = until;
                          reads_from = reads_from;
                          reads_until = reads_until;
                          utc = utc;
                          not_early = ground arith;
                          not_late = ground arith;
                          pricing = ground arith;
                          human = ground arith;
                          cleanup = ground arith;
                        }
                      ]
              ]
      ]

-- A decimal that `format(d, "f")` writes digit by digit.
abbrev pub is_plain : Decimal → Bool
is_plain (finite c (pos n)) = int_eq (pos n) (pos 0)
is_plain (finite c (negsuc n)) = true
is_plain special = false

-- `Decimal(format(d, "f"))` is `d` for such a decimal, and the text is not blank.
pub record DecimalLaws (h : Host) : Type 0 where
  pub read_back : (d : Decimal) → is_plain d ≡ true → h.decimal_of_text (h.format_f d) ≡ some d
  pub nonblank : (d : Decimal) → is_plain d ≡ true → is_nonblank (text (h.format_f d)) ≡ true

module _ ⦃h : Host⦄ (laws : DecimalLaws h) where
  parse_decimal_string-format_f :
      (d : Decimal)
      → is_plain d ≡ true
      → is_positive d ≡ true
      → parse_decimal_string (text (h.format_f d)) "max_cost_usd" ≡ ok d
  unfolding parse_decimal_string
  parse_decimal_string-format_f d plain positive = ground (arith, laws.read_back d, laws.nonblank d)

  validate_receipt-facts :
      (r : SubmissionReceipt) (d : DateTime)
      → validate_receipt r ≡ ok d
      → (int_eq r.schema_version (pos 1) ≡ true) × (is_positive r.max_cost_usd ≡ true)
  unfolding validate_receipt
  validate_receipt-facts r d e = ground arith

  -- A valid receipt whose cost is written digit by digit, stored with `to_dict` and restored with
  -- `from_dict`, is the same receipt, where `Decimal` reads back what `format` writes.
  pub receipt_from_dict-receipt_to_dict :
      (r : SubmissionReceipt) (d : DateTime)
      → is_plain r.max_cost_usd ≡ true
      → validate_receipt r ≡ ok d
      → receipt_from_dict (object (receipt_to_dict r)) ≡ ok r
  unfolding receipt_from_dict receipt_to_dict item require_exact_keys as_int
  receipt_from_dict-receipt_to_dict r d plain e =
      let (version, positive) = validate_receipt-facts r d e in
      ground (arith, parse_decimal_string-format_f r.max_cost_usd)
