-- ===== src/Completion/Acceptance.antt =====
-- The evidence that completion.py signs is accepted.
use gpu_control.Base.{
  ℕ, String, ◌≡◌, refl, sym, true, List, Text, text_eq_refl, ok, guard, >>=-eq-ok, >>-eq-ok,
  guard->>-eq-ok, pos, arith,
}
use mathlib.Core.Path.{subst}
use gpu_control.Value.{Value, text, int, as_int, same_text}
use gpu_control.Host.{Host}
use gpu_control.Patterns.{is_sha256_text, is_provider_id}
use gpu_control.Completion.Digests.{require_sha256-eq-ok, require_sha256_text}
use gpu_control.Completion.Agreement.{made_of, sign_completion-Signs}
use gpu_control.Completion.{
  is_hex_text, is_hex_value, is_execution_name, require_nonempty, require_sha256,
  require_secret_key, is_int, execution_name_for, CompletionChallenge, validate_identity,
  validate_challenge, Version, v2, v3, CompletionEvidence, version_number, check_exit_code,
  validate_evidence, canonical_payload, kept_code, sign_completion, require_same, verify_completion,
}

require_nonempty_any :
    (v : Value) (f f' : String) (t : Text)
    → require_nonempty v f ≡ ok t
    → require_nonempty v f' ≡ ok t
unfolding require_nonempty
require_nonempty_any v f f' t e = ground arith

require_sha256_any :
    (v : Value) (f f' : String) (t : Text) → require_sha256 v f ≡ ok t → require_sha256 v f' ≡ ok t
unfolding require_sha256
require_sha256_any v f f' t e =
    let (s, some_text, e1) = >>=-eq-ok (require_nonempty v f) _ e in
    let (shaped, e2) = guard->>-eq-ok (is_sha256_text s) _ _ e1 in
    rw (require_sha256, require_nonempty_any v f f' s some_text, shaped) e2

-- A field that passes its check is a text, and is equal to itself.
same_provider : (v : Value) → is_provider_id v ≡ true → same_text v v ≡ true
unfolding same_text is_provider_id
same_provider (text s) e = text_eq_refl s
same_provider v e = cc

same_hex : (n : ℕ) (v : Value) → is_hex_value n v ≡ true → same_text v v ≡ true
unfolding same_text
same_hex n (text s) e = text_eq_refl s
same_hex n v e = cc

same_name : (v : Value) → is_execution_name v ≡ true → same_text v v ≡ true
unfolding same_text
same_name (text s) e = text_eq_refl s
same_name v e = cc

same_digest : (v : Value) (f : String) (t : Text) → require_sha256 v f ≡ ok t → same_text v v ≡ true
unfolding same_text require_sha256 require_nonempty
same_digest (text s) f t e = text_eq_refl s
same_digest v f t e = cc

record Identified (c : CompletionChallenge) : Type 0 where
  pub again : (message : String) → validate_identity c message ≡ ok tt
  pub same : (n : Version) → require_same n c c ≡ ok tt

identity_steps :
    (c : CompletionChallenge) (message : String) (fp expected im : Text)
    → is_provider_id c.key_id ≡ true
    → is_hex_value 64 c.nonce ≡ true
    → require_sha256 c.plan_fingerprint "plan_fingerprint" ≡ ok fp
    → is_execution_name c.execution_name ≡ true
    → execution_name_for c.plan_fingerprint c.nonce ≡ ok expected
    → same_text c.execution_name (text expected) ≡ true
    → is_hex_value 40 c.source_sha ≡ true
    → require_sha256 c.image_digest "image_digest" ≡ ok im
    → validate_identity c message ≡ ok tt
unfolding validate_identity
identity_steps c message fp expected im a b d n x m s i =
    rw (validate_identity, a, b, d, n, x, m, s, i) refl

validate_identity-Identified :
    (c : CompletionChallenge) (message : String)
    → validate_identity c message ≡ ok tt
    → Identified c
unfolding validate_identity require_same
validate_identity-Identified c message e =
    let (a, e1) = guard->>-eq-ok (is_provider_id c.key_id) _ _ e in
    let (b, e2) = guard->>-eq-ok (is_hex_value 64 c.nonce) _ _ e1 in
    let (fp, d, e3) = >>=-eq-ok (require_sha256 c.plan_fingerprint "plan_fingerprint") _ e2 in
    let (n, e4) = guard->>-eq-ok (is_execution_name c.execution_name) _ _ e3 in
    let (expected, x, e5) = >>=-eq-ok (execution_name_for c.plan_fingerprint c.nonce) _ e4 in
    let (m, e6) = guard->>-eq-ok (same_text c.execution_name (text expected)) _ _ e5 in
    let (s, e7) = guard->>-eq-ok (is_hex_value 40 c.source_sha) _ _ e6 in
    let (im, i, _) = >>=-eq-ok (require_sha256 c.image_digest "image_digest") _ e7 in
    record {
      again = λ message'. identity_steps c message' fp expected im a b d n x m s i;
      same = λ version.
          rw
            (
              require_same,
              same_provider c.key_id a,
              same_hex 64 c.nonce b,
              same_digest c.plan_fingerprint "plan_fingerprint" fp d,
              same_name c.execution_name n,
              same_hex 40 c.source_sha s,
              same_digest c.image_digest "image_digest" im i,
            )
            refl;
    }

check_kept :
    (n : Version) (code : Value)
    → check_exit_code n code ≡ ok tt
    → check_exit_code n (kept_code n code) ≡ ok tt
check_kept v2 code e = refl
check_kept v3 code e = e

kept_payload :
    (n : Version) (c : CompletionChallenge) (digest : Text) (code : Value)
    → canonical_payload n c digest (kept_code n code) ≡ canonical_payload n c digest code
kept_payload v2 c digest code = refl
kept_payload v3 c digest code = refl

is_int_version : (n : Version) → is_int (version_number n) (int (pos (version_number n))) ≡ true
unfolding as_int
is_int_version v2 = refl
is_int_version v3 = refl

module _ ⦃h : Host⦄ (hmac_hex : List ℕ → Text → Text) where
  verify_steps :
      (n : Version) (c : CompletionChallenge) (e signed : CompletionEvidence) (key : List ℕ)
      (result : Value) (digest : Text)
      → validate_challenge c ≡ ok tt
      → validate_evidence n e ≡ ok tt
      → require_sha256 result "expected_result_sha256" ≡ ok digest
      → require_secret_key key ≡ ok tt
      → require_same n e.identity c ≡ ok tt
      → same_text e.result_sha256 (text digest) ≡ true
      → sign_completion hmac_hex n c (text digest) e.process_exit_code key ≡ ok signed
      → same_text e.mac_sha256 signed.mac_sha256 ≡ true
      → verify_completion hmac_hex n c e key result ≡ ok tt
  unfolding verify_completion
  verify_steps n c e signed key result digest a b d k s r m i =
      rw (verify_completion, a, b, d, k, s, r, m, i) refl

  -- The evidence that is signed for a challenge and a result is accepted for that challenge and that
  -- result with the same key, if `hexdigest` returns 64 hexadecimal digits.
  pub signed_is_verified :
      (n : Version) (c : CompletionChallenge) (result code : Value) (key : List ℕ)
      (e : CompletionEvidence)
      → ((k : List ℕ) (m : Text) → is_hex_text 64 (hmac_hex k m) ≡ true)
      → sign_completion hmac_hex n c result code key ≡ ok e
      → verify_completion hmac_hex n c e key result ≡ ok tt
  unfolding verify_completion validate_evidence sign_completion validate_challenge same_text
      validate_identity require_same
  signed_is_verified n c result code key e hex r =
      let s = sign_completion-Signs hmac_hex n c result code key e r in
      let (_, shape) = >>-eq-ok (guard (is_int 2 c.schema_version) _) _ s.shaped in
      let identified = validate_identity-Identified c _ shape in
      let digest = s.digest in
      let sha = require_sha256-eq-ok result "result_sha256" digest s.read in
      let made = made_of hmac_hex n c digest code key in
      let valid : validate_evidence n made ≡ ok tt =
        rw
          (
            validate_evidence,
            is_int_version n,
            identified.again "nonce is invalid",
            require_sha256_text digest "result_sha256" sha,
            check_kept n code s.code_checked,
            hex key (h.json_dumps (canonical_payload n c digest code)),
          )
          refl in
      let again : sign_completion hmac_hex n c (text digest) (kept_code n code) key
          ≡ ok (made_of hmac_hex n c digest (kept_code n code) key) =
        rw
          (
            sign_completion,
            s.shaped,
            require_sha256_text digest "result_sha256" sha,
            check_kept n code s.code_checked,
            s.key_checked,
          )
          refl in
      let same_mac =
        subst (λ v. same_text made.mac_sha256 (text (hmac_hex key (h.json_dumps v))) ≡ true)
          (sym (kept_payload n c digest code))
          (text_eq_refl (hmac_hex key (h.json_dumps (canonical_payload n c digest code)))) in
      let whole : verify_completion hmac_hex n c made key result ≡ ok tt =
        verify_steps n c made (made_of hmac_hex n c digest (kept_code n code) key) key result digest
          s.shaped valid
          (require_sha256_any result "result_sha256" "expected_result_sha256" digest s.read)
          s.key_checked (identified.same n) (text_eq_refl digest) again same_mac in
      subst (λ x. verify_completion hmac_hex n c x key result ≡ ok tt) s.made whole
