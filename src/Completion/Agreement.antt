-- ===== src/Completion/Agreement.antt =====
-- The evidence that completion.py accepts is the evidence that it signs.
use gpu_control.Base.{
  ℕ, ◌≡◌, refl, sym, ap, ◌∙◌, Bool, true, false, List, Text, ok, Error, guard, >>=-eq-ok, >>-eq-ok,
  guard->>-eq-ok, pos, arith,
}
use gpu_control.Value.{Value, text, int, as_int, same_text, same_text→eq}
use gpu_control.Host.{Host}
use gpu_control.Completion.Digests.{require_sha256-eq-ok, require_sha256_text}
use gpu_control.Completion.{
  require_sha256, require_secret_key, is_int, CompletionChallenge, validate_challenge, Version,
  CompletionEvidence, version_number, check_exit_code, validate_evidence, canonical_payload,
  kept_code, sign_completion, require_same, verify_completion,
}

record Matches (c e : CompletionChallenge) : Type 0 where
  pub key_id : e.key_id ≡ c.key_id
  pub nonce : e.nonce ≡ c.nonce
  pub plan_fingerprint : e.plan_fingerprint ≡ c.plan_fingerprint
  pub execution_name : e.execution_name ≡ c.execution_name
  pub source_sha : e.source_sha ≡ c.source_sha
  pub image_digest : e.image_digest ≡ c.image_digest

pub guard-eq-ok : (b : Bool) (x : Error) → guard b x ≡ ok tt → b ≡ true
guard-eq-ok true x e = refl
guard-eq-ok false x e = cc

require_same-Matches :
    (n : Version) (e c : CompletionChallenge) → require_same n e c ≡ ok tt → Matches c e
unfolding require_same
require_same-Matches n e c r =
    let (a, r1) = guard->>-eq-ok (same_text e.key_id c.key_id) _ _ r in
    let (b, r2) = guard->>-eq-ok (same_text e.nonce c.nonce) _ _ r1 in
    let (d, r3) = guard->>-eq-ok (same_text e.plan_fingerprint c.plan_fingerprint) _ _ r2 in
    let (f, r4) = guard->>-eq-ok (same_text e.execution_name c.execution_name) _ _ r3 in
    let (i, r5) = guard->>-eq-ok (same_text e.source_sha c.source_sha) _ _ r4 in
    record {
      key_id = same_text→eq e.key_id c.key_id a;
      nonce = same_text→eq e.nonce c.nonce b;
      plan_fingerprint = same_text→eq e.plan_fingerprint c.plan_fingerprint d;
      execution_name = same_text→eq e.execution_name c.execution_name f;
      source_sha = same_text→eq e.source_sha c.source_sha i;
      image_digest =
          same_text→eq e.image_digest c.image_digest
            (guard-eq-ok (same_text e.image_digest c.image_digest) _ r5);
    }

is_int→eq : (n : ℕ) (v : Value) → is_int n v ≡ true → v ≡ int (pos n)
unfolding as_int
is_int→eq n (int (pos m)) e = ground arith
is_int→eq n v e = ground arith

Matches→eq :
    (k : ℕ) (c e : CompletionChallenge)
    → Matches c e
    → e.schema_version ≡ int (pos k)
    → record c { schema_version = int (pos k) } ≡ e
Matches→eq k c e m s =
    ground
      (arith, m.key_id, m.nonce, m.plan_fingerprint, m.execution_name, m.source_sha, m.image_digest)

module _ ⦃h : Host⦄ (hmac_hex : List ℕ → Text → Text) where
  abbrev pub made_of : Version → CompletionChallenge → Text → Value → List ℕ → CompletionEvidence
  made_of n c digest code key = record {
    identity = record c { schema_version = int (pos (version_number n)) };
    result_sha256 = text digest;
    process_exit_code = kept_code n code;
    mac_sha256 = text (hmac_hex key (h.json_dumps (canonical_payload n c digest code)));
  }

  pub record Signs (n : Version) (c : CompletionChallenge) (result code : Value) (key : List ℕ)
      (e : CompletionEvidence) : Type 0 where
    pub digest : Text
    pub shaped : validate_challenge c ≡ ok tt
    pub read : require_sha256 result "result_sha256" ≡ ok digest
    pub code_checked : check_exit_code n code ≡ ok tt
    pub key_checked : require_secret_key key ≡ ok tt
    pub made : made_of n c digest code key ≡ e

  pub sign_completion-Signs :
      (n : Version) (c : CompletionChallenge) (result code : Value) (key : List ℕ)
      (e : CompletionEvidence)
      → sign_completion hmac_hex n c result code key ≡ ok e
      → Signs n c result code key e
  unfolding sign_completion
  sign_completion-Signs n c result code key e r =
      let (shaped, r1) = >>-eq-ok (validate_challenge c) _ r in
      let (digest, read, r2) = >>=-eq-ok (require_sha256 result "result_sha256") _ r1 in
      let (code_checked, r3) = >>-eq-ok (check_exit_code n code) _ r2 in
      let (key_checked, r4) = >>-eq-ok (require_secret_key key) _ r3 in
      record {
        digest = digest;
        shaped = shaped;
        read = read;
        code_checked = code_checked;
        key_checked = key_checked;
        made = let same : ok (made_of n c digest code key) ≡ ok e = r4 in cc;
      }

  -- Evidence that verification accepts is the very evidence that the signer makes of the challenge, of
  -- the normalized digest of the expected result and of the exit code in the evidence. Evidence of
  -- version 2 has no exit code.
  pub verified_is_signed :
      (n : Version) (c : CompletionChallenge) (e : CompletionEvidence) (key : List ℕ)
      (expected : Value)
      → kept_code n e.process_exit_code ≡ e.process_exit_code
      → verify_completion hmac_hex n c e key expected ≡ ok tt
      → (digest : Text) × (require_sha256 expected "expected_result_sha256" ≡ ok digest)
        × (sign_completion hmac_hex n c (text digest) e.process_exit_code key ≡ ok e)
  unfolding verify_completion validate_evidence
  verified_is_signed n c e key expected kept v =
      let (_, v1) = >>-eq-ok (validate_challenge c) _ v in
      let (shape, v2') = >>-eq-ok (validate_evidence n e) _ v1 in
      let (version, _) =
        guard->>-eq-ok (is_int (version_number n) e.identity.schema_version) _ _ shape in
      let (digest, read, v3') =
        >>=-eq-ok (require_sha256 expected "expected_result_sha256") _ v2' in
      let (_, v4) = >>-eq-ok (require_secret_key key) _ v3' in
      let (matches, v5) = >>-eq-ok (require_same n e.identity c) _ v4 in
      let (result, v6) = guard->>-eq-ok (same_text e.result_sha256 (text digest)) _ _ v5 in
      let (signed, made, v7) =
        >>=-eq-ok (sign_completion hmac_hex n c (text digest) e.process_exit_code key) _ v6 in
      let signs = sign_completion-Signs n c (text digest) e.process_exit_code key signed made in
      let mac =
        same_text→eq e.mac_sha256 signed.mac_sha256
          (guard-eq-ok (same_text e.mac_sha256 signed.mac_sha256) _ v7) in
      let identity =
        Matches→eq (version_number n) c e.identity (require_same-Matches n e.identity c matches)
          (is_int→eq (version_number n) e.identity.schema_version version) in
      let same_result = same_text→eq e.result_sha256 (text digest) result in
      let again =
        require_sha256_text digest "result_sha256"
          (require_sha256-eq-ok expected "expected_result_sha256" digest read) in
      let there : signs.digest ≡ digest =
        let both : ok signs.digest ≡ ok digest = sym signs.read ∙ again in cc in
      let same : signed ≡ e = ground (arith, signs.made, there, mac, identity, same_result, kept) in
      (digest, read, made ∙ ap ok same)
