-- ===== src/Completion.antt =====
-- src/gpu_control/completion.py: the challenge of an execution, and the authenticated evidence that its
-- workload finalized the result. Version 3 of the evidence is version 2 with the exit code of the
-- process; the two differ in nothing else. The fields are those of a JSON document.
pub mod Digests
pub mod Agreement
pub mod Acceptance
use gpu_control.Base.{
  ℕ, String, ◌<>◌, Bool, true, false, ◌&&◌, not, Option, none, some, List, [], ◌∷◌, ◌++◌, Text,
  codes, strip, is_empty, text_eq, after_prefix, all_in, length, take, drop, leb, ltb, ◌==◌, pos, ℤ,
  int_eq, int_le, Result, ok, err, completion_error, guard, ◌>>=◌, ◌>>◌, if◌then◌else◌,
}
use gpu_control.Value.{
  Value, Fields, int, text, object, end, entry, as_int, same_text, item, keys, subset,
}
use gpu_control.Host.{Host}
use gpu_control.Patterns.{is_hex_lower, is_sha256_text, is_provider_id}

-- `^[0-9a-f]{64}$` and `[0-9a-f]{40}`
abbrev pub is_hex_text : ℕ → Text → Bool
is_hex_text n s = (length s == n) && all_in is_hex_lower s

abbrev pub is_hex_value : ℕ → Value → Bool
is_hex_value n (text s) = is_hex_text n s
is_hex_value n _ = false

-- `^gpu-control-[0-9a-f]{12}-[0-9a-f]{12}$`
unfoldable pub is_execution_text : Text → Bool
is_execution_text s = elim (after_prefix (codes "gpu-control-") s) [
  | none ↦ false
  | some rest ↦ is_hex_text 12 (take 12 rest) && (elim (after_prefix (codes "-") (drop 12 rest)) [
    | none ↦ false
    | some digits ↦ is_hex_text 12 digits
  ])
]

abbrev pub is_execution_name : Value → Bool
is_execution_name (text s) = is_execution_text s
is_execution_name _ = false

-- `_require_nonempty`
unfoldable pub require_nonempty : Value → String → Result Text
require_nonempty (text s) field =
    if is_empty (strip s) then err (completion_error (field <> " is required")) else ok (strip s)
require_nonempty v field = err (completion_error (field <> " is required"))

-- `_require_sha256`
unfoldable pub require_sha256 : Value → String → Result Text
require_sha256 v field = do
  normalized ← require_nonempty v field
  guard (is_sha256_text normalized)
      (completion_error (field <> " must be a lowercase sha256 digest"))
  ok normalized

-- `_require_secret_key`, of the bytes of a key
abbrev pub require_secret_key : List ℕ → Result (Unit {0})
require_secret_key key =
    guard (leb 32 (length key))
      (completion_error "completion secret key must contain at least 32 bytes")

abbrev pub is_int : ℕ → Value → Bool
is_int n v = elim (as_int v) [ none ↦ false | some m ↦ int_eq m (pos n) ]

-- `_require_schema_version` and `_require_schema_version_v3`
abbrev pub require_schema_version : ℕ → Value → String → Result (Unit {0})
require_schema_version n v label =
    guard (is_int n v) (completion_error ("unsupported " <> (label <> " schema_version")))

-- `_require_process_exit_code`
abbrev pub is_exit_code : Value → Bool
is_exit_code v = elim (as_int v) [ none ↦ false | some n ↦ int_le (pos 0) n && int_le n (pos 255) ]

abbrev pub require_process_exit_code : Value → Result (Unit {0})
require_process_exit_code v =
    guard (is_exit_code v)
      (completion_error "process_exit_code must be an integer between 0 and 255")

abbrev as_hex : Value → Option Text
as_hex (text s) = if is_hex_text 64 s then some s else none
as_hex _ = none

-- `execution_name_for`
unfoldable pub execution_name_for : Value → Value → Result Text
execution_name_for plan_fingerprint nonce = do
  fingerprint ← require_sha256 plan_fingerprint "plan_fingerprint"
  elim (as_hex nonce) [
    | none ↦ err (completion_error "nonce must be 32 random bytes encoded as lowercase hex")
    | some digits ↦
        ok (codes "gpu-control-" ++ (take 12 (drop 7 fingerprint) ++ (codes "-" ++ take 12 digits)))
  ]

-- `CompletionChallenge`
pub record CompletionChallenge : Type 0 where
  pub key_id : Value
  pub nonce : Value
  pub plan_fingerprint : Value
  pub execution_name : Value
  pub source_sha : Value
  pub image_digest : Value
  pub schema_version : Value

-- The checks that the challenge and both versions of the evidence share.
unfoldable pub validate_identity : CompletionChallenge → String → Result (Unit {0})
validate_identity c nonce_error = do
  guard (is_provider_id c.key_id) (completion_error "key_id is invalid")
  guard (is_hex_value 64 c.nonce) (completion_error nonce_error)
  _ ← require_sha256 c.plan_fingerprint "plan_fingerprint"
  guard (is_execution_name c.execution_name) (completion_error "execution_name is invalid")
  expected ← execution_name_for c.plan_fingerprint c.nonce
  guard (same_text c.execution_name (text expected))
      (completion_error "execution_name does not match plan_fingerprint and nonce")
  guard (is_hex_value 40 c.source_sha)
      (completion_error "source_sha must be a lowercase 40-character commit SHA")
  _ ← require_sha256 c.image_digest "image_digest"
  ok tt

-- `CompletionChallenge.validate_shape`
unfoldable pub validate_challenge : CompletionChallenge → Result (Unit {0})
validate_challenge c = do
  require_schema_version 2 c.schema_version "completion challenge"
  validate_identity c "nonce must be 32 random bytes encoded as lowercase hex"

-- `CompletionChallenge.create`, with the nonce that `secrets.token_hex(32)` draws.
unfoldable pub create_challenge : Value → Value → Value → Value → Text → Result CompletionChallenge
create_challenge key_id plan_fingerprint source_sha image_digest nonce = do
  name ← execution_name_for plan_fingerprint (text nonce)
  let value : CompletionChallenge = record {
    key_id = key_id;
    nonce = text nonce;
    plan_fingerprint = plan_fingerprint;
    execution_name = text name;
    source_sha = source_sha;
    image_digest = image_digest;
    schema_version = int (pos 2);
  }
  _ ← validate_challenge value
  ok value

pub data Version : Type 0 where
  v2 v3 : Version

-- `CompletionEvidence` and `CompletionEvidenceV3`: the fields of the challenge, with the schema version
-- of the evidence, and those of the result. Only version 3 reads the exit code.
pub record CompletionEvidence : Type 0 where
  pub identity : CompletionChallenge
  pub result_sha256 : Value
  pub process_exit_code : Value
  pub mac_sha256 : Value

abbrev pub version_number : Version → ℕ
version_number v2 = 2
version_number v3 = 3

abbrev pub label : Version → String
label v2 = "completion evidence"
label v3 = "completion v3 evidence"

abbrev pub check_exit_code : Version → Value → Result (Unit {0})
check_exit_code v2 v = ok tt
check_exit_code v3 v = require_process_exit_code v

-- `CompletionEvidence.validate_shape` and `CompletionEvidenceV3.validate_shape`
unfoldable pub validate_evidence : Version → CompletionEvidence → Result (Unit {0})
validate_evidence n e = do
  require_schema_version (version_number n) e.identity.schema_version (label n)
  validate_identity e.identity "nonce is invalid"
  _ ← require_sha256 e.result_sha256 "result_sha256"
  check_exit_code n e.process_exit_code
  guard (is_hex_value 64 e.mac_sha256)
      (completion_error "mac_sha256 must be lowercase HMAC-SHA256 hex")

-- The payload of `_canonical_payload` and of `_canonical_payload_v3`
abbrev pub result_fields : CompletionChallenge → Text → Fields
result_fields c digest =
    entry (codes "result_sha256") (text digest) (entry (codes "source_sha") c.source_sha end)

abbrev pub end_fields : Version → CompletionChallenge → Text → Value → Fields
end_fields v2 c digest code = result_fields c digest
end_fields v3 c digest code = entry (codes "process_exit_code") code (result_fields c digest)

abbrev pub canonical_payload : Version → CompletionChallenge → Text → Value → Value
canonical_payload n c digest code = object (
    entry (codes "execution_name") c.execution_name (
      entry (codes "image_digest") c.image_digest (
        entry (codes "key_id") c.key_id (
          entry (codes "nonce") c.nonce
            (entry (codes "plan_fingerprint") c.plan_fingerprint (end_fields n c digest code))))))

-- The exit code that the evidence holds: none in version 2.
abbrev pub kept_code : Version → Value → Value
kept_code v2 code = Value.null
kept_code v3 code = code

-- The comparison of the fields of the evidence with those of the challenge.
unfoldable pub require_same :
    Version → CompletionChallenge → CompletionChallenge → Result (Unit {0})
require_same n e c = do
  guard (same_text e.key_id c.key_id)
      (completion_error (label n <> " key_id does not match challenge"))
  guard (same_text e.nonce c.nonce)
      (completion_error (label n <> " nonce does not match challenge"))
  guard (same_text e.plan_fingerprint c.plan_fingerprint)
      (completion_error (label n <> " plan_fingerprint does not match challenge"))
  guard (same_text e.execution_name c.execution_name)
      (completion_error (label n <> " execution_name does not match challenge"))
  guard (same_text e.source_sha c.source_sha)
      (completion_error (label n <> " source_sha does not match challenge"))
  guard (same_text e.image_digest c.image_digest)
      (completion_error (label n <> " image_digest does not match challenge"))

module _ ⦃h : Host⦄ (hmac_hex : List ℕ → Text → Text) where
  -- `sign_completion` and `sign_completion_v3`. `hmac_hex` is `hmac.new(key, message, sha256).hexdigest()`.
  unfoldable pub sign_completion :
      Version → CompletionChallenge → Value → Value → List ℕ → Result CompletionEvidence
  sign_completion n c result code key = do
    validate_challenge c
    digest ← require_sha256 result "result_sha256"
    check_exit_code n code
    require_secret_key key
    ok (record {
      identity = record c { schema_version = int (pos (version_number n)) };
      result_sha256 = text digest;
      process_exit_code = kept_code n code;
      mac_sha256 = text (hmac_hex key (h.json_dumps (canonical_payload n c digest code)));
    })

  -- `verify_completion` and `verify_completion_v3`
  unfoldable pub verify_completion :
      Version → CompletionChallenge → CompletionEvidence → List ℕ → Value → Result (Unit {0})
  verify_completion n c e key expected = do
    validate_challenge c
    validate_evidence n e
    result ← require_sha256 expected "expected_result_sha256"
    require_secret_key key
    require_same n e.identity c
    guard (same_text e.result_sha256 (text result))
        (completion_error (label n <> " result_sha256 does not match collected result bytes"))
    signed ← sign_completion n c (text result) e.process_exit_code key
    guard (same_text e.mac_sha256 signed.mac_sha256)
        (completion_error (label n <> " authentication failed"))
