-- ===== src/Examples/Completions.antt =====
-- The evidence of a completed execution at a concrete challenge.
use gpu_control.Base.{
  ℕ, ◌≡◌, refl, List, ◌++◌, Text, codes, pos, ok, strip, is_space, lstrip, all_in, after_prefix,
  text_eq,
}
use gpu_control.Value.{text, int, as_int, same_text}
use gpu_control.Patterns.{is_sha256_text, is_provider_id, is_provider_text, head_then}
use gpu_control.Completion.{
  CompletionChallenge, CompletionEvidence, v3, require_nonempty, require_sha256, is_execution_text,
  execution_name_for, validate_identity, validate_challenge, validate_evidence, sign_completion,
  require_same, verify_completion, create_challenge,
}
use gpu_control.Completion.Agreement.{made_of, verified_is_signed}
use gpu_control.Completion.Acceptance.{signed_is_verified}
use gpu_control.Examples.World.{world, sixty_four}

unfoldable checking : ℕ
unfolding world text_eq strip is_space lstrip all_in after_prefix as_int same_text is_sha256_text
    is_provider_id is_provider_text head_then require_nonempty require_sha256 is_execution_text
    execution_name_for validate_identity validate_challenge validate_evidence sign_completion
    require_same verify_completion create_challenge
checking = 0

abbrev digest : Text
digest = codes "sha256:" ++ sixty_four b'b'

abbrev secret : List ℕ
secret = sixty_four 1

abbrev keyed_hash : List ℕ → Text → Text
keyed_hash k m = sixty_four b'c'

abbrev challenge : CompletionChallenge
challenge = record {
  key_id = text (codes "key-1");
  nonce = text (sixty_four b'd');
  plan_fingerprint = text digest;
  execution_name = text (codes "gpu-control-bbbbbbbbbbbb-dddddddddddd");
  source_sha = text (codes "38594057d1b118a7acf6c843e39d7d8a25571316");
  image_digest = text digest;
  schema_version = int (pos 2);
}

-- The challenge is the one that is created for its plan.
challenge_created :
    create_challenge challenge.key_id
      (text digest)
      challenge.source_sha
      (text digest)
      (sixty_four b'd')
    ≡ ok challenge
unfolding checking
challenge_created = refl

abbrev evidence : CompletionEvidence
evidence = made_of keyed_hash v3 challenge digest (int (pos 0)) secret

signed_here :
    sign_completion keyed_hash v3 challenge (text digest) (int (pos 0)) secret ≡ ok evidence
unfolding checking
signed_here = refl

signed_is_verified_example :
    verify_completion keyed_hash v3 challenge evidence secret (text digest) ≡ ok tt
unfolding all_in
signed_is_verified_example =
    signed_is_verified keyed_hash v3 challenge (text digest) (int (pos 0)) secret evidence
      (λ k m. refl) signed_here

verified_here : verify_completion keyed_hash v3 challenge evidence secret (text digest) ≡ ok tt
unfolding checking
verified_here = refl

verified_is_signed_example :
    (d : Text) × (require_sha256 (text digest) "expected_result_sha256" ≡ ok d)
    × (sign_completion keyed_hash v3 challenge (text d) (int (pos 0)) secret ≡ ok evidence)
verified_is_signed_example =
    verified_is_signed keyed_hash v3 challenge evidence secret (text digest) refl verified_here
