-- ===== src/Authorization/Repository.antt =====
-- src/gpu_control/repository_security.py: the controls of the repository that guard the paid workflow.
use gpu_control.Base.{
  String, ◌<>◌, Bool, true, ◌&&◌, not, none, some, Option, List, [], ◌∷◌, Text, codes, text_eq,
  after_prefix, if◌then◌else◌, Result, ok, err, repository_security, guard, ◌>>=◌, ◌>>◌,
}
use gpu_control.Value.{
  Value, Values, Fields, text, items, nil, cons, get, member, subset, is_nonblank,
}
use gpu_control.Authorization.{equals_one, is_true, spaced_text, got, mapping}

pub record RepositorySecurityEvidence : Type 0 where
  pub repository : Value
  pub branch : Value
  pub branch_protected : Value
  pub pull_request_required : Value
  pub required_status_checks_enforced : Value
  pub required_status_checks : Values
  pub force_pushes_blocked : Value
  pub deletions_blocked : Value
  pub verification_reference : Value
  pub schema_version : Value

-- One of the `required_booleans`.
unfoldable pub require_control : String → Value → Option Value → Result (Unit {0})
require_control label actual required = do
  guard (is_true required) (repository_security ("paid policy must require " <> label))
  guard (is_true (some actual))
      (repository_security ("GitHub repository does not enforce required " <> label))

-- The texts of a list whose entries are all texts that are not blank.
unfoldable pub nonblank_texts : Values → Option (List Text)
nonblank_texts nil = some []
nonblank_texts (cons v vs) = elim (nonblank_texts vs) [
  | none ↦ none
  | some rest ↦ (elim v [
    | text s ↦ if is_nonblank (text s) then some (s ∷ rest) else none
    | _ ↦ none
  ])
]

-- `len(set(xs)) == len(xs)`
unfoldable pub are_distinct : List Text → Bool
are_distinct [] = true
are_distinct (x ∷ xs) = not (member x xs) && are_distinct xs

unfoldable pub policy_checks : Option Value → Result (List Text)
policy_checks (some (items vs)) = elim (nonblank_texts vs) [
  | none ↦ err (repository_security "paid policy must list required status checks")
  | some [] ↦ err (repository_security "paid policy must list required status checks")
  | some (x ∷ xs) ↦ ok (x ∷ xs)
]
policy_checks _ = err (repository_security "paid policy must list required status checks")

unfoldable pub status_checks : Values → Result (List Text)
status_checks nil = ok []
status_checks (cons v vs) = do
  s ← spaced_text repository_security v "required status check"
  rest ← status_checks vs
  ok (s ∷ rest)

-- The last checks of `validate_against_policy`, without the names in the last message.
unfoldable pub require_checks : RepositorySecurityEvidence → Fields → Result (Unit {0})
require_checks e controls = do
  expected ← policy_checks (get (codes "required_status_checks") controls)
  guard (are_distinct expected)
      (repository_security "paid policy required status checks must be unique")
  actual ← status_checks e.required_status_checks
  guard (are_distinct actual)
      (repository_security "repository security status checks must be unique")
  guard (subset expected actual)
      (repository_security "GitHub branch protection is missing required status checks")

unfoldable pub require_controls : RepositorySecurityEvidence → Fields → Result (Unit {0})
require_controls e controls = do
  require_control "branch protection" e.branch_protected
      (get (codes "branch_protection_required") controls)
  require_control "pull request requirement" e.pull_request_required
      (get (codes "pull_request_required") controls)
  require_control "required status checks" e.required_status_checks_enforced
      (get (codes "required_status_checks_required") controls)
  require_control "force-push blocking" e.force_pushes_blocked
      (get (codes "force_pushes_forbidden") controls)
  require_control "branch deletion blocking" e.deletions_blocked
      (get (codes "deletions_forbidden") controls)

abbrev branch_of : Text → Result Text
branch_of ref = elim (after_prefix (codes "refs/heads/") ref) [
  | none ↦ err (repository_security "paid policy ref must identify a branch")
  | some branch ↦ ok branch
]

-- `RepositorySecurityEvidence.validate_against_policy`
unfoldable pub validate_against_policy : RepositorySecurityEvidence → Fields → Result (Unit {0})
validate_against_policy e policy = do
  guard (equals_one e.schema_version)
      (repository_security "unsupported repository security evidence schema_version")
  identity ←
      mapping repository_security (get (codes "github_identity") policy)
        "github_identity policy is required"
  controls ←
      mapping repository_security (get (codes "github_repository_security") policy)
        "github_repository_security policy is required"
  let read = spaced_text repository_security
  expected_repository ←
      got repository_security read (get (codes "repository") identity) "policy repository"
  expected_ref ← got repository_security read (get (codes "ref") identity) "policy ref"
  expected_branch ← branch_of expected_ref
  repository ← read e.repository "repository"
  guard (text_eq repository expected_repository)
      (repository_security "repository security evidence repository mismatch")
  branch ← read e.branch "branch"
  guard (text_eq branch expected_branch)
      (repository_security "repository security evidence branch mismatch")
  _ ← read e.verification_reference "verification_reference"
  require_controls e controls
  require_checks e controls
