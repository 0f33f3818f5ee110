-- ===== src/Artifact.antt =====
-- src/gpu_control/results.py: output artifacts and the loop that checks them.
pub mod Bounds
use gpu_control.Base.{
  ℕ, ◌+◌, String, Bool, true, false, ◌&&◌, ◌||◌, not, Option, none, some, List, [], ◌∷◌, Text,
  codes, text_eq, is_empty, has_char, split, ℤ, pos, int_le, int_nonneg, pos_part, Result, ok, err,
  Error, result_contract, guard, ◌>>=◌, ◌>>◌, if◌then◌else◌, ◌==◌, length, leb,
}
use gpu_control.Value.{
  Value, Values, Fields, nil, cons, null, text, int, object, items, end, entry, as_int, as_text,
  same_text, item, require_exact_keys, member,
}
use gpu_control.Host.{Host}
use gpu_control.Patterns.{is_fingerprint}
use gpu_control.Clock.{require_text}
use gpu_control.ResultPolicy.{ResultPolicy, validate_policy}

pub data Disposition : Type 0 where
  collected reference_only : Disposition

abbrev pub is_collected : Disposition → Bool
is_collected collected = true
is_collected reference_only = false

abbrev pub disposition_value : Disposition → Text
disposition_value collected = codes "collected"
disposition_value reference_only = codes "reference_only"

disposition_of_text : Text → Option Disposition
disposition_of_text s =
    if text_eq s (codes "collected")
    then some collected
    else if text_eq s (codes "reference_only")
    then some reference_only
    else none

-- `ArtifactDisposition(v)`
unfoldable pub disposition_of : Value → Option Disposition
unfolding disposition_of_text text_eq
disposition_of (text s) = disposition_of_text s
disposition_of _ = none

pub record OutputArtifact : Type 0 where
  pub name : Value
  pub sha256 : Value
  pub size_bytes : Value
  pub media_type : Value
  pub reference : Value
  pub disposition : Disposition

-- `any(segment in {"", ".", ".."} for segment in segments)`
unfoldable pub has_special : List Text → Bool
has_special [] = false
has_special (s ∷ ss) =
    (is_empty s || text_eq s (codes ".") || text_eq s (codes "..")) || has_special ss

-- The size of an artifact whose shape was checked.
unfoldable pub size_of : OutputArtifact → ℕ
unfolding as_int
size_of a = elim (as_int a.size_bytes) [ none ↦ 0 | some n ↦ pos_part n ]

-- What an artifact adds to the collected total.
abbrev pub collected_size : OutputArtifact → ℕ
collected_size a = if is_collected a.disposition then size_of a else 0

-- `isinstance(v, int) and not isinstance(v, bool) and v >= 0`, with the number
unfoldable pub natural_of : Value → Option ℕ
natural_of (int (pos n)) = some n
natural_of _ = none

-- `artifact.name in seen_names`, for names that are texts
unfoldable pub seen : Value → List Value → Bool
seen v [] = false
seen v (w ∷ ws) = same_text v w || seen v ws

-- `OutputArtifact.to_dict`
unfoldable pub artifact_to_dict : OutputArtifact → Fields
artifact_to_dict a = entry (codes "name") a.name (
    entry (codes "sha256") a.sha256 (
      entry (codes "size_bytes") a.size_bytes (
        entry (codes "media_type") a.media_type (
          entry (codes "reference") a.reference
            (entry (codes "disposition") (text (disposition_value a.disposition)) end)))))

abbrev artifact_keys : List Text
artifact_keys =
    codes "name"
    ∷ codes "sha256"
    ∷ codes "size_bytes"
    ∷ codes "media_type"
    ∷ codes "reference"
    ∷ codes "disposition"
    ∷ []

abbrev known : Option Disposition → Result Disposition
known none = err (result_contract "artifact disposition is invalid")
known (some d) = ok d

module _ ⦃h : Host⦄ (policy : ResultPolicy) where
  -- `_validate_artifact_name`
  unfoldable pub validate_artifact_name : Value → Result Text
  validate_artifact_name v = do
    name ← require_text result_contract v "artifact name" (pos_part policy.max_name_length)
    guard (not (has_char 92 name)) (result_contract "artifact name must use POSIX separators")
    let path = h.posix_path name
    guard (not (path.is_absolute || has_special (split b'/' name)))
        (result_contract "artifact name must be a safe relative POSIX path")
    ok name

  natural : Value → Result ℕ
  natural v = elim (natural_of v) [
    | none ↦ err (result_contract "artifact size_bytes must be a non-negative integer")
    | some n ↦ ok n
  ]

  -- `OutputArtifact.validate_shape`
  unfoldable pub validate_artifact : OutputArtifact → Result (Unit {0})
  unfolding natural
  validate_artifact a = do
    validate_policy policy
    _ ← validate_artifact_name a.name
    guard (is_fingerprint a.sha256)
        (result_contract "artifact sha256 must be a lowercase sha256 digest")
    size ← natural a.size_bytes
    guard (int_le (pos size) policy.max_declared_artifact_bytes)
        (result_contract "artifact declared size exceeds result policy")
    _ ←
        require_text result_contract a.media_type "artifact media_type"
          (pos_part policy.max_media_type_length)
    _ ←
        require_text result_contract a.reference "artifact reference"
          (pos_part policy.max_reference_length)
    guard
        (not
          (is_collected a.disposition && not (int_le (pos size) policy.max_collected_file_bytes)))
        (result_contract "collected artifact exceeds per-file collection limit")

  -- The loop over `artifacts`, with `seen_names` and `collected_total`; the result is the total.
  unfoldable pub check_artifacts : List Value → ℕ → List OutputArtifact → Result ℕ
  check_artifacts names total [] = ok total
  check_artifacts names total (a ∷ rest) = do
    validate_artifact a
    guard (not (seen a.name names)) (result_contract "duplicate artifact name")
    check_artifacts (a.name ∷ names) (total + collected_size a) rest

  restore_artifact : Fields → Result OutputArtifact
  restore_artifact payload = do
    require_exact_keys result_contract payload artifact_keys "artifact entry"
    disposition ← known (disposition_of (item "disposition" payload))
    let artifact : OutputArtifact = record {
      name = item "name" payload;
      sha256 = item "sha256" payload;
      size_bytes = item "size_bytes" payload;
      media_type = item "media_type" payload;
      reference = item "reference" payload;
      disposition = disposition;
    }
    validate_artifact artifact
    ok artifact

  -- `OutputArtifact.from_dict`
  unfoldable pub artifact_from_dict : Value → Result OutputArtifact
  unfolding restore_artifact
  artifact_from_dict (object payload) = restore_artifact payload
  artifact_from_dict _ = err (result_contract "artifact entry must be an object")
