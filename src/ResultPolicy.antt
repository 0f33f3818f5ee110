-- ===== src/ResultPolicy.antt =====
-- src/gpu_control/results.py: the result policy and how it is read from a parsed document.
use gpu_control.Base.{
  String, ◌<>◌, Bool, true, false, not, none, some, codes, ℤ, pos, int_eq, int_le, int_pos,
  pos_part, ◌*◌, Result, ok, err, result_contract, guard, ◌>>=◌, ◌>>◌, if◌then◌else◌,
}
use gpu_control.Decimal.{decimal_eq, finite}
use gpu_control.Value.{
  Value, Fields, flag, int, float, decimal, text, object, as_int, same_text, item,
}

pub record ResultPolicy : Type 0 where
  pub max_log_bytes : ℤ
  pub max_artifact_entries : ℤ
  pub max_name_length : ℤ
  pub max_reference_length : ℤ
  pub max_media_type_length : ℤ
  pub max_declared_artifact_bytes : ℤ
  pub max_collected_file_bytes : ℤ
  pub max_total_collected_bytes : ℤ
  pub large_artifacts : Value
  pub require_sha256 : Value
  pub auto_fetch_references : Value
  pub schema_version : ℤ

-- `v is True` and `v is False`
unfoldable pub is_flag : Bool → Value → Bool
is_flag b (flag c) = if b then c else not c
is_flag b _ = false

positive : ℤ → String → Result (Unit {0})
positive n field =
    guard (int_pos n)
      (result_contract ("result policy " <> (field <> " must be a positive integer")))

-- `ResultPolicy.validate_shape`
unfoldable pub validate_policy : ResultPolicy → Result (Unit {0})
unfolding positive
validate_policy p = do
  guard (int_eq p.schema_version (pos 1))
      (result_contract "unsupported result policy schema_version")
  positive p.max_log_bytes "max_log_bytes"
  positive p.max_artifact_entries "max_artifact_entries"
  positive p.max_name_length "max_name_length"
  positive p.max_reference_length "max_reference_length"
  positive p.max_media_type_length "max_media_type_length"
  positive p.max_declared_artifact_bytes "max_declared_artifact_bytes"
  positive p.max_collected_file_bytes "max_collected_file_bytes"
  positive p.max_total_collected_bytes "max_total_collected_bytes"
  guard (int_le p.max_collected_file_bytes p.max_total_collected_bytes)
      (result_contract "max_collected_file_bytes cannot exceed max_total_collected_bytes")
  guard
      (int_le p.max_total_collected_bytes
        (pos (pos_part p.max_declared_artifact_bytes * pos_part p.max_artifact_entries)))
      (result_contract "result policy total collection limit is internally inconsistent")
  guard (same_text p.large_artifacts (text (codes "reference_only")))
      (result_contract "large artifacts must remain reference_only in the current policy")
  guard (is_flag true p.require_sha256)
      (result_contract "result policy must require sha256 digests")
  guard (is_flag false p.auto_fetch_references)
      (result_contract "result policy must not auto-fetch artifact references")

-- `_positive_int`
unfoldable pub positive_int : Value → String → Result ℤ
positive_int v field = elim (as_int v) [
  | none ↦ err (result_contract ("result policy " <> (field <> " must be a positive integer")))
  | some n ↦
      if int_pos n
      then ok n
      else err (result_contract ("result policy " <> (field <> " must be a positive integer")))
]

-- `v == 1` for a value of a parsed document
equals_one : Value → Bool
equals_one (flag b) = b
equals_one (int n) = int_eq n (pos 1)
equals_one (float d) = decimal_eq d (finite (pos 1) (pos 0))
equals_one (decimal d) = decimal_eq d (finite (pos 1) (pos 0))
equals_one _ = false

section_of : Value → Result Fields
section_of (object fs) = ok fs
section_of _ = err (result_contract "result policy is missing required mappings")

read_policy : Fields → Result ResultPolicy
unfolding equals_one section_of
read_policy doc = do
  guard (equals_one (item "version" doc)) (result_contract "unsupported result policy version")
  logs ← section_of (item "logs" doc)
  artifacts ← section_of (item "artifacts" doc)
  collection ← section_of (item "collection" doc)
  behavior ← section_of (item "behavior" doc)
  log_bytes ← positive_int (item "max_retained_bytes" logs) "logs.max_retained_bytes"
  entries ← positive_int (item "max_entries" artifacts) "artifacts.max_entries"
  name_length ← positive_int (item "max_name_length" artifacts) "artifacts.max_name_length"
  reference_length ←
      positive_int (item "max_reference_length" artifacts) "artifacts.max_reference_length"
  media_type_length ←
      positive_int (item "max_media_type_length" artifacts) "artifacts.max_media_type_length"
  declared ← positive_int (item "max_declared_bytes" artifacts) "artifacts.max_declared_bytes"
  file_bytes ←
      positive_int (item "max_collected_file_bytes" collection)
        "collection.max_collected_file_bytes"
  total_bytes ←
      positive_int (item "max_total_collected_bytes" collection)
        "collection.max_total_collected_bytes"
  let policy : ResultPolicy = record {
    max_log_bytes = log_bytes;
    max_artifact_entries = entries;
    max_name_length = name_length;
    max_reference_length = reference_length;
    max_media_type_length = media_type_length;
    max_declared_artifact_bytes = declared;
    max_collected_file_bytes = file_bytes;
    max_total_collected_bytes = total_bytes;
    large_artifacts = item "large_artifacts" behavior;
    require_sha256 = item "require_sha256" behavior;
    auto_fetch_references = item "auto_fetch_references" behavior;
    schema_version = pos 1;
  }
  validate_policy policy
  ok policy

-- `_parse_result_policy` behind `yaml.safe_load`. A missing key reads as None.
unfoldable pub parse_result_policy : Value → Result ResultPolicy
unfolding read_policy
parse_result_policy (object doc) = read_policy doc
parse_result_policy _ = err (result_contract "result policy must contain a mapping")
