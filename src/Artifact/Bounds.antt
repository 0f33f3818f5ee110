-- ===== src/Artifact/Bounds.antt =====
-- What the checks of results.py make of the artifacts of a result.
use mathlib.Core.Path.{subst}
use gpu_control.Base.{
  ℕ, ◌+◌, ◌-◌, ◌≡◌, ◌≢◌, sym, ◌∙◌, ap, true, false, ◌||◌, not, Option, none, some, List, [], ◌∷◌,
  Text, codes, text_eq, is_empty, has_char, split, pos, pos_part, int_le→≤ℤ, ◌≤ℤ◌, ok,
  result_contract, if◌then◌else◌, arith, All, length, ◌==◌, String, Error, err, Result-cases,
  Option-cases, inl, inr, >>-eq-ok, guard->>-eq-ok,
}
use gpu_control.Value.{Value, text, same_text, same_text_self, is_nonblank, int}
use gpu_control.Host.{Host}
use gpu_control.Patterns.{is_fingerprint}
use gpu_control.Clock.{require_text, require_text-eq-ok, IsCleanText}
use gpu_control.ResultPolicy.{ResultPolicy}
use gpu_control.Artifact.{
  collected, OutputArtifact, has_special, size_of, collected_size, natural_of, seen,
  validate_artifact_name, validate_artifact, check_artifacts,
}

-- How far below the output directory the segments of a path lead, `none` above it.
unfoldable pub depth_after : ℕ → List Text → Option ℕ
unfolding text_eq
depth_after d [] = some d
depth_after d (s ∷ ss) =
    let same = depth_after d ss in
    let up = depth_after (d - 1) ss in
    let down = depth_after (d + 1) ss in
    if text_eq s (codes "..")
    then (if d == 0 then none else up)
    else if is_empty s || text_eq s (codes ".")
    then same
    else down

depth_after_plain :
    (d : ℕ) (ss : List Text) → has_special ss ≡ false → depth_after d ss ≡ some (d + length ss)
unfolding depth_after has_special
depth_after_plain d [] h = ground arith
depth_after_plain d (s ∷ ss) h = ground (arith, depth_after_plain (d + 1) ss)

module _ ⦃h : Host⦄ (policy : ResultPolicy) where
  -- A name that is accepted leads down one directory with every segment: it neither leaves the
  -- output directory on the way nor names it.
  pub validate_artifact_name-descends :
      (v : Value) (name : Text)
      → validate_artifact_name policy v ≡ ok name
      → (v ≡ text name)
        × (has_char 92 name ≡ false)
        × (depth_after 0 (split b'/' name) ≡ some (length (split b'/' name)))
  unfolding validate_artifact_name
  validate_artifact_name-descends v name e =
      elim (Result-cases
        (require_text result_contract v "artifact name" (pos_part policy.max_name_length))) [
          | inr (x, failed) ↦ absurd (ground arith)
          | inl (s, read) ↦
              let clean =
                require_text-eq-ok result_contract v "artifact name"
                  (pos_part policy.max_name_length) s read in
              (
                ground (arith, clean.is_text),
                ground arith,
                ground (arith, depth_after_plain 0 (split b'/' name)),
              )
        ]

  -- What a valid artifact keeps to.
  pub record IsBounded (a : OutputArtifact) : Type 0 where
    pub name : Text
    pub named : IsCleanText (pos_part policy.max_name_length) a.name name
    pub media : (s : Text) × IsCleanText (pos_part policy.max_media_type_length) a.media_type s
    pub referenced : (s : Text) × IsCleanText (pos_part policy.max_reference_length) a.reference s
    pub digest : is_fingerprint a.sha256 ≡ true
    pub natural : a.size_bytes ≡ int (pos (size_of a))
    pub declared : pos (size_of a) ≤ℤ policy.max_declared_artifact_bytes
    pub kept : a.disposition ≡ collected → pos (size_of a) ≤ℤ policy.max_collected_file_bytes

  pub natural_of-eq-some : (v : Value) {n : ℕ} → natural_of v ≡ some n → v ≡ int (pos n)
  unfolding natural_of
  natural_of-eq-some (int (pos m)) e = ground arith
  natural_of-eq-some v e = cc

  size_of_natural : (a : OutputArtifact) (n : ℕ) → natural_of a.size_bytes ≡ some n → size_of a ≡ n
  unfolding size_of
  size_of_natural a n e = ground (arith, natural_of-eq-some a.size_bytes {n = n})

  accepted_text :
      (v : Value) (field : String) (max : ℕ)
      → ((x : Error) → require_text result_contract v field max ≢ err x)
      → (s : Text) × IsCleanText max v s
  accepted_text v field max passes =
      elim (Result-cases (require_text result_contract v field max)) [
        | inr (x, failed) ↦ absurd (passes x failed)
        | inl (s, read) ↦ (s, require_text-eq-ok result_contract v field max s read)
      ]

  pub validate_artifact-IsBounded :
      (a : OutputArtifact) → validate_artifact policy a ≡ ok tt → IsBounded a
  unfolding validate_artifact validate_artifact_name
  validate_artifact-IsBounded a e =
      let (name, named) =
        accepted_text a.name "artifact name" (pos_part policy.max_name_length)
          (λ x failed. absurd (ground arith)) in
      let (media, typed) =
        accepted_text a.media_type "artifact media_type" (pos_part policy.max_media_type_length)
          (λ x failed. absurd (ground arith)) in
      let (reference, referenced) =
        accepted_text a.reference "artifact reference" (pos_part policy.max_reference_length)
          (λ x failed. absurd (ground arith)) in
      elim (Option-cases (natural_of a.size_bytes)) [
        | inl failed ↦ absurd (ground arith)
        | inr (n, counted) ↦
            let same = size_of_natural a n counted in
            record {
              name = name;
              named = named;
              media = (media, typed);
              referenced = (reference, referenced);
              digest = ground arith;
              natural = natural_of-eq-some a.size_bytes counted ∙ ap (λ m. int (pos m)) (sym same);
              declared =
                  rw same (int_le→≤ℤ (pos n) policy.max_declared_artifact_bytes (ground arith));
              kept =
                  λ c. rw same (int_le→≤ℤ (pos n) policy.max_collected_file_bytes (ground arith));
            }
      ]

  valid-nonblank :
      (a : OutputArtifact) → validate_artifact policy a ≡ ok tt → is_nonblank a.name ≡ true
  unfolding validate_artifact validate_artifact_name require_text
  valid-nonblank a e = ground arith

-- The total size of the collected artifacts.
unfoldable pub collected_total : List OutputArtifact → ℕ
collected_total [] = 0
collected_total (a ∷ rest) = collected_size a + collected_total rest

-- No two artifacts have one name.
abbrev pub Distinct : List OutputArtifact → Type 0
Distinct [] = Unit
Distinct (a ∷ rest) = All (λ b. b.name ≢ a.name) rest × Distinct rest

abbrev IsFresh : List Value → OutputArtifact → Type 0
IsFresh names a = All (λ n. a.name ≢ n) names

-- Two texts that are not the same text differ.
not_seen-IsFresh :
    (names : List Value) (a : OutputArtifact)
    → is_nonblank a.name ≡ true
    → seen a.name names ≡ false
    → IsFresh names a
unfolding seen
not_seen-IsFresh [] a t h = tt
not_seen-IsFresh (n ∷ names) a t h = (
  λ e. ground (arith, subst (λ v. same_text a.name v ≡ true) e (same_text_self a.name t)),
  not_seen-IsFresh names a t (ground arith),
)

module _ ⦃h : Host⦄ (policy : ResultPolicy) where
  abbrev pub AllBounded : List OutputArtifact → Type 0
  AllBounded = All (IsBounded policy)

  heads :
      (v : Value) (names : List Value) (xs : List OutputArtifact)
      → All (IsFresh (v ∷ names)) xs
      → All (λ b. b.name ≢ v) xs
  heads v names [] f = tt
  heads v names (x ∷ xs) f = (f.0.0, heads v names xs f.1)

  tails :
      (v : Value) (names : List Value) (xs : List OutputArtifact)
      → All (IsFresh (v ∷ names)) xs
      → All (IsFresh names) xs
  tails v names [] f = tt
  tails v names (x ∷ xs) f = (f.0.1, tails v names xs f.1)

  check_artifacts_from :
      (names : List Value) (total : ℕ) (xs : List OutputArtifact) (t : ℕ)
      → check_artifacts policy names total xs ≡ ok t
      → (t ≡ total + collected_total xs) × AllBounded xs × Distinct xs × All (IsFresh names) xs
  unfolding check_artifacts collected_total
  check_artifacts_from names total [] t e = (ground arith, tt, tt, tt)
  check_artifacts_from names total (a ∷ rest) t e =
      let (valid, e₁) = >>-eq-ok (validate_artifact policy a) _ e in
      let (new, e₂) =
        guard->>-eq-ok (not (seen a.name names)) (result_contract "duplicate artifact name") _ e₁ in
      let (sum, bounded, distinct, fresh) =
        check_artifacts_from (a.name ∷ names) (total + collected_size a) rest t e₂ in
      let text = valid-nonblank policy a valid in
      (
        omega (arith, sum),
        (validate_artifact-IsBounded policy a valid, bounded),
        (heads a.name names rest fresh, distinct),
        (not_seen-IsFresh names a text (ground arith), tails a.name names rest fresh),
      )

  -- The loop over the artifacts, when it accepts them, has summed the sizes of the collected ones,
  -- each artifact is within the bounds of the policy, and no two have the same name.
  pub check_artifacts_lem :
      (xs : List OutputArtifact) (t : ℕ)
      → check_artifacts policy [] 0 xs ≡ ok t
      → (t ≡ collected_total xs) × AllBounded xs × Distinct xs
  check_artifacts_lem xs t e =
      let (sum, bounded, distinct, _) = check_artifacts_from [] 0 xs t e in
      (omega (arith, sum), bounded, distinct)
