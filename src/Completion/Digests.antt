-- ===== src/Completion/Digests.antt =====
-- A digest has no surrounding whitespace, so that reading it again leaves it as it is.
use gpu_control.Base.{
  ℕ, ◌≡◌, refl, ap, ◌∙◌, Bool, true, false, not, some, [], ◌∷◌, Text, codes, String, strip, lstrip,
  is_space, is_empty, after_prefix, all_in, inl, inr, Option-cases, ok, guard->>-eq-ok, >>=-eq-ok,
  arith,
}
use mathlib.Core.Path.{subst}
use mathlib.Core.List.{reverse, reverse_aux, reverse-reverse}
use gpu_control.Value.{Value, text}
use gpu_control.Patterns.{is_hex_lower, is_sha256_text}
use gpu_control.Completion.{require_nonempty, require_sha256}

abbrev is_dark : ℕ → Bool
is_dark c = not (is_space c)

all_in-reverse_aux :
    (p : ℕ → Bool) (s t : Text)
    → all_in p s ≡ true
    → all_in p t ≡ true
    → all_in p (reverse_aux s t) ≡ true
unfolding all_in
all_in-reverse_aux p [] t e e' = e'
all_in-reverse_aux p (c ∷ s) t e e' = all_in-reverse_aux p s (c ∷ t) (ground arith) (ground arith)

lstrip_dark : (s : Text) → all_in is_dark s ≡ true → lstrip s ≡ s
unfolding lstrip all_in
lstrip_dark [] e = refl
lstrip_dark (c ∷ s) e = ground arith

strip_dark : (s : Text) → all_in is_dark s ≡ true → strip s ≡ s
unfolding strip all_in
strip_dark s e =
    let turned = all_in-reverse_aux is_dark s [] e refl in
    ap (λ t. reverse (lstrip (reverse t))) (lstrip_dark s e)
    ∙ ap reverse (lstrip_dark (reverse s) turned)
    ∙ reverse-reverse s

all_in-weaken :
    (p q : ℕ → Bool) (s : Text)
    → ((c : ℕ) → p c ≡ true → q c ≡ true)
    → all_in p s ≡ true
    → all_in q s ≡ true
unfolding all_in
all_in-weaken p q [] w e = refl
all_in-weaken p q (c ∷ s) w e = rw (w c (ground arith)) (all_in-weaken p q s w (ground arith))

all_in-after_prefix :
    (p : ℕ → Bool) (front s rest : Text)
    → after_prefix front s ≡ some rest
    → all_in p front ≡ true
    → all_in p rest ≡ true
    → all_in p s ≡ true
unfolding all_in after_prefix
all_in-after_prefix p [] s rest e f r = let same : s ≡ rest = ground arith in rw same r
all_in-after_prefix p (c ∷ front) [] rest e f r = cc
all_in-after_prefix p (c ∷ front) (d ∷ s) rest e f r =
    let same : c ≡ d = ground arith in
    let tail = all_in-after_prefix p front s rest (ground arith) (ground arith) r in ground arith

hex_dark : (c : ℕ) → is_hex_lower c ≡ true → is_dark c ≡ true
unfolding is_space
hex_dark c e = ground arith

prefix_dark : all_in is_dark (codes "sha256:") ≡ true
unfolding all_in is_space
prefix_dark = refl

sha256_not-is_empty : (s : Text) → is_sha256_text s ≡ true → is_empty s ≡ false
unfolding is_sha256_text after_prefix
sha256_not-is_empty [] e = cc
sha256_not-is_empty (c ∷ s) e = refl

sha256_dark : (s : Text) → is_sha256_text s ≡ true → all_in is_dark s ≡ true
unfolding is_sha256_text
sha256_dark s e = elim (Option-cases (after_prefix (codes "sha256:") s)) [
  | inl other ↦ absurd (ground arith)
  | inr (digits, at) ↦
      all_in-after_prefix is_dark (codes "sha256:") s digits at prefix_dark
        (all_in-weaken is_hex_lower is_dark digits hex_dark (ground arith))
]

pub strip_sha256 : (s : Text) → is_sha256_text s ≡ true → strip s ≡ s
strip_sha256 s e = strip_dark s (sha256_dark s e)

pub require_sha256-eq-ok :
    (v : Value) (field : String) (digest : Text)
    → require_sha256 v field ≡ ok digest
    → is_sha256_text digest ≡ true
unfolding require_sha256
require_sha256-eq-ok v field digest e =
    let (normalized, _, e1) = >>=-eq-ok (require_nonempty v field) _ e in
    let (shaped, e2) = guard->>-eq-ok (is_sha256_text normalized) _ _ e1 in
    let same : normalized ≡ digest = cc in subst (λ t. is_sha256_text t ≡ true) same shaped

-- A digest that was read is read again as it is.
pub require_sha256_text :
    (digest : Text) (field : String)
    → is_sha256_text digest ≡ true
    → require_sha256 (text digest) field ≡ ok digest
unfolding require_sha256 require_nonempty
require_sha256_text digest field e =
    let same = strip_sha256 digest e in
    rw (require_sha256, require_nonempty, same, sha256_not-is_empty digest e, e) refl
