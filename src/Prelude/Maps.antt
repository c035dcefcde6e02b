-- ===== src/Prelude/Maps.antt =====
-- Go maps. A `map[K]V` that the program only reads and writes by key is a function (`Map`); one that
-- it also measures or ranges over is a list of entries (`Assoc`), whose order stands for the
-- unspecified order of a `range` loop.
use one_auth_watch.Prelude.{
  ℕ, suc, ◌≤◌, ◌≡◌, refl, ◌↔◌, Bool, true, false, not, Option, none, some, List, [], ◌∷◌, arith,
  if◌then◌else◌, length, ==_iff, ◌==◌, keep, All, Bool-cases, inl, inr,
}
use mathlib.Core.Path.{subst}
use one_auth_watch.Prelude.Text.{Text, text_eq, text_eq_iff}

pub record Eq (K : Type 0) : Type 0 where
  pub beq : K → K → Bool
  pub beq_iff : (a b : K) → (beq a b ≡ true) ↔ (a ≡ b)

instance abbrev pub nat_key : Eq ℕ
nat_key = record { beq = ◌==◌; beq_iff = ==_iff }

instance abbrev pub text_key : Eq Text
text_key = record { beq = text_eq; beq_iff = text_eq_iff }

abbrev pub Map : Type 0 → Type 0 → Type 0
Map K V = K → Option V

abbrev pub empty_map : {K V : Type 0} → Map K V
empty_map k = none

abbrev pub put : {K V : Type 0} ⦃e : Eq K⦄ → Map K V → K → V → Map K V
put ⦃e⦄ m k v j = if e.beq k j then some v else m j

abbrev pub delete : {K V : Type 0} ⦃e : Eq K⦄ → Map K V → K → Map K V
delete ⦃e⦄ m k j = if e.beq k j then none else m j

-- `m[k]` of a missing key is the zero value.
abbrev pub get_zero : {K : Type 0} → Map K ℕ → K → ℕ
get_zero m k = elim (m k) [ none ↦ 0 | some n ↦ n ]

abbrev pub is_some : {A : Type 0} → Option A → Bool
is_some none = false
is_some (some a) = true

abbrev pub Assoc : Type 0 → Type 0 → Type 0
Assoc K V = List (K × V)

module _ {K V : Type 0} ⦃e : Eq K⦄ where
  unfoldable pub lookup : K → Assoc K V → Option V
  lookup k [] = none
  lookup k ((j, v) ∷ m) = if e.beq j k then some v else lookup k m

  -- Overwrites the entry of a key that is there; a new key goes last.
  unfoldable pub insert : K → V → Assoc K V → Assoc K V
  insert k v [] = (k, v) ∷ []
  insert k v ((j, w) ∷ m) = if e.beq j k then (k, v) ∷ m else (j, w) ∷ insert k v m

  unfoldable pub remove : K → Assoc K V → Assoc K V
  remove k m = keep (λ x. not (e.beq x.0 k)) m

  pub lookup-insert :
      (k j : K) (v : V) (m : Assoc K V)
      → lookup j (insert k v m) ≡ (if e.beq k j then some v else lookup j m)
  unfolding lookup insert
  lookup-insert k j v [] = refl
  lookup-insert k j v ((i, w) ∷ m) =
      ground (arith, e.beq_iff k j, e.beq_iff i k, e.beq_iff i j, lookup-insert k j v m)

  pub lookup-remove :
      (k j : K) (m : Assoc K V) → lookup j (remove k m) ≡ (if e.beq k j then none else lookup j m)
  unfolding lookup remove
  lookup-remove k j [] = ground arith
  lookup-remove k j ((i, w) ∷ m) =
      ground (arith, e.beq_iff k j, e.beq_iff i k, e.beq_iff i j, lookup-remove k j m)

  pub length-insert :
      (k : K) (v : V) (m : Assoc K V)
      → length (insert k v m) ≡ (if is_some (lookup k m) then length m else suc (length m))
  unfolding lookup insert
  length-insert k v [] = refl
  length-insert k v ((i, w) ∷ m) = ground (arith, length-insert k v m)

  pub length-remove-le : (k : K) (m : Assoc K V) → length (remove k m) ≤ length m
  unfolding remove
  length-remove-le k [] = omega arith
  length-remove-le k ((i, w) ∷ m) = ground (arith, length-remove-le k m)

  -- Removing a key that is there makes the map smaller.
  pub length-remove-lt :
      (k : K) (m : Assoc K V) → is_some (lookup k m) ≡ true → suc (length (remove k m)) ≤ length m
  unfolding lookup remove
  length-remove-lt k [] h = ground arith
  length-remove-lt k ((i, w) ∷ m) h = ground (arith, length-remove-le k m, length-remove-lt k m)

pub beq_refl : {K : Type 0} ⦃e : Eq K⦄ (k : K) → e.beq k k ≡ true
beq_refl ⦃e⦄ k = (e.beq_iff k k).1 refl

-- A property of every entry.
module _ {K V : Type 0} ⦃e : Eq K⦄ (P : K × V → Type 0) where
  pub All-keep : (p : K × V → Bool) (m : Assoc K V) → All P m → All P (keep p m)
  All-keep p [] h = h
  All-keep p (x ∷ m) (first, rest) = elim (Bool-cases (p x)) [
    | inl t ↦ rw t (first, All-keep p m rest)
    | inr f ↦ rw f (All-keep p m rest)
  ]

  pub All-insert : (k : K) (v : V) (m : Assoc K V) → P (k, v) → All P m → All P (insert k v m)
  unfolding insert
  All-insert k v [] new h = (new, h)
  All-insert k v ((j, w) ∷ m) new (first, rest) = elim (Bool-cases (e.beq j k)) [
    | inl t ↦ rw t (new, rest)
    | inr f ↦ rw f (first, All-insert k v m new rest)
  ]

  pub All-remove : (k : K) (m : Assoc K V) → All P m → All P (remove k m)
  unfolding remove
  All-remove k m h = All-keep (λ x. not (e.beq x.0 k)) m h

  pub All-lookup : (k : K) (v : V) (m : Assoc K V) → lookup k m ≡ some v → All P m → P (k, v)
  unfolding lookup
  All-lookup k v [] found h = ground arith
  All-lookup k v ((j, w) ∷ m) found (first, rest) = elim (Bool-cases (e.beq j k)) [
    | inl t ↦ let same : (j, w) ≡ (k, v) = ground (arith, e.beq_iff j k) in subst P same first
    | inr f ↦ All-lookup k v m (ground arith) rest
  ]
