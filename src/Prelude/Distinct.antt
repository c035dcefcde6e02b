-- ===== src/Prelude/Distinct.antt =====
-- Maps as lists of entries that hold no key twice.
use one_auth_watch.Prelude.{
  inl, inr, ◌≡◌, refl, Bool, true, none, some, [], ◌∷◌, arith, keep, All, Bool-cases, not,
}
use mathlib.Core.Path.{subst}
use one_auth_watch.Prelude.Maps.{Eq, Assoc, lookup, insert, remove, lookup-insert}

module _ {K V : Type 0} ⦃e : Eq K⦄ where
  abbrev pub Distinct : Assoc K V → Type 0
  Distinct [] = Unit
  Distinct ((k, v) ∷ m) = (lookup k m ≡ none) × Distinct m

  pub insert-Distinct : (k : K) (v : V) (m : Assoc K V) → Distinct m → Distinct (insert k v m)
  unfolding insert lookup
  insert-Distinct k v [] h = (refl, tt)
  insert-Distinct k v ((j, w) ∷ m) (new, rest) = elim (Bool-cases (e.beq j k)) [
    | inl t ↦ let same : j ≡ k = (e.beq_iff j k).0 t in rw t (ground (arith, same), rest)
    | inr f ↦ rw f (
      ground (arith, lookup-insert k j v m, e.beq_iff j k, e.beq_iff k j),
      insert-Distinct k v m rest,
    )
  ]

  -- A key that is not there, after a filter.
  keep-none :
      (p : K × V → Bool) (k : K) (m : Assoc K V) → lookup k m ≡ none → lookup k (keep p m) ≡ none
  unfolding lookup
  keep-none p k [] h = refl
  keep-none p k ((j, w) ∷ m) h = ground (arith, keep-none p k m)

  pub keep-Distinct : (p : K × V → Bool) (m : Assoc K V) → Distinct m → Distinct (keep p m)
  keep-Distinct p [] h = tt
  keep-Distinct p ((j, w) ∷ m) (new, rest) = elim (Bool-cases (p (j, w))) [
    | inl t ↦ rw t (keep-none p j m new, keep-Distinct p m rest)
    | inr f ↦ rw f (keep-Distinct p m rest)
  ]

  pub remove-Distinct : (k : K) (m : Assoc K V) → Distinct m → Distinct (remove k m)
  unfolding remove
  remove-Distinct k m h = keep-Distinct (λ x. not (e.beq x.0 k)) m h

  -- An entry that passes the filter is found after it.
  pub lookup_kept :
      (p : K × V → Bool) (k : K) (v : V) (m : Assoc K V)
      → lookup k m ≡ some v
      → p (k, v) ≡ true
      → lookup k (keep p m) ≡ some v
  unfolding lookup
  lookup_kept p k v [] h t = ground arith
  lookup_kept p k v ((j, w) ∷ m) h t = elim (Bool-cases (e.beq j k)) [
    | inl s ↦
        let key : j ≡ k = (e.beq_iff j k).0 s in
        let value : w ≡ v = ground arith in
        let passes : p (j, w) ≡ true = rw (key, value) t in rw passes (ground (arith, h))
    | inr f ↦ ground (arith, lookup_kept p k v m)
  ]

  -- What is found after a filter was found before.
  pub lookup_before :
      (p : K × V → Bool) (k : K) (v : V) (m : Assoc K V)
      → Distinct m
      → lookup k (keep p m) ≡ some v
      → lookup k m ≡ some v
  unfolding lookup
  lookup_before p k v [] d h = ground arith
  lookup_before p k v ((j, w) ∷ m) (new, rest) h = elim (Bool-cases (e.beq j k)) [
    | inl s ↦
        let same : j ≡ k = (e.beq_iff j k).0 s in
        let gone : lookup k (keep p m) ≡ none =
          subst (λ i. lookup i (keep p m) ≡ none) same (keep-none p j m new) in
        ground arith
    | inr f ↦ ground (arith, lookup_before p k v m)
  ]

  pub All-of-lookup :
      (P : K × V → Type 0) (m : Assoc K V)
      → Distinct m
      → ((k : K) (v : V) → lookup k m ≡ some v → P (k, v))
      → All P m
  unfolding lookup
  All-of-lookup P [] d h = tt
  All-of-lookup P ((j, w) ∷ m) (new, rest) h = (
    h j w (ground (arith, e.beq_iff j j)),
    All-of-lookup P m rest λ k v found. h k v (elim (Bool-cases (e.beq j k)) [
      | inl s ↦
          let same : j ≡ k = (e.beq_iff j k).0 s in
          let gone : lookup k m ≡ none = subst (λ i. lookup i m ≡ none) same new in ground arith
      | inr f ↦ rw f found
    ]),
  )
