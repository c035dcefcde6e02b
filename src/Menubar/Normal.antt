-- ===== src/Menubar/Normal.antt =====
-- What normalised settings are, and that they stay as they are.
use one_auth_watch.Prelude.{
  ℕ, zero, suc, ◌≤◌, inl, inr, ◌≡◌, refl, ap, sym, true, false, ◌||◌, List, [], ◌∷◌, arith, length,
  Bool-cases, if◌then◌else◌,
}
use mathlib.Core.Path.{subst}
use one_auth_watch.Prelude.Text.{Text, trim_space}
use one_auth_watch.Prelude.Text.Trim.{trim_space_again}
use one_auth_watch.Menubar.{
  StatusDisplaySelection, is_blank, seen, normalize_from, trimmed_selection, selection_key,
  select_from, or_legacy,
}

-- Trimmed texts, none of them empty, none twice and none of those before.
unfoldable pub IsClean : List Text → List Text → Type 0
IsClean before [] = Unit
IsClean before (x ∷ xs) =
    (trim_space x ≡ x) × ((is_blank x || seen x before) ≡ false) × IsClean (x ∷ before) xs

pub normalize_from-IsClean :
    (before values : List Text) → IsClean before (normalize_from before values)
unfolding IsClean normalize_from
normalize_from-IsClean before [] = tt
normalize_from-IsClean before (value ∷ values) =
    elim (Bool-cases (is_blank (trim_space value) || seen (trim_space value) before)) [
      | inl e ↦ rw e (normalize_from-IsClean before values)
      | inr e ↦
          rw e
            (trim_space_again value, e, normalize_from-IsClean (trim_space value ∷ before) values)
    ]

pub clean_stays : (before xs : List Text) → IsClean before xs → normalize_from before xs ≡ xs
unfolding IsClean normalize_from
clean_stays before [] h = refl
clean_stays before (x ∷ xs) (trimmed, new, rest) =
    rw (trimmed, new) (ap (λ r. x ∷ r) (clean_stays (x ∷ before) xs rest))

-- The same for selections, and at most `n` of them.
unfoldable pub IsChosen : ℕ → List Text → List StatusDisplaySelection → Type 0
IsChosen n before [] = Unit
IsChosen zero before (v ∷ vs) = true ≡ false
IsChosen (suc n) before (v ∷ vs) =
    (trimmed_selection v ≡ v)
    × ((is_blank v.provider_id || seen (selection_key v) before) ≡ false)
    × IsChosen n (selection_key v ∷ before) vs

pub trimmed_again :
    (v : StatusDisplaySelection) → trimmed_selection (trimmed_selection v) ≡ trimmed_selection v
trimmed_again v = rw (trim_space_again v.provider_id, trim_space_again v.quota_key) refl

pub select_from-IsChosen :
    (n : ℕ) (before : List Text) (values : List StatusDisplaySelection)
    → IsChosen n before (select_from n before values)
unfolding IsChosen select_from
select_from-IsChosen zero before values = tt
select_from-IsChosen (suc n) before [] = tt
select_from-IsChosen (suc n) before (value ∷ values) =
    let v = trimmed_selection value in
    elim (Bool-cases (is_blank v.provider_id || seen (selection_key v) before)) [
      | inl e ↦ rw e (select_from-IsChosen (suc n) before values)
      | inr e ↦
          rw e (trimmed_again value, e, select_from-IsChosen n (selection_key v ∷ before) values)
    ]

pub chosen_stays :
    (n : ℕ) (before : List Text) (vs : List StatusDisplaySelection)
    → IsChosen n before vs
    → select_from n before vs ≡ vs
unfolding IsChosen select_from
chosen_stays zero before [] h = refl
chosen_stays zero before (v ∷ vs) h = ground arith
chosen_stays (suc n) before [] h = refl
chosen_stays (suc n) before (v ∷ vs) (trimmed, new, rest) =
    let kept = ap (λ r. v ∷ r) (chosen_stays n (selection_key v ∷ before) vs rest) in
    subst
      (λ w.
        (if is_blank w.provider_id || seen (selection_key w) before
          then select_from (suc n) before vs
          else w ∷ select_from n (selection_key w ∷ before) vs)
        ≡ v ∷ vs)
      (sym trimmed) (rw new kept)

pub length-chosen :
    (n : ℕ) (before : List Text) (vs : List StatusDisplaySelection)
    → IsChosen n before vs
    → length vs ≤ n
unfolding IsChosen
length-chosen n before [] h = omega arith
length-chosen zero before (v ∷ vs) h = ground arith
length-chosen (suc n) before (v ∷ vs) (trimmed, new, rest) =
    omega (arith, length-chosen n (selection_key v ∷ before) vs rest)

pub or_legacy-IsChosen :
    (vs : List StatusDisplaySelection) (legacy : StatusDisplaySelection)
    → IsChosen 3 [] vs
    → trimmed_selection legacy ≡ legacy
    → IsChosen 3 [] (or_legacy vs legacy)
unfolding IsChosen seen
or_legacy-IsChosen (v ∷ vs) legacy h trimmed = h
or_legacy-IsChosen [] legacy h trimmed = elim (Bool-cases (is_blank legacy.provider_id)) [
  | inl e ↦ rw e tt
  | inr e ↦ rw e (trimmed, rw e refl, tt)
]
