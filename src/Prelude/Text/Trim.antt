-- ===== src/Prelude/Text/Trim.antt =====
-- A text that was trimmed stays as it is.
use one_auth_watch.Prelude.{
  ℕ, inl, inr, ◌≡◌, refl, sym, ap, ◌∙◌, true, false, ◌&&◌, [], ◌∷◌, ◌++◌, Bool-cases, if◌then◌else◌,
  arith,
}
use one_auth_watch.Prelude.Text.{
  Text, newline_free, is_space, is_empty, trim_left, trim_right, trim_space,
}

-- Empty, or with a first code point that is no space.
abbrev StartsBare : Text → Type 0
StartsBare [] = Unit
StartsBare (c ∷ s) = is_space c ≡ false

trim_left-StartsBare : (s : Text) → StartsBare (trim_left s)
unfolding trim_left
trim_left-StartsBare [] = tt
trim_left-StartsBare (c ∷ s) = elim (Bool-cases (is_space c)) [
  | inl e ↦ rw e (trim_left-StartsBare s)
  | inr e ↦ rw e e
]

trim_left_bare : (s : Text) → StartsBare s → trim_left s ≡ s
unfolding trim_left
trim_left_bare [] h = refl
trim_left_bare (c ∷ s) h = rw h refl

trim_right-StartsBare : (s : Text) → StartsBare s → StartsBare (trim_right s)
unfolding trim_right
trim_right-StartsBare [] h = tt
trim_right-StartsBare (c ∷ s) h = rw h h

trim_right_again : (s : Text) → trim_right (trim_right s) ≡ trim_right s
unfolding trim_right
trim_right_again [] = refl
trim_right_again (c ∷ s) = elim (Bool-cases (is_space c && is_empty (trim_right s))) [
  | inl e ↦ rw e refl
  | inr e ↦ rw (e, trim_right_again s, e) refl
]

pub trim_space_again : (s : Text) → trim_space (trim_space s) ≡ trim_space s
unfolding trim_space
trim_space_again s =
    ap trim_right (
      trim_left_bare (trim_right (trim_left s))
        (trim_right-StartsBare (trim_left s) (trim_left-StartsBare s)))
    ∙ trim_right_again (trim_left s)

pub trim_right_of_trimmed : (s : Text) → trim_space s ≡ s → trim_right s ≡ s
unfolding trim_space
trim_right_of_trimmed s h = ap trim_right (sym h) ∙ trim_right_again (trim_left s) ∙ h

drop_only_empty :
    (d c : ℕ) (q s : Text)
    → (if is_space d && is_empty (q ++ c ∷ s) then [] else d ∷ (q ++ c ∷ s)) ≡ d ∷ (q ++ c ∷ s)
drop_only_empty d c [] s = elim (Bool-cases (is_space d)) [ inl e ↦ rw e refl | inr e ↦ rw e refl ]
drop_only_empty d c (b ∷ q) s = elim (Bool-cases (is_space d)) [
  | inl e ↦ rw e refl
  | inr e ↦ rw e refl
]

trim_right_from :
    (q : Text) (c : ℕ) (s : Text)
    → is_space c ≡ false
    → trim_right (q ++ c ∷ s) ≡ q ++ c ∷ trim_right s
unfolding trim_right
trim_right_from [] c s h = rw h refl
trim_right_from (d ∷ q) c s h = rw (trim_right_from q c s h) (drop_only_empty d c q (trim_right s))

-- Only the end of a text is trimmed that starts with no space and has another such code point.
pub trim_space_from :
    (b : ℕ) (q : Text) (c : ℕ) (s : Text)
    → is_space b ≡ false
    → is_space c ≡ false
    → trim_space (b ∷ q ++ c ∷ s) ≡ b ∷ q ++ c ∷ trim_right s
unfolding trim_space trim_left
trim_space_from b q c s h k = rw h (trim_right_from (b ∷ q) c s k)

pub trim_space_cons :
    (b : ℕ) (s : Text) → is_space b ≡ false → trim_space (b ∷ s) ≡ b ∷ trim_right s
unfolding trim_space trim_left
trim_space_cons b s h = rw h (trim_right_from [] b s h)

trim_left_free : (s : Text) → newline_free s ≡ true → newline_free (trim_left s) ≡ true
unfolding trim_left newline_free
trim_left_free [] h = refl
trim_left_free (c ∷ s) h = elim (Bool-cases (is_space c)) [
  | inl e ↦ rw e (trim_left_free s (ground arith))
  | inr e ↦ rw e h
]

trim_right_free : (s : Text) → newline_free s ≡ true → newline_free (trim_right s) ≡ true
unfolding trim_right newline_free
trim_right_free [] h = refl
trim_right_free (c ∷ s) h = elim (Bool-cases (is_space c && is_empty (trim_right s))) [
  | inl e ↦ rw e refl
  | inr e ↦ rw e (ground (arith, trim_right_free s))
]

pub trim_space_free : (s : Text) → newline_free s ≡ true → newline_free (trim_space s) ≡ true
unfolding trim_space
trim_space_free s h = trim_right_free (trim_left s) (trim_left_free s h)
