-- ===== src/Manager/Entries.antt =====
-- Entries of the `running` map, apart from the rest of the manager.
use one_auth_watch.Prelude.{
  ℕ, suc, ◌<◌, ◌≡◌, refl, Bool, true, false, not, some, List, [], ◌∷◌, arith, ◌==◌, keep, All,
}
use one_auth_watch.Prelude.Text.{Text, text_eq, text_eq_iff}
use one_auth_watch.Prelude.Maps.{Assoc, lookup, insert, text_key}
use one_auth_watch.Manager.Steps.{is_run, has_run, cancel_all}

-- An entry with the number `i` stands under the key `k`.
abbrev pub IsOf : Text → ℕ → Text × ℕ → Type 0
IsOf k i e = (e.1 == i) ≡ true → text_eq e.0 k ≡ true

pub lookup_old :
    (k : Text) (i n : ℕ) (m : Assoc Text ℕ) → All (λ e. e.1 < n) m → lookup k m ≡ some i → i < n
unfolding lookup
lookup_old k i n [] h e = ground arith
lookup_old k i n ((j, x) ∷ m) h e = ground (arith, lookup_old k i n m h.1)

pub keep_old :
    (n : ℕ) (p : Text × ℕ → Bool) (m : Assoc Text ℕ)
    → All (λ e. e.1 < n) m
    → All (λ e. e.1 < n) (keep p m)
keep_old n p [] h = tt
keep_old n p (e ∷ m) h = ground (arith, keep_old n p m h.1)

pub suc_old : (n : ℕ) (m : Assoc Text ℕ) → All (λ e. e.1 < n) m → All (λ e. e.1 < suc n) m
suc_old n [] h = tt
suc_old n (e ∷ m) h = (omega arith, suc_old n m h.1)

pub insert_old :
    (n : ℕ) (k : Text) (m : Assoc Text ℕ)
    → All (λ e. e.1 < n) m
    → All (λ e. e.1 < suc n) (insert k n m)
unfolding insert
insert_old n k [] h = (omega arith, tt)
insert_old n k ((j, x) ∷ m) h = ground (arith, insert_old n k m h.1, suc_old n m h.1)

pub keep-IsOf :
    (k : Text) (i : ℕ) (p : Text × ℕ → Bool) (m : Assoc Text ℕ)
    → All (IsOf k i) m
    → All (IsOf k i) (keep p m)
keep-IsOf k i p [] h = tt
keep-IsOf k i p (e ∷ m) h = ground (arith, keep-IsOf k i p m h.1)

pub old-IsOf : (k : Text) (n : ℕ) (m : Assoc Text ℕ) → All (λ e. e.1 < n) m → All (IsOf k n) m
old-IsOf k n [] h = tt
old-IsOf k n (e ∷ m) h = (λ same. absurd (ground (arith, h.0)), old-IsOf k n m h.1)

pub insert-IsOf :
    (k j : Text) (i n : ℕ) (m : Assoc Text ℕ)
    → IsOf k i (j, n)
    → All (IsOf k i) m
    → All (IsOf k i) (insert j n m)
unfolding insert
insert-IsOf k j i n [] e h = (e, tt)
insert-IsOf k j i n ((l, x) ∷ m) e h =
    ground (arith, insert-IsOf k j i n m e h.1, text_eq_iff l j, text_eq_iff j k, text_eq_iff l k)

pub has_run-keep :
    (k j : Text) (n i : ℕ) (rs : List (Text × ℕ))
    → text_eq k j ≡ false
    → has_run j i (keep (λ r. not (is_run k n r)) rs) ≡ has_run j i rs
unfolding has_run
has_run-keep k j n i [] ne = refl
has_run-keep k j n i ((l, x) ∷ rs) ne =
    ground (arith, has_run-keep k j n i rs ne, text_eq_iff l k, text_eq_iff l j, text_eq_iff k j)

pub cancel_all_old :
    (n i : ℕ) (m : Assoc Text ℕ) (cancelled : ℕ → Bool)
    → All (λ e. e.1 < n) m
    → (cancelled i ≡ true → i < n)
    → cancel_all m cancelled i ≡ true
    → i < n
unfolding cancel_all
cancel_all_old n i [] cancelled h c e = c e
cancel_all_old n i ((k, x) ∷ m) cancelled h c e =
    ground (arith, cancel_all_old n i m cancelled h.1 c)
