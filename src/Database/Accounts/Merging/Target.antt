-- ===== src/Database/Accounts/Merging/Target.antt =====
-- Which of the duplicates the others are merged into.
use one_auth_watch.Prelude.{
  ◌≤◌, ◌≡◌, refl, Bool, true, false, List, [], ◌∷◌, arith, All, if◌then◌else◌,
}
use one_auth_watch.Database.Accounts.{ProviderAccount, is_deleted}
use one_auth_watch.Database.Accounts.Merging.{prefers, choose_target}

-- As good as each of the accounts: if one is active, then active, and not of a greater id.
abbrev pub IsBest : ProviderAccount → List ProviderAccount → Type 0
IsBest r = All λ b. is_deleted b ≡ false → (is_deleted r ≡ false) × (r.id ≤ b.id)

better_of :
    (r a b : ProviderAccount) (accounts : List ProviderAccount) (p : Bool)
    → prefers a b ≡ p
    → IsBest r ((if p then b else a) ∷ accounts)
    → IsBest r (a ∷ b ∷ accounts)
better_of r a b accounts true e (first, rest) =
    (λ active. ground (arith, first (ground arith)), (first, rest))
better_of r a b accounts false e (first, rest) =
    (first, (λ active. ground (arith, first (ground arith)), rest))

-- If any of the accounts is active, then so is the target, and no active one has a lower id.
choose_target-IsBest :
    (a : ProviderAccount) (accounts : List ProviderAccount)
    → IsBest (choose_target a accounts) (a ∷ accounts)
unfolding choose_target
choose_target-IsBest a [] = (λ active. (active, omega arith), tt)
choose_target-IsBest a (b ∷ accounts) =
    better_of (choose_target (if prefers a b then b else a) accounts) a b accounts (prefers a b)
      refl (choose_target-IsBest (if prefers a b then b else a) accounts)
