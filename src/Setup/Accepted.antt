-- ===== src/Setup/Accepted.antt =====
-- What a configuration that the dialogue returns is worth.
use one_auth_watch.Prelude.{
  ℕ, zero, suc, inl, inr, ◌≡◌, refl, Bool, true, false, not, ◌&&◌, Option, none, some, [], arith,
  ltb, leb, length, Bool-cases, if◌then◌else◌, ◌==◌,
}
use mathlib.Core.Path.{subst}
use one_auth_watch.Prelude.Text.{Text, codes, text_eq, has_prefix}
use one_auth_watch.Config.{is_set}
use one_auth_watch.Setup.Prompts.{
  Input, Run, returns, crash, asking, Prompt, and_then, ◌>>=◌, read_line, Check, take, again, panic,
  answer, ask, with_default, atoi,
}
use one_auth_watch.Setup.{
  Detected, SetupConfig, check_synthetic, check_port, check_interval, within, collect_synthetic_key,
  if_yes, offer, collect_multiple_providers, collect_all, collect_choice, any_provider,
  ask_settings, collect_settings, fresh_setup,
}

-- What a part of the dialogue returns has a property.
abbrev HoldsOf : {A : Type 0} → (A → Type 0) → Run A → Type 0
HoldsOf P (returns a rest) = P a
HoldsOf P crash = Unit
HoldsOf P asking = Unit

abbrev Gives : {A : Type 0} → (A → Type 0) → Prompt A → Type 0
Gives P p = (n : ℕ) (input : Input) → HoldsOf P (p n input)

abbrev Passes : {A : Type 0} → (A → Type 0) → Check A → Type 0
Passes P (take a) = P a
Passes P again = Unit
Passes P panic = Unit

module _ {A : Type 0} (P : A → Type 0) where
  answer_gives :
      (c : Check A) (rest : Input) (more : Run A)
      → Passes P c
      → HoldsOf P more
      → HoldsOf P (answer c rest more)
  answer_gives (take a) rest more h m = h
  answer_gives again rest more h m = m
  answer_gives panic rest more h m = tt

  ask-Gives :
      (check : Text → Check A) → ((line : Text) → Passes P (check line)) → Gives P (ask check)
  unfolding ask
  ask-Gives check h zero input = tt
  ask-Gives check h (suc n) input =
      answer_gives (check (read_line input).0) (read_line input).1 _ (h (read_line input).0)
        (ask-Gives check h n (read_line input).1)

  if-Gives : (b : Bool) (p q : Prompt A) → Gives P p → Gives P q → Gives P (if b then p else q)
  if-Gives true p q hp hq = hp
  if-Gives false p q hp hq = hq

module _ {A B : Type 0} (P : A → Type 0) (Q : B → Type 0) where
  then-Gives :
      (f : A → Prompt B) (n : ℕ) (r : Run A)
      → HoldsOf P r
      → ((a : A) → P a → Gives Q (f a))
      → HoldsOf Q (and_then f n r)
  unfolding and_then
  then-Gives f n (returns a rest) h next = next a h n rest
  then-Gives f n crash h next = tt
  then-Gives f n asking h next = tt

  bind-Gives :
      (p : Prompt A) (f : A → Prompt B)
      → Gives P p
      → ((a : A) → P a → Gives Q (f a))
      → Gives Q (p >>= f)
  bind-Gives p f h next n input = then-Gives f n (p n input) (h n input) next

abbrev Anything : {A : Type 0} → A → Type 0
Anything a = Unit

anything : {A : Type 0} (p : Prompt A) → Gives Anything p
anything p n input = any_run (p n input)
  where
    any_run : {A : Type 0} (r : Run A) → HoldsOf Anything r
    any_run (returns a rest) = tt
    any_run crash = tt
    any_run asking = tt

abbrev HasPrefix : Text → Type 0
HasPrefix key = has_prefix key (codes "syn_") ≡ true

-- The key is not set, or has the prefix.
abbrev IsKey : Text → Type 0
IsKey key = (is_set key && not (has_prefix key (codes "syn_"))) ≡ false

abbrev Keyed : SetupConfig → Type 0
Keyed c = IsKey c.synthetic_key

check-HasPrefix : (line : Text) → Passes HasPrefix (check_synthetic line)
check-HasPrefix line = elim (Bool-cases (has_prefix line (codes "syn_"))) [
  | inr f ↦ rw f tt
  | inl e ↦ elim (Bool-cases (ltb (length line) 6)) [
    | inl short ↦ rw (e, short) tt
    | inr long ↦ rw (e, long) e
  ]
]

prefixed : (key : Text) → HasPrefix key → IsKey key
prefixed key h = ground (arith, h)

synthetic-Gives : Gives HasPrefix collect_synthetic_key
unfolding collect_synthetic_key
synthetic-Gives = ask-Gives HasPrefix check_synthetic check-HasPrefix

nil-IsKey : IsKey []
unfolding text_eq
nil-IsKey = refl

if_yes-Gives : (b : Bool) → Gives IsKey (if_yes [] collect_synthetic_key b)
if_yes-Gives true n input = weaken (collect_synthetic_key n input) (synthetic-Gives n input)
  where
    weaken : (r : Run Text) → HoldsOf HasPrefix r → HoldsOf IsKey r
    weaken (returns a rest) h = prefixed a h
    weaken crash h = tt
    weaken asking h = tt
if_yes-Gives false n input = nil-IsKey

offer-Gives : Gives IsKey (offer [] collect_synthetic_key)
unfolding offer
offer-Gives = bind-Gives Anything IsKey _ _ (anything _) (λ b h. if_yes-Gives b)

multiple-Gives : (d : Detected) → Gives Keyed (collect_multiple_providers d)
unfolding collect_multiple_providers
multiple-Gives d = bind-Gives IsKey Keyed _ _ offer-Gives λ synthetic key.
    bind-Gives Anything Keyed _ _ (anything _) λ zai h1.
      bind-Gives Anything Keyed _ _ (anything _) λ anthropic h2.
        bind-Gives Anything Keyed _ _ (anything _) λ codex h3.
          bind-Gives Anything Keyed _ _ (anything _)
            λ antigravity h4. bind-Gives Anything Keyed _ _ (anything _) λ gemini h5 n input. key

all-Gives : (d : Detected) → Gives Keyed (collect_all d)
unfolding collect_all
all-Gives d = bind-Gives HasPrefix Keyed _ _ synthetic-Gives λ synthetic key.
    bind-Gives Anything Keyed _ _ (anything _) λ zai h1.
      bind-Gives Anything Keyed _ _ (anything _) λ anthropic h2.
        bind-Gives Anything Keyed _ _ (anything _) λ codex h3 n input. prefixed synthetic key

choice-Gives : (d : Detected) (choice : ℕ) → Gives Keyed (collect_choice d choice)
unfolding collect_choice
choice-Gives d choice =
    if-Gives Keyed (choice == 1) _ _
      (bind-Gives HasPrefix Keyed _ _ synthetic-Gives λ k key n input. prefixed k key)
      (if-Gives Keyed (choice == 2) _ _
        (bind-Gives Anything Keyed _ _ (anything _) λ z h n input. nil-IsKey)
        (if-Gives Keyed (choice == 3) _ _
          (bind-Gives Anything Keyed _ _ (anything _) λ t h n input. nil-IsKey)
          (if-Gives Keyed (choice == 4) _ _
            (bind-Gives Anything Keyed _ _ (anything _) λ t h n input. nil-IsKey)
            (if-Gives Keyed (choice == 5) _ _ (λ n input. nil-IsKey)
              (if-Gives Keyed (choice == 6) _ _ (λ n input. nil-IsKey)
                (if-Gives Keyed (choice == 7) _ _ (multiple-Gives d)
                  (if-Gives Keyed (choice == 8) _ _ (all-Gives d) (λ n input. nil-IsKey))))))))

-- A number that a check takes is within its bounds.
abbrev Within : ℕ → ℕ → ℕ → Type 0
Within low high n = (leb low n ≡ true) × (leb n high ≡ true)

within-Passes : (low high : ℕ) (o : Option ℕ) → Passes (Within low high) (within low high o)
within-Passes low high none = tt
within-Passes low high (some n) = elim (Bool-cases (leb low n && leb n high)) [
  | inl e ↦ rw e (ground arith, ground arith)
  | inr f ↦ rw f tt
]

-- A configuration with a provider, whose Synthetic key, if any, has its prefix, and whose numbers are
-- within their bounds.
abbrev pub IsGood : Option SetupConfig → Type 0
IsGood none = Unit
IsGood (some c) =
    (any_provider c ≡ true)
    × ((is_set c.synthetic_key && not (has_prefix c.synthetic_key (codes "syn_"))) ≡ false)
    × ((leb 1 c.port ≡ true) × (leb c.port 65535 ≡ true))
    × ((leb 10 c.poll_interval ≡ true) × (leb c.poll_interval 3600 ≡ true))

settings-Gives : (c : SetupConfig) → Keyed c → Gives IsGood (collect_settings c)
unfolding collect_settings ask_settings
settings-Gives c key = elim (Bool-cases (any_provider c)) [
  | inr f ↦ rw f λ n input. tt
  | inl e ↦ rw e (
      bind-Gives (Within 1 65535) IsGood _ _
        (ask-Gives (Within 1 65535) check_port
          λ line. within-Passes 1 65535 (atoi (with_default (codes "9211") line)))
        λ port hp.
          bind-Gives (Within 10 3600) IsGood _ _
            (ask-Gives (Within 10 3600) check_interval
              λ line. within-Passes 10 3600 (atoi (with_default (codes "120") line)))
            λ interval hi n input. (e, key, hp, hi))
]

setup-Gives : (d : Detected) → Gives IsGood (fresh_setup d)
unfolding fresh_setup
setup-Gives d =
    bind-Gives Anything IsGood _ _ (anything _)
      λ choice h. bind-Gives Keyed IsGood _ _ (choice-Gives d choice) settings-Gives

-- A configuration that the dialogue returns has a provider, a Synthetic key only with the prefix
-- "syn_", a port from 1 to 65535, and an interval from 10 to 3600 seconds.
pub setup-IsGood :
    (d : Detected) (n : ℕ) (input rest : Input) (c : Option SetupConfig)
    → fresh_setup d n input ≡ returns c rest
    → IsGood c
setup-IsGood d n input rest c e = subst (HoldsOf IsGood) e (setup-Gives d n input)
