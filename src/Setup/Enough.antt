-- ===== src/Setup/Enough.antt =====
-- How many rounds the loops of the dialogue can take.
use one_auth_watch.Prelude.{
  ℕ, zero, suc, ◌≤◌, ◌<◌, ◌≡◌, refl, ap, sym, ◌∙◌, Bool, true, false, [], ◌∷◌, arith, length,
  if◌then◌else◌, ◌==◌,
}
use one_auth_watch.Prelude.Text.{Text, trim_space}
use one_auth_watch.Config.{is_set}
use one_auth_watch.Setup.Prompts.{
  Input, Run, returns, crash, asking, Prompt, and_then, ◌>>=◌, pure, read_line, Check, take, again,
  panic, answer, ask, prompt_yes_no, prompt_secret, prompt_choice,
}
use one_auth_watch.Setup.{
  Detected, SetupConfig, zai_url, collect_synthetic_key, collect_zai_config, detected_or_secret,
  collect_token, if_yes, offer, collect_multiple_providers, collect_all, collect_choice,
  any_provider, ask_settings, collect_settings, fresh_setup,
}

-- The input that is left is not longer.
abbrev Shorter : {A : Type 0} → Input → Run A → Type 0
Shorter input (returns a rest) = length rest ≤ length input
Shorter input crash = Unit
Shorter input asking = Unit

-- A part of the dialogue for which any bound above the number of lines is as good as another.
pub record IsSteady {A : Type 0} (p : Prompt A) : Type 0 where
  pub enough :
      (k n : ℕ) (input : Input) → length input < k → length input < n → p k input ≡ p n input
  pub shorter : (n : ℕ) (input : Input) → Shorter input (p n input)

read-le : (input : Input) → length (read_line input).1 ≤ length input
read-le [] = omega arith
read-le (line ∷ input) = omega arith

module _ {A : Type 0} where
  pub pure-IsSteady : (a : A) → IsSteady (pure a)
  pure-IsSteady a = record { enough = λ k n input lk ln. refl; shorter = λ n input. omega arith }

  Shorter-weaken : (a b : Input) (r : Run A) → length a ≤ length b → Shorter a r → Shorter b r
  Shorter-weaken a b (returns x rest) le h = omega arith
  Shorter-weaken a b crash le h = tt
  Shorter-weaken a b asking le h = tt

  answer-Shorter :
      (c : Check A) (rest input : Input) (more : Run A)
      → length rest ≤ length input
      → Shorter rest more
      → Shorter input (answer c rest more)
  answer-Shorter (take a) rest input more le h = le
  answer-Shorter again rest input more le h = Shorter-weaken rest input more le h
  answer-Shorter panic rest input more le h = tt

  ask-Shorter : (check : Text → Check A) (n : ℕ) (input : Input) → Shorter input (ask check n input)
  unfolding ask
  ask-Shorter check zero input = tt
  ask-Shorter check (suc n) input =
      answer-Shorter (check (read_line input).0) (read_line input).1 input
        (ask check n (read_line input).1) (read-le input) (ask-Shorter check n (read_line input).1)

  -- At the end of the input, every round is the same.
  last_round :
      (c : Check A) (k n : ℕ) (check : Text → Check A)
      → check [] ≡ c
      → ask check (suc k) [] ≡ ask check (suc n) []
  unfolding ask
  last_round (take a) k n check e = rw e refl
  last_round panic k n check e = rw e refl
  last_round again k n check e = rw e (never k check e ∙ sym (never n check e))
    where
      never : (k : ℕ) (check : Text → Check A) → check [] ≡ again → ask check k [] ≡ asking
      never zero check e = refl
      never (suc k) check e = rw e (never k check e)

  ask-enough :
      (check : Text → Check A) (k n : ℕ) (input : Input)
      → length input < k
      → length input < n
      → ask check k input ≡ ask check n input
  unfolding ask
  ask-enough check zero n input lk ln = ground arith
  ask-enough check (suc k) zero input lk ln = ground arith
  ask-enough check (suc k) (suc n) [] lk ln = last_round (check []) k n check refl
  ask-enough check (suc k) (suc n) (line ∷ input) lk ln =
      ap (answer (check (trim_space line)) input)
        (ask-enough check k n input (omega arith) (omega arith))

  pub ask-IsSteady : (check : Text → Check A) → IsSteady (ask check)
  ask-IsSteady check = record { enough = ask-enough check; shorter = ask-Shorter check }

  pub if-IsSteady :
      (b : Bool) (p q : Prompt A) → IsSteady p → IsSteady q → IsSteady (if b then p else q)
  if-IsSteady true p q hp hq = hp
  if-IsSteady false p q hp hq = hq

module _ {A B : Type 0} (p : Prompt A) (f : A → Prompt B) (hp : IsSteady p)
    (hf : (a : A) → IsSteady (f a)) where
  then_enough :
      (k n : ℕ) (input : Input) (r : Run A)
      → Shorter input r
      → length input < k
      → length input < n
      → and_then f k r ≡ and_then f n r
  unfolding and_then
  then_enough k n input (returns a rest) le lk ln =
      (hf a).enough k n rest (omega arith) (omega arith)
  then_enough k n input crash le lk ln = refl
  then_enough k n input asking le lk ln = refl

  then-Shorter :
      (n : ℕ) (input : Input) (r : Run A) → Shorter input r → Shorter input (and_then f n r)
  unfolding and_then
  then-Shorter n input (returns a rest) le =
      Shorter-weaken rest input (f a n rest) le ((hf a).shorter n rest)
  then-Shorter n input crash le = tt
  then-Shorter n input asking le = tt

  pub bind-IsSteady : IsSteady (p >>= f)
  bind-IsSteady = record {
    enough = λ k n input lk ln.
        ap (and_then f k) (hp.enough k n input lk ln)
        ∙ then_enough k n input (p n input) (hp.shorter n input) lk ln;
    shorter = λ n input. then-Shorter n input (p n input) (hp.shorter n input);
  }

-- The parts of the dialogue.
pub yes_no-IsSteady : (default : Bool) → IsSteady (prompt_yes_no default)
unfolding prompt_yes_no
yes_no-IsSteady default = record {
  enough = λ k n input lk ln. refl;
  shorter = λ n input. read-le input;
}

zai_url-IsSteady : (b : Bool) → IsSteady (zai_url b)
zai_url-IsSteady true = pure-IsSteady _
zai_url-IsSteady false = ask-IsSteady _

pub synthetic-IsSteady : IsSteady collect_synthetic_key
unfolding collect_synthetic_key
synthetic-IsSteady = ask-IsSteady _

secret-IsSteady : IsSteady prompt_secret
unfolding prompt_secret
secret-IsSteady = ask-IsSteady _

pub zai-IsSteady : IsSteady collect_zai_config
unfolding collect_zai_config
zai-IsSteady = bind-IsSteady _ _ secret-IsSteady λ key.
    bind-IsSteady _ _ (yes_no-IsSteady true)
      λ b. bind-IsSteady _ _ (zai_url-IsSteady b) λ url. pure-IsSteady _

detected-IsSteady : (token : Text) (b : Bool) → IsSteady (detected_or_secret token b)
detected-IsSteady token true = pure-IsSteady _
detected-IsSteady token false = secret-IsSteady

pub token-IsSteady : (token : Text) → IsSteady (collect_token token)
unfolding collect_token
token-IsSteady token =
    if-IsSteady (is_set token) _ _
      (bind-IsSteady _ _ (yes_no-IsSteady true) (detected-IsSteady token)) secret-IsSteady

pub if_yes-IsSteady :
    {A : Type 0} (a : A) (p : Prompt A) (b : Bool) → IsSteady p → IsSteady (if_yes a p b)
if_yes-IsSteady a p true h = h
if_yes-IsSteady a p false h = pure-IsSteady a

pub offer-IsSteady : {A : Type 0} (a : A) (p : Prompt A) → IsSteady p → IsSteady (offer a p)
unfolding offer
offer-IsSteady a p h = bind-IsSteady _ _ (yes_no-IsSteady false) λ b. if_yes-IsSteady a p b h

multiple-IsSteady : (d : Detected) → IsSteady (collect_multiple_providers d)
unfolding collect_multiple_providers
multiple-IsSteady d = bind-IsSteady _ _ (offer-IsSteady [] _ synthetic-IsSteady) λ synthetic.
    bind-IsSteady _ _ (offer-IsSteady ([], []) _ zai-IsSteady) λ zai.
      bind-IsSteady _ _ (offer-IsSteady [] _ (token-IsSteady d.anthropic)) λ anthropic.
        bind-IsSteady _ _ (offer-IsSteady [] _ (token-IsSteady d.codex)) λ codex.
          bind-IsSteady _ _ (yes_no-IsSteady false)
            λ antigravity. bind-IsSteady _ _ (yes_no-IsSteady false) λ gemini. pure-IsSteady _

all-IsSteady : (d : Detected) → IsSteady (collect_all d)
unfolding collect_all
all-IsSteady d = bind-IsSteady _ _ synthetic-IsSteady λ synthetic.
    bind-IsSteady _ _ zai-IsSteady λ zai.
      bind-IsSteady _ _ (token-IsSteady d.anthropic)
        λ anthropic. bind-IsSteady _ _ (token-IsSteady d.codex) λ codex. pure-IsSteady _

choice-IsSteady : (d : Detected) (choice : ℕ) → IsSteady (collect_choice d choice)
unfolding collect_choice
choice-IsSteady d choice =
    if-IsSteady (choice == 1) _ _ (bind-IsSteady _ _ synthetic-IsSteady λ k. pure-IsSteady _) (
      if-IsSteady (choice == 2) _ _ (bind-IsSteady _ _ zai-IsSteady λ z. pure-IsSteady _) (
        if-IsSteady (choice == 3) _ _
          (bind-IsSteady _ _ (token-IsSteady d.anthropic) λ t. pure-IsSteady _)
          (if-IsSteady (choice == 4) _ _
            (bind-IsSteady _ _ (token-IsSteady d.codex) λ t. pure-IsSteady _)
            (if-IsSteady (choice == 5) _ _ (pure-IsSteady _) (
              if-IsSteady (choice == 6) _ _ (pure-IsSteady _) (
                if-IsSteady (choice == 7) _ _ (multiple-IsSteady d)
                  (if-IsSteady (choice == 8) _ _ (all-IsSteady d) (pure-IsSteady _))))))))

settings-IsSteady : (c : SetupConfig) → IsSteady (collect_settings c)
unfolding collect_settings ask_settings
settings-IsSteady c =
    if-IsSteady (any_provider c) _ _
      (bind-IsSteady _ _ (ask-IsSteady _)
        λ port. bind-IsSteady _ _ (ask-IsSteady _) λ interval. pure-IsSteady _)
      (pure-IsSteady _)

pub setup-IsSteady : (d : Detected) → IsSteady (fresh_setup d)
unfolding fresh_setup prompt_choice
setup-IsSteady d =
    bind-IsSteady _ _ (ask-IsSteady _)
      λ choice. bind-IsSteady _ _ (choice-IsSteady d choice) settings-IsSteady

-- One round more than there are lines of input is enough for every loop of the dialogue: it ends then
-- (with a configuration, an error or a panic) or never, and with any greater bound the same way.
rounds_enough :
    (d : Detected) (n : ℕ) (input : Input)
    → length input < n
    → fresh_setup d n input ≡ fresh_setup d (suc (length input)) input
rounds_enough d n input ln = (setup-IsSteady d).enough n (suc (length input)) input ln (omega arith)
