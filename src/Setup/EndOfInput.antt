-- ===== src/Setup/EndOfInput.antt =====
-- Which loops of the dialogue end, and a key that ends the program.
use one_auth_watch.Prelude.{
  ℕ, zero, suc, ◌<◌, ◌≡◌, refl, Bool, true, false, ◌&&◌, [], ◌∷◌, arith, length, some, ltb,
}
use one_auth_watch.Prelude.Text.{Text, codes, trim_space, has_prefix}
use one_auth_watch.Setup.Prompts.{
  Input, Run, returns, crash, asking, and_then, Check, take, again, panic, answer, ask, atoi,
  prompt_choice,
}
use one_auth_watch.Setup.{Detected, collect_choice, collect_synthetic_key, fresh_setup}

abbrev pub is_asking : {A : Type 0} → Run A → Bool
is_asking asking = true
is_asking crash = false
is_asking (returns a rest) = false

abbrev rejects : {A : Type 0} → Check A → Bool
rejects again = true
rejects (take a) = false
rejects panic = false

-- Every line is rejected, and so is the empty text.
unfoldable pub rejects_all : {A : Type 0} → (Text → Check A) → Input → Bool
rejects_all check [] = rejects (check [])
rejects_all check (line ∷ input) = rejects (check (trim_space line)) && rejects_all check input

module _ {A : Type 0} where
  asks_on :
      (c : Check A) (rest : Input) (more : Run A)
      → is_asking (answer c rest more) ≡ (rejects c && is_asking more)
  asks_on (take a) rest more = refl
  asks_on again rest more = refl
  asks_on panic rest more = refl

  at_end :
      (n : ℕ) (check : Text → Check A)
      → rejects (check []) ≡ true
      → is_asking (ask check n []) ≡ true
  unfolding ask
  at_end zero check h = refl
  at_end (suc n) check h = ground (arith, asks_on (check []) [] (ask check n []), at_end n check h)

  -- A loop whose rounds are more than the lines of input goes on exactly if every line is rejected, and
  -- so is the empty text that it reads at the end of the input; in any other case it has ended.
  pub ask-rejects_all :
      (check : Text → Check A) (n : ℕ) (input : Input)
      → length input < n
      → is_asking (ask check n input) ≡ rejects_all check input
  unfolding ask rejects_all
  ask-rejects_all check zero input ln = ground arith
  ask-rejects_all check (suc n) [] ln =
      ground (arith, asks_on (check []) [] (ask check n []), at_end n check)
  ask-rejects_all check (suc n) (line ∷ input) ln = ground (
    arith,
    asks_on (check (trim_space line)) input (ask check n input),
    ask-rejects_all check n input (omega arith),
  )

asking_choice : (n : ℕ) → prompt_choice 8 n [] ≡ asking
unfolding prompt_choice ask atoi
asking_choice zero = refl
asking_choice (suc n) = asking_choice n

-- With its input at the end, the dialogue never ends, however many rounds it takes.
closed_input_never_ends : (d : Detected) (n : ℕ) → fresh_setup d n [] ≡ asking
unfolding fresh_setup and_then
closed_input_never_ends d n = rw (asking_choice n) refl

-- A Synthetic key that has the prefix of a key but fewer than six bytes crashes the program, where the
-- first line chooses Synthetic, whatever the other lines.
short_key_crashes :
    (d : Detected) (n : ℕ) (choice key : Text) (rest : Input)
    → atoi (trim_space choice) ≡ some 1
    → has_prefix (trim_space key) (codes "syn_") ≡ true
    → ltb (length (trim_space key)) 6 ≡ true
    → fresh_setup d (suc n) (choice ∷ key ∷ rest) ≡ crash
unfolding fresh_setup and_then prompt_choice collect_choice collect_synthetic_key ask
short_key_crashes d n choice key rest one named short = rw (one, named, short) refl
