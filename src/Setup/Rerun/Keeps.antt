-- ===== src/Setup/Rerun/Keeps.antt =====
-- What a second setup does to the file of a first one, and how many rounds a setup can take.
use one_auth_watch.Prelude.{
  ℕ, inl, inr, ◌≡◌, refl, ap, ◌∙◌, Bool, true, false, ◌||◌, Option, none, some, List, [], ◌∷◌, ◌++◌,
  arith, Bool-cases, if◌then◌else◌,
}
use one_auth_watch.Prelude.Text.{newline_free, Text, text_eq, has_prefix}
use one_auth_watch.Config.{is_set}
use one_auth_watch.Setup.Prompts.{Input, Run, returns, crash, asking, and_then, pure}
use one_auth_watch.Setup.{SetupConfig, Detected, any_provider, fresh_setup}
use one_auth_watch.Setup.Accepted.{setup-IsGood}
use one_auth_watch.Setup.EnvFile.{ExistingEnv, unlines, env_text, load_existing_env}
use one_auth_watch.Setup.EnvFile.RoundTrip.{ArePlain, load-env_text}
use one_auth_watch.Setup.EnvFile.Plain.{IsPlainDetected, setup-ArePlain}
use one_auth_watch.Setup.EnvFile.Yields.{AreLines}
use one_auth_watch.Setup.Rerun.{
  readable, unreadable, setup_new, all_providers_configured, any_provider_configured, SetupEnd,
  append_missing, setup_again, run_setup,
}

-- The file begins with a text.
abbrev pub BeginsWith : Text → Option Text → Type 0
BeginsWith text none = false ≡ true
BeginsWith text (some file) = has_prefix file text ≡ true

-- A setup that ends leaves the text in its place.
abbrev pub Keeps : Text → Run SetupEnd → Type 0
Keeps text (returns (file, ok) rest) = BeginsWith text file
Keeps text crash = Unit
Keeps text asking = Unit

prefix-append : (s t : Text) → has_prefix (s ++ t) s ≡ true
unfolding has_prefix
prefix-append [] t = refl
prefix-append (c ∷ s) t = ground (arith, prefix-append s t)

prefix_refl : (s : Text) → has_prefix s s ≡ true
unfolding has_prefix
prefix_refl [] = refl
prefix_refl (c ∷ s) = ground (arith, prefix_refl s)

appended-Keeps :
    (text : Text) (n : ℕ) (r : Run (List Text))
    → Keeps text (and_then (λ lines. pure (some (text ++ unlines lines), true)) n r)
unfolding and_then
appended-Keeps text n (returns lines rest) = prefix-append text (unlines lines)
appended-Keeps text n crash = tt
appended-Keeps text n asking = tt

append_missing-Keeps :
    (d : Detected) (found : Bool) (env : ExistingEnv) (text : Text) (n : ℕ) (input : Input)
    → Keeps text (append_missing d text env found n input)
unfolding append_missing
append_missing-Keeps d found env text n input = appended-Keeps text n _

setup_again-Keeps :
    (d : Detected) (stamp : Text) (found opens : Bool) (text : Text) (n : ℕ) (input : Input)
    → any_provider_configured (load_existing_env found (some text)) ≡ true
    → Keeps text (setup_again d stamp found opens (readable text) n input)
unfolding setup_again
setup_again-Keeps d stamp found opens text n input any =
    elim (Bool-cases (all_providers_configured (load_existing_env found (some text)))) [
      | inl e ↦ rw e (prefix_refl text)
      | inr e ↦ rw (e, any) (either opens)
    ]
  where
    either :
        (opens : Bool)
        → Keeps text (
            (if opens
                then append_missing d text (load_existing_env found (some text)) found
                else pure (some text, false))
              n input)
    either true = append_missing-Keeps d found (load_existing_env found (some text)) text n input
    either false = prefix_refl text

or_more : (a g f : Bool) → (a || g) ≡ true → (a || (g || f)) ≡ true
or_more a g f h = ground arith

written_configured :
    (stamp : Text) (c : SetupConfig) (found : Bool)
    → newline_free stamp ≡ true
    → ArePlain c
    → any_provider c ≡ true
    → any_provider_configured (load_existing_env found (some (env_text stamp c))) ≡ true
written_configured stamp c found h plain any =
    ap any_provider_configured (load-env_text stamp c found h plain)
    ∙ or_more
        (is_set c.synthetic_key
          || is_set c.zai_key
          || is_set c.anthropic_token
          || is_set c.codex_token
          || c.antigravity_enabled)
        c.gemini_enabled found any

-- Whatever lines the dialogue reads and whatever tokens it detects, trimmed and without line ends:
-- if it returns a configuration, every later setup that can read the file that was written for it
-- keeps it, whatever the setup is answered and detects. If it ends, the file begins with the old text.
pub run_setup-Keeps :
    (d later : Detected) (stamp now : Text) (found opens : Bool) (n m : ℕ) (input rest more : Input)
    (c : SetupConfig)
    → fresh_setup d n input ≡ returns (some c) rest
    → newline_free stamp ≡ true
    → IsPlainDetected d
    → AreLines input
    → Keeps
        (env_text stamp c)
        (run_setup later now found opens (readable (env_text stamp c)) m more)
unfolding run_setup
run_setup-Keeps d later stamp now found opens n m input rest more c e h plain lines =
    let good = setup-IsGood d n input rest (some c) e in
    setup_again-Keeps later now found opens (env_text stamp c) m more
      (written_configured stamp c found h (setup-ArePlain d n input rest c plain lines e) good.0)

-- A file that cannot be read is replaced as if it held nothing.
unreadable_replaced :
    (d : Detected) (stamp : Text) (found opens : Bool)
    → run_setup d stamp found opens unreadable ≡ setup_new d stamp
unfolding run_setup setup_again load_existing_env text_eq
unreadable_replaced d stamp found opens = refl
