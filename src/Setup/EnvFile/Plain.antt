-- ===== src/Setup/EnvFile/Plain.antt =====
-- The texts of a configuration that the dialogue returns can stand in the .env file.
use one_auth_watch.Prelude.{ℕ, ◌≡◌, Bool, true, false, Option, none, some, [], ◌==◌}
use mathlib.Core.Path.{subst}
use one_auth_watch.Prelude.Text.{Text}
use one_auth_watch.Config.{is_set}
use one_auth_watch.Setup.Prompts.{
  Input, returns, Prompt, Check, take, again, panic, ask, prompt_yes_no, prompt_secret,
  prompt_choice,
}
use one_auth_watch.Setup.{
  SetupConfig, Detected, zai_url, collect_zai_config, detected_or_secret, collect_token, if_yes,
  offer, collect_multiple_providers, collect_all, collect_choice, any_provider, ask_settings,
  collect_settings, fresh_setup, check_port, check_interval,
}
use one_auth_watch.Setup.EnvFile.Lines.{IsPlain}
use one_auth_watch.Setup.EnvFile.RoundTrip.{ArePlain}
use one_auth_watch.Setup.EnvFile.Yields.{
  AreLines, Holds, Yields, Takes, Anything, yes_no-Yields, secret-Yields, empty-IsPlain,
  synthetic-Yields, zai_url-Yields, pure-Yields, if-Yields, bind-Yields, ask-Yields,
}

abbrev BothPlain : Text × Text → Type 0
BothPlain (key, url) = IsPlain key × IsPlain url

zai-Yields : Yields BothPlain collect_zai_config
unfolding collect_zai_config
zai-Yields = bind-Yields IsPlain BothPlain prompt_secret _ secret-Yields λ key k.
    bind-Yields Anything BothPlain (prompt_yes_no true) _ (yes_no-Yields true) λ b any.
      bind-Yields IsPlain BothPlain (zai_url b) _ (zai_url-Yields b)
        λ url u. pure-Yields BothPlain (key, url) (k, u)

detected-Yields :
    (token : Text) (b : Bool) → IsPlain token → Yields IsPlain (detected_or_secret token b)
detected-Yields token true h = pure-Yields IsPlain token h
detected-Yields token false h = secret-Yields

token-Yields : (token : Text) → IsPlain token → Yields IsPlain (collect_token token)
unfolding collect_token
token-Yields token h =
    if-Yields IsPlain (is_set token) _ _
      (bind-Yields Anything IsPlain (prompt_yes_no true) _ (yes_no-Yields true)
        λ b any. detected-Yields token b h)
      secret-Yields

if_yes-Yields :
    {A : Type 0} (Q : A → Type 0) (a : A) (p : Prompt A) (b : Bool)
    → Q a
    → Yields Q p
    → Yields Q (if_yes a p b)
if_yes-Yields Q a p true q h = h
if_yes-Yields Q a p false q h = pure-Yields Q a q

offer-Yields :
    {A : Type 0} (Q : A → Type 0) (a : A) (p : Prompt A) → Q a → Yields Q p → Yields Q (offer a p)
unfolding offer
offer-Yields Q a p q h =
    bind-Yields Anything Q (prompt_yes_no false) _ (yes_no-Yields false)
      λ b any. if_yes-Yields Q a p b q h

-- The tokens that are detected are plain too.
abbrev pub IsPlainDetected : Detected → Type 0
IsPlainDetected d = IsPlain d.anthropic × IsPlain d.codex

multiple-Yields :
    (d : Detected) → IsPlainDetected d → Yields ArePlain (collect_multiple_providers d)
unfolding collect_multiple_providers
multiple-Yields d (anthropic, codex) =
    bind-Yields IsPlain ArePlain _ _ (offer-Yields IsPlain [] _ empty-IsPlain synthetic-Yields)
      λ s hs.
        bind-Yields BothPlain ArePlain _ _
          (offer-Yields BothPlain ([], []) _ (empty-IsPlain, empty-IsPlain) zai-Yields)
          λ z hz.
            bind-Yields IsPlain ArePlain _ _
              (offer-Yields IsPlain [] _ empty-IsPlain (token-Yields d.anthropic anthropic))
              λ a ha.
                bind-Yields IsPlain ArePlain _ _
                  (offer-Yields IsPlain [] _ empty-IsPlain (token-Yields d.codex codex))
                  λ x hx. bind-Yields Anything ArePlain _ _ (yes_no-Yields false) λ w any.
                    bind-Yields Anything ArePlain _ _ (yes_no-Yields false)
                      λ g any'. λ n input lines. ((hs, hz.0, hz.1, ha, hx), lines)

all-Yields : (d : Detected) → IsPlainDetected d → Yields ArePlain (collect_all d)
unfolding collect_all
all-Yields d (anthropic, codex) = bind-Yields IsPlain ArePlain _ _ synthetic-Yields λ s hs.
    bind-Yields BothPlain ArePlain _ _ zai-Yields λ z hz.
      bind-Yields IsPlain ArePlain _ _ (token-Yields d.anthropic anthropic) λ a ha.
        bind-Yields IsPlain ArePlain _ _ (token-Yields d.codex codex)
          λ x hx. λ n input lines. ((hs, hz.0, hz.1, ha, hx), lines)

choice-Yields :
    (d : Detected) (choice : ℕ) → IsPlainDetected d → Yields ArePlain (collect_choice d choice)
unfolding collect_choice
choice-Yields d choice plain =
    let e = empty-IsPlain in
    if-Yields ArePlain (choice == 1) _ _
      (bind-Yields IsPlain ArePlain _ _ synthetic-Yields
        λ k h n input lines. ((h, e, e, e, e), lines))
      (if-Yields ArePlain (choice == 2) _ _
        (bind-Yields BothPlain ArePlain _ _ zai-Yields
          λ z h n input lines. ((e, h.0, h.1, e, e), lines))
        (if-Yields ArePlain (choice == 3) _ _
          (bind-Yields IsPlain ArePlain _ _ (token-Yields d.anthropic plain.0)
            λ t h n input lines. ((e, e, e, h, e), lines))
          (if-Yields ArePlain (choice == 4) _ _
            (bind-Yields IsPlain ArePlain _ _ (token-Yields d.codex plain.1)
              λ t h n input lines. ((e, e, e, e, h), lines))
            (if-Yields ArePlain (choice == 5) _ _ (λ n input lines. ((e, e, e, e, e), lines))
              (if-Yields ArePlain (choice == 6) _ _ (λ n input lines. ((e, e, e, e, e), lines))
                (if-Yields ArePlain (choice == 7) _ _ (multiple-Yields d plain) (
                  if-Yields ArePlain (choice == 8) _ _ (all-Yields d plain)
                    (λ n input lines. ((e, e, e, e, e), lines)))))))))

abbrev pub IsWritable : Option SetupConfig → Type 0
IsWritable none = Unit
IsWritable (some c) = ArePlain c

anything : {A : Type 0} (check : Text → Check A) → Yields Anything (ask check)
anything check = ask-Yields Anything check λ line h. taken (check line)
  where
    taken : {A : Type 0} (c : Check A) → Takes Anything c
    taken (take a) = tt
    taken again = tt
    taken panic = tt

settings-Yields : (c : SetupConfig) → ArePlain c → Yields IsWritable (collect_settings c)
unfolding collect_settings ask_settings
settings-Yields c plain =
    if-Yields IsWritable (any_provider c) _ _
      (bind-Yields Anything IsWritable _ _ (anything check_port) λ port any.
        bind-Yields Anything IsWritable _ _ (anything check_interval)
          λ interval any' n input lines. (plain, lines))
      (pure-Yields IsWritable none tt)

setup-Yields : (d : Detected) → IsPlainDetected d → Yields IsWritable (fresh_setup d)
unfolding fresh_setup prompt_choice
setup-Yields d plain =
    bind-Yields Anything IsWritable _ _ (anything _) λ choice any.
      bind-Yields ArePlain IsWritable _ _ (choice-Yields d choice plain) settings-Yields

-- From lines without their ends and detected tokens that are plain, the dialogue returns plain texts.
pub setup-ArePlain :
    (d : Detected) (n : ℕ) (input rest : Input) (c : SetupConfig)
    → IsPlainDetected d
    → AreLines input
    → fresh_setup d n input ≡ returns (some c) rest
    → ArePlain c
setup-ArePlain d n input rest c plain lines e =
    (subst (Holds IsWritable) e (setup-Yields d plain n input lines)).0
