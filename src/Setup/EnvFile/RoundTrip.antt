-- ===== src/Setup/EnvFile/RoundTrip.antt =====
-- What `loadExistingEnv` reads from the file that `writeEnvFile` wrote.
use one_auth_watch.Prelude.{
  ℕ, ◌≡◌, refl, ap, ◌∙◌, Bool, true, false, ◌||◌, some, List, [], ◌∷◌, ◌++◌, All,
}
use one_auth_watch.Prelude.Text.{Text, newline_free, codes, text_eq, has_prefix, trim_space}
use one_auth_watch.Config.{is_set}
use one_auth_watch.Setup.{SetupConfig}
use one_auth_watch.Setup.EnvFile.{
  ExistingEnv, empty_env, decimal, section, env_head, synthetic_lines, zai_lines, anthropic_lines,
  codex_lines, antigravity_lines, gemini_lines, env_foot, env_parts, joined, env_lines, env_text,
  cut, assign, read_trimmed, load_lines, load_existing_env,
}
use one_auth_watch.Setup.EnvFile.Lines.{
  IsLine, IsPlain, decimal-IsLine, split_lines-unlines, load_lines-append, read, comment_skipped,
  synthetic_read, zai_read, url_skipped, anthropic_read, codex_read, settings_skipped, with_comment,
}

synthetic_section :
    (env : ExistingEnv) (v : Text)
    → IsPlain v
    → env.synthetic_key ≡ []
    → load_lines env (section (is_set v) (synthetic_lines v)) ≡ record env { synthetic_key = v }
unfolding load_lines text_eq
synthetic_section env [] h e = ap (λ w. record env { synthetic_key = w }) e
synthetic_section env (c ∷ v) h e =
    with_comment env _ (codes "SYNTHETIC_API_KEY=" ++ c ∷ v) [] ∙ synthetic_read env (c ∷ v) h

zai_section :
    (env : ExistingEnv) (v url : Text)
    → IsPlain v
    → env.zai_key ≡ []
    → load_lines env (section (is_set v) (zai_lines v url)) ≡ record env { zai_key = v }
unfolding load_lines text_eq
zai_section env [] url h e = ap (λ w. record env { zai_key = w }) e
zai_section env (c ∷ v) url h e =
    with_comment env (codes " Z.ai API key (https://www.z.ai/api-keys)")
      (codes "ZAI_API_KEY=" ++ c ∷ v)
      (codes "# Z.ai base URL" ∷ (codes "ZAI_BASE_URL=" ++ url) ∷ [] ∷ [])
    ∙ with_comment (read env (codes "ZAI_API_KEY=" ++ c ∷ v)) (codes " Z.ai base URL")
        (codes "ZAI_BASE_URL=" ++ url) []
    ∙ url_skipped (read env (codes "ZAI_API_KEY=" ++ c ∷ v)) url
    ∙ zai_read env (c ∷ v) h

anthropic_section :
    (env : ExistingEnv) (v : Text)
    → IsPlain v
    → env.anthropic_token ≡ []
    → load_lines env (section (is_set v) (anthropic_lines v)) ≡ record env { anthropic_token = v }
unfolding load_lines text_eq
anthropic_section env [] h e = ap (λ w. record env { anthropic_token = w }) e
anthropic_section env (c ∷ v) h e =
    with_comment env _ (codes "ANTHROPIC_TOKEN=" ++ c ∷ v) [] ∙ anthropic_read env (c ∷ v) h

codex_section :
    (env : ExistingEnv) (v : Text)
    → IsPlain v
    → env.codex_token ≡ []
    → load_lines env (section (is_set v) (codex_lines v)) ≡ record env { codex_token = v }
unfolding load_lines text_eq
codex_section env [] h e = ap (λ w. record env { codex_token = w }) e
codex_section env (c ∷ v) h e =
    with_comment env _ (codes "CODEX_TOKEN=" ++ c ∷ v) [] ∙ codex_read env (c ∷ v) h

antigravity_section :
    (env : ExistingEnv) (on : Bool)
    → env.antigravity_enabled ≡ false
    → load_lines env (section on antigravity_lines) ≡ record env { antigravity_enabled = on }
unfolding load_lines read_trimmed has_prefix trim_space cut assign text_eq
antigravity_section env false e = ap (λ w. record env { antigravity_enabled = w }) e
antigravity_section env true e = refl

gemini_section :
    (env : ExistingEnv) (on : Bool)
    → env.gemini_enabled ≡ false
    → load_lines env (section on gemini_lines) ≡ record env { gemini_enabled = on }
unfolding load_lines read_trimmed has_prefix trim_space cut assign text_eq
gemini_section env false e = ap (λ w. record env { gemini_enabled = w }) e
gemini_section env true e = refl

foot_skipped :
    (env : ExistingEnv) (interval port : ℕ) → load_lines env (env_foot interval port) ≡ env
unfolding load_lines read_trimmed has_prefix trim_space
foot_skipped env interval port = settings_skipped env (decimal 20 interval) (decimal 20 port)

head_skipped : (env : ExistingEnv) (stamp : Text) → load_lines env (env_head stamp) ≡ env
unfolding load_lines read_trimmed has_prefix trim_space
head_skipped env stamp =
    comment_skipped env (codes " Generated by 'oneauthwatch-server setup' on " ++ stamp)

-- The parts of a file take one environment to another.
abbrev Reads : ExistingEnv → List (List Text) → ExistingEnv → Type 0
Reads env [] last = env ≡ last
Reads env (part ∷ parts) last =
    (next : ExistingEnv) × ((load_lines env part ≡ next) × Reads next parts last)

joined-Reads :
    (env : ExistingEnv) (parts : List (List Text)) (last : ExistingEnv)
    → Reads env parts last
    → load_lines env (joined parts) ≡ last
unfolding load_lines
joined-Reads env [] last h = h
joined-Reads env (part ∷ parts) last (next, (first, rest)) =
    load_lines-append env part (joined parts)
    ∙ ap (λ e. load_lines e (joined parts)) first
    ∙ joined-Reads next parts last rest

-- The texts of the configuration are such as `readLine` returns.
abbrev pub ArePlain : SetupConfig → Type 0
ArePlain c =
    IsPlain c.synthetic_key
    × IsPlain c.zai_key
    × IsPlain c.zai_base_url
    × IsPlain c.anthropic_token
    × IsPlain c.codex_token

-- What the file of a configuration says of the providers.
abbrev pub env_of : SetupConfig → ExistingEnv
env_of c = record {
  synthetic_key = c.synthetic_key;
  zai_key = c.zai_key;
  anthropic_token = c.anthropic_token;
  codex_token = c.codex_token;
  antigravity_enabled = c.antigravity_enabled;
  gemini_enabled = c.gemini_enabled;
}

load_lines-env_lines :
    (stamp : Text) (c : SetupConfig)
    → ArePlain c
    → load_lines empty_env (env_lines stamp c) ≡ env_of c
unfolding env_lines
load_lines-env_lines stamp c (s, z, u, a, x) =
    let e1 : ExistingEnv = record empty_env { synthetic_key = c.synthetic_key } in
    let e2 : ExistingEnv = record e1 { zai_key = c.zai_key } in
    let e3 : ExistingEnv = record e2 { anthropic_token = c.anthropic_token } in
    let e4 : ExistingEnv = record e3 { codex_token = c.codex_token } in
    let e5 : ExistingEnv = record e4 { antigravity_enabled = c.antigravity_enabled } in
    joined-Reads empty_env (env_parts stamp c) (env_of c) (
      empty_env,
      (
        head_skipped empty_env stamp,
        (
          e1,
          (
            synthetic_section empty_env c.synthetic_key s refl,
            (
              e2,
              (
                zai_section e1 c.zai_key c.zai_base_url z refl,
                (
                  e3,
                  (
                    anthropic_section e2 c.anthropic_token a refl,
                    (
                      e4,
                      (
                        codex_section e3 c.codex_token x refl,
                        (
                          e5,
                          (
                            antigravity_section e4 c.antigravity_enabled refl,
                            (
                              env_of c,
                              (
                                gemini_section e5 c.gemini_enabled refl,
                                (env_of c, (foot_skipped (env_of c) c.poll_interval c.port, refl)),
                              ),
                            ),
                          ),
                        ),
                      ),
                    ),
                  ),
                ),
              ),
            ),
          ),
        ),
      ),
    )

All-join : (xs ys : List Text) → All IsLine xs → All IsLine ys → All IsLine (xs ++ ys)
All-join [] ys h k = k
All-join (x ∷ xs) ys (first, rest) k = (first, All-join xs ys rest k)

joined-All : (parts : List (List Text)) → All (All IsLine) parts → All IsLine (joined parts)
joined-All [] h = tt
joined-All (part ∷ parts) (first, rest) = All-join part (joined parts) first (joined-All parts rest)

section-All : (on : Bool) (lines : List Text) → All IsLine lines → All IsLine (section on lines)
section-All true lines h = h
section-All false lines h = tt

env_lines-All :
    (stamp : Text) (c : SetupConfig) → IsLine stamp → ArePlain c → All IsLine (env_lines stamp c)
unfolding env_lines newline_free
env_lines-All stamp c h (s, z, u, a, x) = joined-All (env_parts stamp c) (
  (refl, (refl, (h, (refl, (refl, tt))))),
  (
    section-All (is_set c.synthetic_key) _ (refl, (s.1, (refl, tt))),
    (
      section-All (is_set c.zai_key) _ (refl, (z.1, (refl, (refl, (u.1, (refl, tt)))))),
      (
        section-All (is_set c.anthropic_token) _ (refl, (a.1, (refl, tt))),
        (
          section-All (is_set c.codex_token) _ (refl, (x.1, (refl, tt))),
          (
            section-All c.antigravity_enabled _ (refl, (refl, (refl, tt))),
            (
              section-All c.gemini_enabled _ (refl, (refl, (refl, tt))),
              (
                (
                  refl,
                  (
                    refl,
                    (
                      refl,
                      (
                        refl,
                        (
                          refl,
                          (
                            decimal-IsLine 20 c.poll_interval,
                            (refl, (refl, (decimal-IsLine 20 c.port, tt))),
                          ),
                        ),
                      ),
                    ),
                  ),
                ),
                tt,
              ),
            ),
          ),
        ),
      ),
    ),
  ),
)

load_lines-last :
    (env : ExistingEnv) (xs : List Text) → load_lines env (xs ++ [] ∷ []) ≡ load_lines env xs
unfolding load_lines trim_space read_trimmed
load_lines-last env xs = load_lines-append env xs ([] ∷ [])

-- The file that a setup wrote is read again as the providers of its configuration, whose texts are
-- trimmed and without line ends, as is the time of its head. Gemini is on as well where its
-- credentials are found.
pub load-env_text :
    (stamp : Text) (c : SetupConfig) (found : Bool)
    → newline_free stamp ≡ true
    → ArePlain c
    → load_existing_env found (some (env_text stamp c))
      ≡ record (env_of c) { gemini_enabled = c.gemini_enabled || found }
unfolding load_existing_env
load-env_text stamp c found h plain =
    ap {A = ExistingEnv} (λ e. record e { gemini_enabled = e.gemini_enabled || found })
      (ap (load_lines empty_env)
          (split_lines-unlines (env_lines stamp c) (env_lines-All stamp c h plain))
        ∙ load_lines-last empty_env (env_lines stamp c)
        ∙ load_lines-env_lines stamp c plain)
