-- ===== src/Setup/EnvFile/Lines.antt =====
-- How the lines of the .env file are told apart and read.
use one_auth_watch.Prelude.{
  ℕ, zero, suc, ◌+◌, ◌/◌, ◌%◌, inl, inr, ◌≡◌, refl, ap, ◌∙◌, true, List, [], ◌∷◌, ◌++◌, All, arith,
  ltb, ◌==◌, Bool-cases,
}
use one_auth_watch.Prelude.Text.{
  Text, newline_free, codes, text_eq, has_prefix, is_space, trim_space,
}
use one_auth_watch.Prelude.Text.Trim.{trim_right_of_trimmed, trim_space_from, trim_space_cons}
use one_auth_watch.Setup.EnvFile.{
  ExistingEnv, decimal, unlines, split_lines, cut, assign, read_trimmed, load_lines,
}

abbrev pub IsLine : Text → Type 0
IsLine s = newline_free s ≡ true

-- A text that `readLine` can return.
abbrev pub IsPlain : Text → Type 0
IsPlain s = (trim_space s ≡ s) × (newline_free s ≡ true)

newline_free-append : (s t : Text) → IsLine s → IsLine t → IsLine (s ++ t)
unfolding newline_free
newline_free-append [] t h k = k
newline_free-append (c ∷ s) t h k = ground (arith, newline_free-append s t)

digit-IsLine : (n : ℕ) → IsLine ((48 + n) ∷ [])
unfolding newline_free
digit-IsLine n = ground arith

pub decimal-IsLine : (k n : ℕ) → IsLine (decimal k n)
unfolding decimal newline_free
decimal-IsLine zero n = refl
decimal-IsLine (suc k) n = elim (Bool-cases (ltb n 10)) [
  | inl e ↦ rw e (digit-IsLine n)
  | inr e ↦ rw e (
      newline_free-append (decimal k (n / 10)) ((48 + n % 10) ∷ []) (decimal-IsLine k (n / 10))
        (digit-IsLine (n % 10)))
]

split_lines-line :
    (line s : Text) → IsLine line → split_lines (line ++ 10 ∷ s) ≡ line ∷ split_lines s
unfolding split_lines newline_free
split_lines-line [] s h = refl
split_lines-line (c ∷ line) s h = elim (Bool-cases (c == 10)) [
  | inl e ↦ ground (arith, e, h)
  | inr e ↦ rw (e, split_lines-line line s (ground (arith, h))) refl
]

pub split_lines-unlines :
    (lines : List Text) → All IsLine lines → split_lines (unlines lines) ≡ lines ++ [] ∷ []
unfolding unlines split_lines
split_lines-unlines [] h = refl
split_lines-unlines (line ∷ rest) (first, others) =
    split_lines-line line (unlines rest) first
    ∙ ap (λ r. line ∷ r) (split_lines-unlines rest others)

pub load_lines-append :
    (env : ExistingEnv) (xs ys : List Text)
    → load_lines env (xs ++ ys) ≡ load_lines (load_lines env xs) ys
unfolding load_lines
load_lines-append env [] ys = refl
load_lines-append env (x ∷ xs) ys = load_lines-append (read_trimmed env (trim_space x)) xs ys

abbrev pub read : ExistingEnv → Text → ExistingEnv
read env line = read_trimmed env (trim_space line)

pub comment_skipped : (env : ExistingEnv) (s : Text) → read env (35 ∷ s) ≡ env
unfolding read_trimmed has_prefix is_space
comment_skipped env s = ap (read_trimmed env) (trim_space_cons 35 s refl)

pub synthetic_read :
    (env : ExistingEnv) (v : Text)
    → IsPlain v
    → read env (codes "SYNTHETIC_API_KEY=" ++ v) ≡ record env { synthetic_key = v }
unfolding read_trimmed has_prefix is_space cut assign text_eq
synthetic_read env v h =
    ap (read_trimmed env) (trim_space_from 83 (codes "YNTHETIC_API_KEY") 61 v refl refl)
    ∙ ap (λ w. record env { synthetic_key = w }) (trim_right_of_trimmed v h.0)

pub zai_read :
    (env : ExistingEnv) (v : Text)
    → IsPlain v
    → read env (codes "ZAI_API_KEY=" ++ v) ≡ record env { zai_key = v }
unfolding read_trimmed has_prefix is_space cut assign text_eq
zai_read env v h =
    ap (read_trimmed env) (trim_space_from 90 (codes "AI_API_KEY") 61 v refl refl)
    ∙ ap (λ w. record env { zai_key = w }) (trim_right_of_trimmed v h.0)

pub url_skipped : (env : ExistingEnv) (v : Text) → read env (codes "ZAI_BASE_URL=" ++ v) ≡ env
unfolding read_trimmed has_prefix is_space cut assign text_eq
url_skipped env v = ap (read_trimmed env) (trim_space_from 90 (codes "AI_BASE_URL") 61 v refl refl)

pub anthropic_read :
    (env : ExistingEnv) (v : Text)
    → IsPlain v
    → read env (codes "ANTHROPIC_TOKEN=" ++ v) ≡ record env { anthropic_token = v }
unfolding read_trimmed has_prefix is_space cut assign text_eq
anthropic_read env v h =
    ap (read_trimmed env) (trim_space_from 65 (codes "NTHROPIC_TOKEN") 61 v refl refl)
    ∙ ap (λ w. record env { anthropic_token = w }) (trim_right_of_trimmed v h.0)

pub codex_read :
    (env : ExistingEnv) (v : Text)
    → IsPlain v
    → read env (codes "CODEX_TOKEN=" ++ v) ≡ record env { codex_token = v }
unfolding read_trimmed has_prefix is_space cut assign text_eq
codex_read env v h =
    ap (read_trimmed env) (trim_space_from 67 (codes "ODEX_TOKEN") 61 v refl refl)
    ∙ ap (λ w. record env { codex_token = w }) (trim_right_of_trimmed v h.0)

pub settings_skipped :
    (env : ExistingEnv) (v w : Text)
    → read (read env (codes "ONEAUTHWATCH_POLL_INTERVAL=" ++ v)) (codes "ONEAUTHWATCH_PORT=" ++ w)
      ≡ env
unfolding read_trimmed has_prefix is_space cut assign text_eq
settings_skipped env v w =
    ap (λ e. read e (codes "ONEAUTHWATCH_PORT=" ++ w))
      (ap (read_trimmed env)
        (trim_space_from 79 (codes "NEAUTHWATCH_POLL_INTERVAL") 61 v refl refl))
    ∙ ap (read_trimmed env) (trim_space_from 79 (codes "NEAUTHWATCH_PORT") 61 w refl refl)

pub with_comment :
    (env : ExistingEnv) (s line : Text) (rest : List Text)
    → load_lines env ((35 ∷ s) ∷ line ∷ [] ∷ rest) ≡ load_lines (read env line) rest
unfolding load_lines trim_space read_trimmed
with_comment env s line rest = ap (λ e. load_lines (read e line) rest) (comment_skipped env s)
