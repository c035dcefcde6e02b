-- ===== src/Setup/EnvFile/Yields.antt =====
-- What the input helpers of the dialogue, and its questions for one text, return from whole lines.
use one_auth_watch.Prelude.{
  ℕ, zero, suc, ◌≡◌, refl, Bool, true, false, [], ◌∷◌, All, if◌then◌else◌, length, ltb,
}
use one_auth_watch.Prelude.Text.{newline_free, Text, codes, has_prefix, trim_space}
use one_auth_watch.Prelude.Text.Trim.{trim_space_again, trim_space_free}
use one_auth_watch.Setup.Prompts.{
  Input, Run, returns, crash, asking, Prompt, and_then, ◌>>=◌, pure, read_line, Check, take, again,
  panic, answer, ask, prompt_yes_no, prompt_secret, check_secret,
}
use one_auth_watch.Setup.{check_synthetic, check_url, zai_url, collect_synthetic_key}
use one_auth_watch.Setup.EnvFile.Lines.{IsPlain}

-- Lines of input, without their ends.
abbrev pub AreLines : Input → Type 0
AreLines input = All (λ line. newline_free line ≡ true) input

-- What a part of the dialogue returns has a property, and lines are left.
abbrev pub Holds : {A : Type 0} → (A → Type 0) → Run A → Type 0
Holds Q (returns a rest) = Q a × AreLines rest
Holds Q crash = Unit
Holds Q asking = Unit

abbrev pub Yields : {A : Type 0} → (A → Type 0) → Prompt A → Type 0
Yields Q p = (n : ℕ) (input : Input) → AreLines input → Holds Q (p n input)

abbrev pub Takes : {A : Type 0} → (A → Type 0) → Check A → Type 0
Takes Q (take a) = Q a
Takes Q again = Unit
Takes Q panic = Unit

module _ {A : Type 0} (Q : A → Type 0) where
  pub pure-Yields : (a : A) → Q a → Yields Q (pure a)
  pure-Yields a q n input h = (q, h)

  pub if-Yields :
      (b : Bool) (p q : Prompt A) → Yields Q p → Yields Q q → Yields Q (if b then p else q)
  if-Yields true p q hp hq = hp
  if-Yields false p q hp hq = hq

  answer-Holds :
      (c : Check A) (rest : Input) (more : Run A)
      → Takes Q c
      → AreLines rest
      → Holds Q more
      → Holds Q (answer c rest more)
  answer-Holds (take a) rest more q h hm = (q, h)
  answer-Holds again rest more q h hm = hm
  answer-Holds panic rest more q h hm = tt

module _ {A B : Type 0} (P : A → Type 0) (Q : B → Type 0) where
  then-Holds :
      (f : A → Prompt B) (n : ℕ) (r : Run A)
      → Holds P r
      → ((a : A) → P a → Yields Q (f a))
      → Holds Q (and_then f n r)
  unfolding and_then
  then-Holds f n (returns a rest) (p, h) hf = hf a p n rest h
  then-Holds f n crash h hf = tt
  then-Holds f n asking h hf = tt

  pub bind-Yields :
      (p : Prompt A) (f : A → Prompt B)
      → Yields P p
      → ((a : A) → P a → Yields Q (f a))
      → Yields Q (p >>= f)
  bind-Yields p f hp hf n input h = then-Holds f n (p n input) (hp n input h) hf

read_line-Plain :
    (input : Input) → AreLines input → IsPlain (read_line input).0 × AreLines (read_line input).1
unfolding trim_space newline_free
read_line-Plain [] h = ((refl, refl), tt)
read_line-Plain (line ∷ input) (first, rest) =
    ((trim_space_again line, trim_space_free line first), rest)

module _ {A : Type 0} (Q : A → Type 0) where
  pub ask-Yields :
      (check : Text → Check A)
      → ((line : Text) → IsPlain line → Takes Q (check line))
      → Yields Q (ask check)
  unfolding ask
  ask-Yields check hc zero input h = tt
  ask-Yields check hc (suc n) input h =
      let read = read_line-Plain input h in
      answer-Holds Q (check (read_line input).0) (read_line input).1
        (ask check n (read_line input).1) (hc (read_line input).0 read.0) read.1
        (ask-Yields check hc n (read_line input).1 read.1)

abbrev pub Anything : {A : Type 0} → A → Type 0
Anything a = Unit

pub yes_no-Yields : (default : Bool) → Yields Anything (prompt_yes_no default)
unfolding prompt_yes_no
yes_no-Yields default n input h = (tt, (read_line-Plain input h).1)

pub secret-Yields : Yields IsPlain prompt_secret
unfolding prompt_secret
secret-Yields = ask-Yields IsPlain _ takes
  where
    takes : (line : Text) → IsPlain line → Takes IsPlain (check_secret line)
    takes [] h = tt
    takes (c ∷ line) h = h

pub empty-IsPlain : IsPlain []
unfolding trim_space newline_free
empty-IsPlain = (refl, refl)

if_taken :
    (b : Bool) (c d : Check Text)
    → Takes IsPlain c
    → Takes IsPlain d
    → Takes IsPlain (if b then c else d)
if_taken true c d hc hd = hc
if_taken false c d hc hd = hd

pub synthetic-Yields : Yields IsPlain collect_synthetic_key
unfolding collect_synthetic_key
synthetic-Yields = ask-Yields IsPlain check_synthetic λ line h.
    if_taken (has_prefix line (codes "syn_")) _ again
      (if_taken (ltb (length line) 6) panic (take line) tt h) tt

check_url-Takes : (line : Text) → IsPlain line → Takes IsPlain (check_url line)
unfolding trim_space newline_free has_prefix
check_url-Takes [] h = (refl, refl)
check_url-Takes (c ∷ line) h =
    if_taken (has_prefix (c ∷ line) (codes "https://")) (take (c ∷ line)) again h tt

pub zai_url-Yields : (b : Bool) → Yields IsPlain (zai_url b)
unfolding trim_space newline_free
zai_url-Yields true = pure-Yields IsPlain _ (refl, refl)
zai_url-Yields false = ask-Yields IsPlain check_url check_url-Takes
