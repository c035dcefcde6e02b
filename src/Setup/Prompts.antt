-- ===== src/Setup/Prompts.antt =====
-- The input helpers of server/setup.go. A loop that asks until it gets an answer has a bound on its
-- rounds: `asking` is a loop that has used it up. `crash` is a panic.
use one_auth_watch.Prelude.{
  ℕ, zero, suc, ◌+◌, ◌-◌, ◌*◌, Bool, ◌&&◌, Option, none, some, List, [], ◌∷◌, leb, ◌==◌,
  if◌then◌else◌,
}
use one_auth_watch.Prelude.Text.{Text, codes, has_prefix, trim_space, to_lower}

abbrev pub Input : Type 0
Input = List Text

pub data Run (A : Type 0) : Type 0 where
  returns : A → Input → Run A
  crash : Run A
  asking : Run A

abbrev pub Prompt : Type 0 → Type 0
Prompt A = ℕ → Input → Run A

module _ {A B : Type 0} where
  unfoldable pub and_then : (A → Prompt B) → ℕ → Run A → Run B
  and_then f n (returns a rest) = f a n rest
  and_then f n crash = crash
  and_then f n asking = asking

infixl 5 ◌>>=◌
abbrev pub ◌>>=◌ : {A B : Type 0} → Prompt A → (A → Prompt B) → Prompt B
(p >>= f) n input = and_then f n (p n input)

abbrev pub pure : {A : Type 0} → A → Prompt A
pure a n input = returns a input

-- The error of `ReadString` is dropped.
abbrev pub read_line : Input → Text × Input
read_line [] = ([], [])
read_line (line ∷ input) = (trim_space line, input)

-- What a loop does with a line.
pub data Check (A : Type 0) : Type 0 where
  take : A → Check A
  again : Check A
  panic : Check A

abbrev pub answer : {A : Type 0} → Check A → Input → Run A → Run A
answer (take a) rest more = returns a rest
answer again rest more = more
answer panic rest more = crash

unfoldable pub ask : {A : Type 0} → (Text → Check A) → Prompt A
ask check zero input = asking
ask check (suc n) input =
    let more = ask check n (read_line input).1 in
    answer (check (read_line input).0) (read_line input).1 more

abbrev pub with_default : Text → Text → Text
with_default default [] = default
with_default default (c ∷ line) = c ∷ line

abbrev pub is_yes : Bool → Text → Bool
is_yes default [] = default
is_yes default (c ∷ line) = has_prefix (c ∷ line) (codes "y")

unfoldable pub prompt_yes_no : Bool → Prompt Bool
prompt_yes_no default n input =
    returns (is_yes default (to_lower (read_line input).0)) (read_line input).1

abbrev pub check_secret : Text → Check Text
check_secret [] = again
check_secret (c ∷ line) = take (c ∷ line)

unfoldable pub prompt_secret : Prompt Text
prompt_secret = ask check_secret

-- `strconv.Atoi`; its errors and negative numbers are `none`: every caller rejects both.
abbrev is_digit : ℕ → Bool
is_digit c = leb 48 c && leb c 57

unfoldable pub digits : ℕ → Text → Option ℕ
digits n [] = some n
digits n (c ∷ s) = let rest = digits (n * 10 + (c - 48)) s in if is_digit c then rest else none

unfoldable pub number : Text → Option ℕ
number [] = none
number (c ∷ s) = digits 0 (c ∷ s)

unfoldable pub atoi : Text → Option ℕ
atoi [] = none
atoi (c ∷ s) = if c == 43 then number s else number (c ∷ s)

abbrev pub choice_of : ℕ → Option ℕ → Check ℕ
choice_of options none = again
choice_of options (some n) = if leb 1 n && leb n options then take n else again

unfoldable pub prompt_choice : ℕ → Prompt ℕ
prompt_choice options = ask (λ line. choice_of options (atoi line))
