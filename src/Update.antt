-- ===== src/Update.antt =====
-- server/internal/update/update.go: which version counts as newer, the cached check for a release,
-- and the download with retries. The answer of GitHub is an argument.
pub mod Order
pub mod Cache
pub mod Download
mod Tests
use one_auth_watch.Prelude.{
  ℕ, zero, suc, ◌+◌, ◌-◌, ◌*◌, ◌^◌, Bool, true, false, not, ◌&&◌, ◌||◌, Option, none, some, List,
  [], ◌∷◌, ltb, leb, ◌==◌, get_or, length, if◌then◌else◌,
}
use one_auth_watch.Prelude.Int.{ℤ, pos, negsuc}
use one_auth_watch.Prelude.Clock.{Time, Duration}
use one_auth_watch.Prelude.Text.{Text, codes, text_eq, before}

-- `strings.TrimPrefix(s, "v")`
abbrev trim_v : Text → Text
trim_v [] = []
trim_v (c ∷ s) = if c == 118 then s else c ∷ s

-- `strings.Split(s, ".")`
abbrev push_part : ℕ → List Text → List Text
push_part c [] = (c ∷ []) ∷ []
push_part c (part ∷ parts) = (c ∷ part) ∷ parts

pub split_dots : Text → List Text
split_dots [] = [] ∷ []
split_dots (c ∷ s) = let rest = split_dots s in if c == 46 then [] ∷ rest else push_part c rest

-- `strconv.Atoi` of a text without a minus sign: the number, 0 for a text that is none, and the
-- greatest `int` for a number that is out of range.
abbrev is_digit : ℕ → Bool
is_digit c = leb 48 c && leb c 57

abbrev max_int : ℕ
max_int = 2 ^ 63 - 1

pub digits_value : ℕ → Text → Option ℕ
digits_value n [] = some n
digits_value n (c ∷ s) =
    let rest = digits_value (n * 10 + (c - 48)) s in if is_digit c then rest else none

abbrev in_range : Option ℕ → ℕ
in_range none = 0
in_range (some n) = if ltb max_int n then max_int else n

abbrev unsigned_value : Text → ℕ
unsigned_value [] = 0
unsigned_value (c ∷ s) = in_range (digits_value 0 (c ∷ s))

abbrev atoi : Text → ℕ
atoi [] = 0
atoi (c ∷ s) = if c == 43 then unsigned_value s else unsigned_value (c ∷ s)

-- What stands before the first hyphen is the number.
pub extract_leading_int : Text → ℕ
extract_leading_int s = atoi (before 45 s)

-- The number of part `i`; a missing part is padded with "0".
pub part_number : Text → ℕ → ℕ
part_number version i = extract_leading_int (get_or (split_dots (trim_v version)) i (codes "0"))

-- The loop of `compareVersions` over the parts `i`, ..., `i + n - 1`.
pub compare_parts : ℕ → ℕ → Text → Text → ℤ
compare_parts i zero a b = pos 0
compare_parts i (suc n) a b =
    let rest = compare_parts (suc i) n a b in
    if ltb (part_number b i) (part_number a i)
    then pos 1
    else if ltb (part_number a i) (part_number b i)
    then negsuc 0
    else rest

pub compare_versions : Text → Text → ℤ
compare_versions a b = compare_parts 0 3 a b

-- The fields of `Updater` that `Check` uses.
pub record Updater : Type 0 where
  pub current_version : Text
  pub cached_version : Text
  pub cached_at : Time
  pub cache_ttl : Duration

pub record UpdateInfo : Type 0 where
  pub available : Bool
  pub current_version : Text
  pub latest_version : Text

abbrev is_blank : Text → Bool
is_blank [] = true
is_blank (c ∷ s) = false

abbrev is_one : ℤ → Bool
is_one (pos n) = ltb 0 n
is_one (negsuc n) = false

pub info_for : Text → Text → UpdateInfo
info_for latest current = record {
  available = is_one (compare_versions latest current);
  current_version = current;
  latest_version = latest;
}

pub is_dev : Updater → Bool
is_dev u = text_eq u.current_version (codes "dev") || is_blank u.current_version

abbrev no_info : Updater → UpdateInfo
no_info u = record { available = false; current_version = u.current_version; latest_version = [] }

-- The part after the cache: `none` for the tag is an error of the request, the status or the body.
pub fetched : Time → Option Text → Updater → Updater × Option UpdateInfo
fetched now none u = (u, none)
fetched now (some tag) u = (
  record u { cached_version = trim_v tag; cached_at = now },
  some (info_for (trim_v tag) u.current_version),
)

pub is_cached : Time → Updater → Bool
is_cached now u = not (is_blank u.cached_version) && ltb now (u.cached_at + u.cache_ttl)

-- `none` is an error.
pub check : Time → Option Text → Updater → Updater × Option UpdateInfo
check now tag u =
    if is_dev u
    then (u, some (no_info u))
    else if is_cached now u
    then (u, some (info_for u.cached_version u.current_version))
    else fetched now tag u

-- An open file: its bytes, and the offset at which the next write starts.
pub record File : Type 0 where
  pub bytes : List ℕ
  pub offset : ℕ

-- `dst.Seek(n, 0)`
pub seek : ℕ → File → File
seek n f = record f { offset = n }

-- `dst.Truncate(n)`: the first `n` bytes, with zeros where there are not so many; the offset stays.
pub resize : ℕ → List ℕ → List ℕ
resize zero bs = []
resize (suc n) [] = 0 ∷ resize n []
resize (suc n) (b ∷ bs) = b ∷ resize n bs

pub truncate : ℕ → File → File
truncate n f = record f { bytes = resize n f.bytes }

-- A write puts its bytes over those from the offset on, after zeros where the file ends before it.
pub overwrite : List ℕ → List ℕ → List ℕ
overwrite [] bs = bs
overwrite (c ∷ new) [] = c ∷ overwrite new []
overwrite (c ∷ new) (b ∷ bs) = c ∷ overwrite new bs

pub write_at : ℕ → List ℕ → List ℕ → List ℕ
write_at zero new bs = overwrite new bs
write_at (suc n) new [] = 0 ∷ write_at n new []
write_at (suc n) new (b ∷ bs) = b ∷ write_at n new bs

pub write : List ℕ → File → File
write new f = record { bytes = write_at f.offset new f.bytes; offset = f.offset + length new }

-- What one attempt meets: whether `Seek` or `Truncate` fails, the bytes that arrive, and the error
-- that ends the download, if any, as `isRetryableDownloadError` says of it.
pub record Attempt : Type 0 where
  pub seek_failed : Bool
  pub truncate_failed : Bool
  pub arrived : List ℕ
  pub error : Option Bool

-- The body of the loop after `downloadOnce`.
abbrev after_once : Bool → Option Bool → File × Bool → File → File × Bool
after_once more none rest f = (f, true)
after_once more (some retryable) rest f = if more && retryable then rest else (f, false)

-- The loop of `downloadWithRetry` with `tries` attempts left, the next one number `i`. The file, and
-- whether the download succeeded.
pub attempt_loop : ℕ → (ℕ → Attempt) → ℕ → File → File × Bool
attempt_loop zero attempts i dst = (dst, false)
attempt_loop (suc tries) attempts i dst =
    let a = attempts i in
    let at_start = seek 0 dst in
    let empty = truncate 0 at_start in
    let written = write a.arrived empty in
    let rest = attempt_loop tries attempts (suc i) written in
    if a.seek_failed
    then (dst, false)
    else if a.truncate_failed
    then (at_start, false)
    else after_once (ltb 0 tries) a.error rest written

pub download_with_retry : ℕ → (ℕ → Attempt) → File → File × Bool
download_with_retry max_attempts attempts dst =
    attempt_loop (if max_attempts == 0 then 1 else max_attempts) attempts 1 dst
