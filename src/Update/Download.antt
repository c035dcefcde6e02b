-- ===== src/Update/Download.antt =====
-- What a download leaves in the file.
use one_auth_watch.Prelude.{
  ℕ, zero, suc, ◌+◌, ◌≤◌, ◌<◌, ◌≡◌, refl, ap, Bool, true, false, Option, none, some, List, [], ◌∷◌,
  arith, ltb, ◌==◌, if◌then◌else◌,
}
use one_auth_watch.Update.{
  File, seek, truncate, resize, overwrite, write_at, write, Attempt, after_once, attempt_loop,
  download_with_retry,
}

-- One of the attempts `i`, ..., `i + tries - 1` ends without an error, and the file holds the bytes that
-- arrived in it and no others.
pub record IsWhole (attempts : ℕ → Attempt) (i tries : ℕ) (dst : File) : Type 0 where
  pub attempt : ℕ
  pub first : i ≤ attempt
  pub last : attempt < i + tries
  pub complete : (attempts attempt).error ≡ none
  pub bytes : dst.bytes ≡ (attempts attempt).arrived

-- Bytes that are written to the start of an empty file are all that it holds.
overwrite_nothing : (new : List ℕ) → overwrite new [] ≡ new
unfolding overwrite
overwrite_nothing [] = refl
overwrite_nothing (c ∷ new) = ap (λ r. c ∷ r) (overwrite_nothing new)

written_alone : (new : List ℕ) (dst : File) → (write new (truncate 0 (seek 0 dst))).bytes ≡ new
unfolding write truncate seek resize write_at
written_alone new dst = overwrite_nothing new

module _ (attempts : ℕ → Attempt) where
  IsWhole-later :
      (i tries : ℕ) (dst : File)
      → IsWhole attempts (suc i) tries dst
      → IsWhole attempts i (suc tries) dst
  IsWhole-later i tries dst w = record {
    attempt = w.attempt;
    first = ground arith;
    last = ground arith;
    complete = w.complete;
    bytes = w.bytes;
  }

  abbrev WholeIf : ℕ → ℕ → File × Bool → Type 0
  WholeIf i tries r = r.1 ≡ true → IsWhole attempts i tries r.0

  once-WholeIf :
      (i tries : ℕ) (more : Bool) (error : Option Bool) (rest : File × Bool) (f : File)
      → (attempts i).error ≡ error
      → f.bytes ≡ (attempts i).arrived
      → WholeIf (suc i) tries rest
      → WholeIf i (suc tries) (after_once more error rest f)
  once-WholeIf i tries more none rest f e b h ok = record {
    attempt = i;
    first = omega arith;
    last = omega arith;
    complete = e;
    bytes = b;
  }
  once-WholeIf i tries true (some true) rest f e b h ok = IsWhole-later i tries rest.0 (h ok)
  once-WholeIf i tries true (some false) rest f e b h ok = ground arith
  once-WholeIf i tries false (some r) rest f e b h ok = ground arith

  guarded-WholeIf :
      (i tries : ℕ) (failed : Bool) (f : File) (r : File × Bool)
      → WholeIf i tries r
      → WholeIf i tries (if failed then (f, false) else r)
  guarded-WholeIf i tries true f r h ok = ground arith
  guarded-WholeIf i tries false f r h ok = h ok

  loop-WholeIf : (tries i : ℕ) (dst : File) → WholeIf i tries (attempt_loop tries attempts i dst)
  unfolding attempt_loop
  loop-WholeIf zero i dst = λ ok. ground arith
  loop-WholeIf (suc tries) i dst =
      let a = attempts i in
      let written = write a.arrived (truncate 0 (seek 0 dst)) in
      let rest = attempt_loop tries attempts (suc i) written in
      guarded-WholeIf i (suc tries) a.seek_failed dst _ (
        guarded-WholeIf i (suc tries) a.truncate_failed (seek 0 dst) _ (
          once-WholeIf i tries (ltb 0 tries) a.error rest written refl (written_alone a.arrived dst)
            (loop-WholeIf tries (suc i) written)))

  -- A download that succeeds leaves in the file exactly the bytes of one attempt that ended without
  -- an error, whatever the file held, wherever its offset was, and whatever earlier attempts wrote;
  -- and it makes at most the configured number of attempts (one, if that is 0).
  pub download-IsWhole :
      (max_attempts : ℕ) (dst : File)
      → (download_with_retry max_attempts attempts dst).1 ≡ true
      → IsWhole attempts 1
          (if max_attempts == 0 then 1 else max_attempts)
          (download_with_retry max_attempts attempts dst).0
  unfolding download_with_retry
  download-IsWhole max_attempts dst h =
      loop-WholeIf (if max_attempts == 0 then 1 else max_attempts) 1 dst h
