-- ===== src/Manager/Safety.antt =====
-- What the `running` map says of the runs, and the runs that it loses.
use one_auth_watch.Prelude.{
  ℕ, suc, ◌<◌, ◌≡◌, ◌⊎◌, true, false, not, some, List, [], ◌∷◌, arith, keep, All, Bool-cases, inl,
  inr,
}
use one_auth_watch.Prelude.Text.{Text, text_eq, text_eq_iff}
use one_auth_watch.Prelude.Maps.{
  lookup, insert, remove, text_key, is_some, lookup-insert, lookup-remove,
}
use one_auth_watch.Manager.Steps.{
  Built, factory_error, nil_runner, runner, AgentManager, Event, register, begin_start,
  finish_start, stop, factory_returns, stop_all, exit, new_agent_manager, contains, drop_one,
  is_run, has_run, cancel, is_running, keep_runner, on_begin, on_factory, on_finish, on_stop,
  on_stop_all, on_exit, step, steps,
}
use one_auth_watch.Manager.Entries.{
  IsOf, lookup_old, keep_old, suc_old, insert_old, keep-IsOf, old-IsOf, insert-IsOf, has_run-keep,
  cancel_all_old,
}

-- Every entry of the map is the number of a run of its key that goes on, and was not cancelled.
pub record Sound (m : AgentManager) : Type 0 where
  pub entry_live : (k : Text) (i : ℕ) → lookup k m.running ≡ some i → has_run k i m.live ≡ true
  pub entry_uncancelled : (k : Text) (i : ℕ) → lookup k m.running ≡ some i → m.cancelled i ≡ false
  pub entries_old : All (λ e. e.1 < m.next) m.running
  pub cancelled_old : (i : ℕ) → m.cancelled i ≡ true → i < m.next
  pub distinct :
      (k j : Text) (i : ℕ) → lookup k m.running ≡ some i → lookup j m.running ≡ some i → k ≡ j
  pub named_once : (k : Text) (i : ℕ) → lookup k m.running ≡ some i → All (IsOf k i) m.running

-- The other fields play no part.
carry :
    (factories starting built : List Text) (m : AgentManager)
    → Sound m
    → Sound (record m { factories = factories; starting = starting; built = built })
carry factories starting built m h = record {
  entry_live = h.entry_live;
  entry_uncancelled = h.entry_uncancelled;
  entries_old = h.entries_old;
  cancelled_old = h.cancelled_old;
  distinct = h.distinct;
  named_once = h.named_once;
}

on_begin-Sound : (key : Text) (m : AgentManager) → Sound m → Sound (on_begin key m).0
unfolding on_begin
on_begin-Sound key m h = elim (Bool-cases (is_running key m)) [
  | inl e ↦ rw e h
  | inr e ↦ elim (Bool-cases (contains key m.factories)) [
    | inl c ↦ rw (e, c) (carry m.factories (key ∷ m.starting) m.built m h)
    | inr c ↦ rw (e, c) h
  ]
]

keep_runner-Sound :
    (key : Text) (b : Built) (m : AgentManager) → Sound m → Sound (keep_runner key b m).0
keep_runner-Sound key factory_error m h = h
keep_runner-Sound key nil_runner m h = h
keep_runner-Sound key runner m h = carry m.factories m.starting (key ∷ m.built) m h

on_factory-Sound :
    (key : Text) (b : Built) (m : AgentManager) → Sound m → Sound (on_factory key b m).0
unfolding on_factory
on_factory-Sound key b m h = elim (Bool-cases (contains key m.starting)) [
  | inl e ↦
      rw e (keep_runner-Sound key b _ (carry m.factories (drop_one key m.starting) m.built m h))
  | inr e ↦ rw e h
]

module _ (key : Text) (m : AgentManager) (h : Sound m) where
  old : (k : Text) (i : ℕ) → lookup k m.running ≡ some i → i < m.next
  old k i e = lookup_old k i m.next m.running h.entries_old e

  started : AgentManager
  started = record m {
    built = drop_one key m.built;
    running = insert key m.next m.running;
    live = (key, m.next) ∷ m.live;
    next = suc m.next;
  }

  started_once :
      (k : Text) (i : ℕ)
      → (text_eq key k ≡ true) ⊎ (text_eq key k ≡ false)
      → lookup k (insert key m.next m.running) ≡ some i
      → All (IsOf k i) (insert key m.next m.running)
  started_once k i (inl same) e =
      let new : i ≡ m.next = ground (arith, lookup-insert key k m.next m.running) in
      rw new (
        insert-IsOf k key m.next m.next m.running (λ n. same)
          (old-IsOf k m.next m.running h.entries_old))
  started_once k i (inr other) e =
      let before : lookup k m.running ≡ some i =
        ground (arith, lookup-insert key k m.next m.running) in
      insert-IsOf k key i m.next m.running (λ n. absurd (ground (arith, old k i before)))
        (h.named_once k i before)

  removed_once :
      (k : Text) (i : ℕ)
      → lookup k (remove key m.running) ≡ some i
      → All (IsOf k i) (remove key m.running)
  removed_once k i e =
      unfold remove in
      keep-IsOf k i _ m.running (h.named_once k i (ground (arith, lookup-remove key k m.running)))

  started-Sound : Sound started
  unfolding started
  started-Sound = record {
    entry_live = λ k i e.
        unfold has_run in
        ground (arith, lookup-insert key k m.next m.running, h.entry_live k i, text_eq_iff key k);
    entry_uncancelled = λ k i e. ground (
      arith,
      lookup-insert key k m.next m.running,
      h.entry_uncancelled k i,
      h.cancelled_old m.next,
    );
    entries_old = insert_old m.next key m.running h.entries_old;
    cancelled_old = λ i e. ground (arith, h.cancelled_old i);
    distinct = λ k j i a b. ground (
      arith,
      lookup-insert key k m.next m.running,
      lookup-insert key j m.next m.running,
      h.distinct k j i,
      old k i,
      old j i,
      text_eq_iff key k,
      text_eq_iff key j,
    );
    named_once = λ k i e. started_once k i (Bool-cases (text_eq key k)) e;
  }

  lost_race : Sound (record m {
    built = drop_one key m.built;
    cancelled = cancel m.next m.cancelled;
    next = suc m.next;
  })
  lost_race = record {
    entry_live = h.entry_live;
    entry_uncancelled = λ k i e. ground (arith, h.entry_uncancelled k i, old k i);
    entries_old = suc_old m.next m.running h.entries_old;
    cancelled_old = λ i e. ground (arith, h.cancelled_old i);
    distinct = h.distinct;
    named_once = h.named_once;
  }

  on_finish-Sound : Sound (on_finish key m).0
  unfolding on_finish started
  on_finish-Sound = elim (Bool-cases (contains key m.built)) [
    | inr e ↦ rw e h
    | inl e ↦ elim (Bool-cases (is_some (lookup key m.running))) [
      | inl r ↦ rw (e, r) lost_race
      | inr r ↦ rw (e, r) started-Sound
    ]
  ]

  on_stop-Sound : Sound (on_stop key m)
  unfolding on_stop remove
  on_stop-Sound = record {
    entry_live = λ k i e. ground (arith, lookup-remove key k m.running, h.entry_live k i);
    entry_uncancelled = λ k i e. ground (
      arith,
      lookup-remove key k m.running,
      h.entry_uncancelled k i,
      h.distinct key k i,
      text_eq_iff key k,
    );
    entries_old = keep_old m.next _ m.running h.entries_old;
    cancelled_old = λ i e. ground (arith, h.cancelled_old i, old key i);
    distinct = λ k j i a b.
        ground
          (arith, lookup-remove key k m.running, lookup-remove key j m.running, h.distinct k j i);
    named_once = removed_once;
  }

  left : ℕ → AgentManager
  left n = record m {
    running = remove key m.running;
    live = keep (λ r. not (is_run key n r)) m.live;
  }

  left-Sound : (n : ℕ) → Sound (left n)
  unfolding left
  left-Sound n = record {
    entry_live = λ k i e.
        ground
          (arith, lookup-remove key k m.running, h.entry_live k i, has_run-keep key k n i m.live);
    entry_uncancelled =
        λ k i e. ground (arith, lookup-remove key k m.running, h.entry_uncancelled k i);
    entries_old = unfold remove in keep_old m.next _ m.running h.entries_old;
    cancelled_old = h.cancelled_old;
    distinct = λ k j i a b.
        ground
          (arith, lookup-remove key k m.running, lookup-remove key j m.running, h.distinct k j i);
    named_once = removed_once;
  }

  on_exit-Sound : (n : ℕ) → Sound (on_exit key n m)
  unfolding on_exit left
  on_exit-Sound n = elim (Bool-cases (has_run key n m.live)) [
    | inl e ↦ rw e (left-Sound n)
    | inr e ↦ rw e h
  ]

on_stop_all-Sound : (m : AgentManager) → Sound m → Sound (on_stop_all m)
unfolding on_stop_all lookup
on_stop_all-Sound m h = record {
  entry_live = λ k i e. cc;
  entry_uncancelled = λ k i e. cc;
  entries_old = tt;
  cancelled_old =
      λ i e. cancel_all_old m.next i m.running m.cancelled h.entries_old (h.cancelled_old i) e;
  distinct = λ k j i a b. cc;
  named_once = λ k i e. cc;
}

step-Sound : (e : Event) (m : AgentManager) → Sound m → Sound (step e m).0
unfolding step
step-Sound (register key) m h = carry (key ∷ m.factories) m.starting m.built m h
step-Sound (begin_start key) m h = on_begin-Sound key m h
step-Sound (factory_returns key b) m h = on_factory-Sound key b m h
step-Sound (finish_start key) m h = on_finish-Sound key m h
step-Sound (stop key) m h = on_stop-Sound key m h
step-Sound stop_all m h = on_stop_all-Sound m h
step-Sound (exit key i) m h = on_exit-Sound key m h i

-- In every interleaving of calls and runs, each entry of the map is the number of a run of its key
-- that goes on and was not cancelled, no number stands under two keys, and a cancelled number was
-- handed out: `Stop` never misses the run that the map names.
pub steps-Sound : (es : List Event) (m : AgentManager) → Sound m → Sound (steps es m)
unfolding steps
steps-Sound [] m h = h
steps-Sound (e ∷ es) m h = steps-Sound es (step e m).0 (step-Sound e m h)

pub new-Sound : Sound new_agent_manager
unfolding new_agent_manager lookup
new-Sound = record {
  entry_live = λ k i e. cc;
  entry_uncancelled = λ k i e. cc;
  entries_old = tt;
  cancelled_old = λ i e. cc;
  distinct = λ k j i a b. cc;
  named_once = λ k i e. cc;
}
