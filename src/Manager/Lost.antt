-- ===== src/Manager/Lost.antt =====
-- A run that the map loses: when, and that it stays lost.
use one_auth_watch.Prelude.{
  inl, inr, Bool-cases, ℕ, ◌<◌, ◌≡◌, ◌≢◌, Bool, true, false, not, ◌&&◌, some, List, [], ◌∷◌, arith,
  ◌==◌, keep, All,
}
use one_auth_watch.Prelude.Text.{Text, text_eq, text_eq_iff, text_eq_refl}
use one_auth_watch.Prelude.Maps.{Assoc, lookup, insert, remove, text_key, lookup-remove}
use one_auth_watch.Manager.Steps.{
  Built, factory_error, nil_runner, runner, AgentManager, Event, register, begin_start,
  finish_start, stop, factory_returns, stop_all, exit, contains, drop_one, is_run, has_run,
  cancel_entry, cancel_all, is_running, keep_runner, on_begin, on_factory, on_finish, on_stop,
  on_stop_all, on_exit, step, steps,
}
use one_auth_watch.Manager.Entries.{IsOf, lookup_old}
use one_auth_watch.Manager.Safety.{Sound}

abbrev pub IsOther : ℕ → Text × ℕ → Type 0
IsOther i e = (e.1 == i) ≡ false

-- The run `i` of `key` goes on, was not cancelled, and no entry of the map names it.
pub record IsLost (key : Text) (i : ℕ) (m : AgentManager) : Type 0 where
  pub goes_on : has_run key i m.live ≡ true
  pub uncancelled : m.cancelled i ≡ false
  pub unnamed : All (IsOther i) m.running
  pub handed_out : i < m.next

insert-IsOther :
    (i n : ℕ) (k : Text) (m : Assoc Text ℕ)
    → i < n
    → All (IsOther i) m
    → All (IsOther i) (insert k n m)
unfolding insert
insert-IsOther i n k [] lt h = (ground arith, tt)
insert-IsOther i n k ((j, x) ∷ m) lt h = ground (arith, insert-IsOther i n k m lt h.1)

keep-IsOther :
    (i : ℕ) (p : Text × ℕ → Bool) (m : Assoc Text ℕ)
    → All (IsOther i) m
    → All (IsOther i) (keep p m)
keep-IsOther i p [] h = tt
keep-IsOther i p (e ∷ m) h = ground (arith, keep-IsOther i p m h.1)

lookup-other :
    (i : ℕ) (k : Text) (m : Assoc Text ℕ)
    → All (IsOther i) m
    → (cancelled : ℕ → Bool) → cancelled i ≡ false
    → cancel_entry (lookup k m) cancelled i ≡ false
unfolding lookup
lookup-other i k [] h cancelled c = c
lookup-other i k ((j, x) ∷ m) h cancelled c = ground (arith, lookup-other i k m h.1 cancelled c)

cancel_all-other :
    (i : ℕ) (m : Assoc Text ℕ) (cancelled : ℕ → Bool)
    → All (IsOther i) m
    → cancelled i ≡ false
    → cancel_all m cancelled i ≡ false
unfolding cancel_all
cancel_all-other i [] cancelled h c = c
cancel_all-other i ((k, x) ∷ m) cancelled h c = ground (arith, cancel_all-other i m cancelled h.1 c)

has_run-keep_other :
    (k j : Text) (n i : ℕ) (rs : List (Text × ℕ))
    → (text_eq k j && n == i) ≡ false
    → has_run j i rs ≡ true
    → has_run j i (keep (λ r. not (is_run k n r)) rs) ≡ true
unfolding has_run
has_run-keep_other k j n i [] ne h = h
has_run-keep_other k j n i ((l, x) ∷ rs) ne h = ground (
  arith,
  has_run-keep_other k j n i rs ne,
  text_eq_iff l k,
  text_eq_iff l j,
  text_eq_iff k j,
  text_eq_refl k,
)

-- The event is not the end of the run.
abbrev pub NotExit : Text → ℕ → Event → Type 0
NotExit key i (exit k n) = (text_eq k key && n == i) ≡ false
NotExit key i (register k) = Unit
NotExit key i (begin_start k) = Unit
NotExit key i (finish_start k) = Unit
NotExit key i (stop k) = Unit
NotExit key i (factory_returns k b) = Unit
NotExit key i stop_all = Unit

module _ (key : Text) (i : ℕ) where
  same_runs :
      (factories starting built : List Text) (m : AgentManager)
      → IsLost key i m
      → IsLost key i (record m { factories = factories; starting = starting; built = built })
  same_runs factories starting built m h = record {
    goes_on = h.goes_on;
    uncancelled = h.uncancelled;
    unnamed = h.unnamed;
    handed_out = h.handed_out;
  }

  on_begin-IsLost : (k : Text) (m : AgentManager) → IsLost key i m → IsLost key i (on_begin k m).0
  unfolding on_begin
  on_begin-IsLost k m h = elim (Bool-cases (is_running k m)) [
    | inl e ↦ rw e h
    | inr e ↦ elim (Bool-cases (contains k m.factories)) [
      | inl c ↦ rw (e, c) (same_runs m.factories (k ∷ m.starting) m.built m h)
      | inr c ↦ rw (e, c) h
    ]
  ]

  keep_runner-IsLost :
      (k : Text) (b : Built) (m : AgentManager)
      → IsLost key i m
      → IsLost key i (keep_runner k b m).0
  keep_runner-IsLost k factory_error m h = h
  keep_runner-IsLost k nil_runner m h = h
  keep_runner-IsLost k runner m h = same_runs m.factories m.starting (k ∷ m.built) m h

  on_factory-IsLost :
      (k : Text) (b : Built) (m : AgentManager) → IsLost key i m → IsLost key i (on_factory k b m).0
  unfolding on_factory
  on_factory-IsLost k b m h = elim (Bool-cases (contains k m.starting)) [
    | inl e ↦
        rw e (keep_runner-IsLost k b _ (same_runs m.factories (drop_one k m.starting) m.built m h))
    | inr e ↦ rw e h
  ]

  on_finish-IsLost : (k : Text) (m : AgentManager) → IsLost key i m → IsLost key i (on_finish k m).0
  unfolding on_finish has_run
  on_finish-IsLost k m h = ground (
    arith,
    h.goes_on,
    h.uncancelled,
    h.unnamed,
    h.handed_out,
    insert-IsOther i m.next k m.running h.handed_out h.unnamed,
  )

  on_stop-IsLost : (k : Text) (m : AgentManager) → IsLost key i m → IsLost key i (on_stop k m)
  unfolding on_stop
  on_stop-IsLost k m h = record {
    goes_on = h.goes_on;
    uncancelled = lookup-other i k m.running h.unnamed m.cancelled h.uncancelled;
    unnamed = unfold remove in keep-IsOther i _ m.running h.unnamed;
    handed_out = h.handed_out;
  }

  on_stop_all-IsLost : (m : AgentManager) → IsLost key i m → IsLost key i (on_stop_all m)
  unfolding on_stop_all
  on_stop_all-IsLost m h = record {
    goes_on = h.goes_on;
    uncancelled = cancel_all-other i m.running m.cancelled h.unnamed h.uncancelled;
    unnamed = tt;
    handed_out = h.handed_out;
  }

  on_exit-IsLost :
      (k : Text) (n : ℕ) (m : AgentManager)
      → (text_eq k key && n == i) ≡ false
      → IsLost key i m
      → IsLost key i (on_exit k n m)
  unfolding on_exit
  on_exit-IsLost k n m ne h = elim (Bool-cases (has_run k n m.live)) [
    | inl e ↦ rw e (record {
      goes_on = has_run-keep_other k key n i m.live ne h.goes_on;
      uncancelled = h.uncancelled;
      unnamed = unfold remove in keep-IsOther i _ m.running h.unnamed;
      handed_out = h.handed_out;
    })
    | inr e ↦ rw e h
  ]

  step-IsLost :
      (e : Event) (m : AgentManager) → NotExit key i e → IsLost key i m → IsLost key i (step e m).0
  unfolding step
  step-IsLost (register k) m ne h = same_runs (k ∷ m.factories) m.starting m.built m h
  step-IsLost (begin_start k) m ne h = on_begin-IsLost k m h
  step-IsLost (factory_returns k b) m ne h = on_factory-IsLost k b m h
  step-IsLost (finish_start k) m ne h = on_finish-IsLost k m h
  step-IsLost (stop k) m ne h = on_stop-IsLost k m h
  step-IsLost stop_all m ne h = on_stop_all-IsLost m h
  step-IsLost (exit k n) m ne h = on_exit-IsLost k n m ne h

-- A lost run stays lost until it ends by itself: no `Stop`, `StopAll` or `Start`, of any keys and in
-- any order, cancels it or puts it back into the map.
pub steps-IsLost :
    (key : Text) (i : ℕ) (es : List Event) (m : AgentManager)
    → All (NotExit key i) es
    → IsLost key i m
    → IsLost key i (steps es m)
unfolding steps
steps-IsLost key i [] m ne h = h
steps-IsLost key i (e ∷ es) m ne h =
    steps-IsLost key i es (step e m).0 ne.1 (step-IsLost key i e m ne.0 h)

others_unnamed :
    (k : Text) (i : ℕ) (m : Assoc Text ℕ) → All (IsOf k i) m → All (IsOther i) (remove k m)
unfolding remove
others_unnamed k i [] h = tt
others_unnamed k i ((j, x) ∷ m) h = ground (arith, others_unnamed k i m h.1)

-- Where a stopped run of `key` is still ending when a newer one is in the map, the end of the old
-- run loses the newer one: `IsRunning` then says that nothing runs, and the newer run is lost.
pub exit-IsLost :
    (key : Text) (stale fresh : ℕ) (m : AgentManager)
    → Sound m
    → lookup key m.running ≡ some fresh
    → has_run key stale m.live ≡ true
    → stale ≢ fresh
    → (is_running key (step (exit key stale) m).0 ≡ false)
      × IsLost key fresh (step (exit key stale) m).0
unfolding step on_exit is_running
exit-IsLost key stale fresh m h e ending ne = rw ending (
  rw (lookup-remove, text_eq_refl),
  record {
    goes_on =
        has_run-keep_other key key stale fresh m.live (ground arith) (h.entry_live key fresh e);
    uncancelled = h.entry_uncancelled key fresh e;
    unnamed = others_unnamed key fresh m.running (h.named_once key fresh e);
    handed_out = lookup_old key fresh m.next m.running h.entries_old e;
  },
)
