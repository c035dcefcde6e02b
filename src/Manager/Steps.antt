-- ===== src/Manager/Steps.antt =====
-- `AgentManager` as the steps of its goroutines. A run has a number, which stands for its context and
-- the cancel function of that context. `Start` holds the lock twice and calls the factory between, so
-- it is three steps; the last critical section of a run's goroutine is the step `exit`. Steps of
-- several calls and runs interleave in any order.
use one_auth_watch.Prelude.{
  ℕ, suc, Bool, false, not, ◌&&◌, ◌||◌, Option, none, some, List, [], ◌∷◌, ◌==◌, if◌then◌else◌,
  keep,
}
use one_auth_watch.Prelude.Text.{Text, text_eq}
use one_auth_watch.Prelude.Maps.{Assoc, lookup, insert, remove, text_key, is_some}

-- What a factory returns when it is called: the environment decides.
pub data Built : Type 0 where
  factory_error nil_runner runner : Built

pub record AgentManager : Type 0 where
  pub factories : List Text
  pub running : Assoc Text ℕ
  pub starting : List Text  -- the calls of `Start` that wait for their factory
  pub built : List Text  -- those that have a runner and wait for the second critical section
  pub live : List (Text × ℕ)  -- the goroutines of runs that have not left the map yet
  pub cancelled : ℕ → Bool
  pub next : ℕ

pub data Reply : Type 0 where
  done not_registered failed pending : Reply

pub data Event : Type 0 where
  register begin_start finish_start stop : Text → Event
  factory_returns : Text → Built → Event
  stop_all : Event
  exit : Text → ℕ → Event

unfoldable pub new_agent_manager : AgentManager
new_agent_manager = record {
  factories = [];
  running = [];
  starting = [];
  built = [];
  live = [];
  cancelled = λ i. false;
  next = 0;
}

unfoldable pub contains : Text → List Text → Bool
contains k [] = false
contains k (j ∷ js) = text_eq j k || contains k js

-- One occurrence less.
unfoldable pub drop_one : Text → List Text → List Text
drop_one k [] = []
drop_one k (j ∷ js) = if text_eq j k then js else j ∷ drop_one k js

abbrev pub is_run : Text → ℕ → Text × ℕ → Bool
is_run k i (j, n) = text_eq j k && n == i

unfoldable pub has_run : Text → ℕ → List (Text × ℕ) → Bool
has_run k i [] = false
has_run k i (r ∷ rs) = is_run k i r || has_run k i rs

abbrev pub cancel : ℕ → (ℕ → Bool) → ℕ → Bool
cancel i cancelled n = i == n || cancelled n

abbrev pub cancel_entry : Option ℕ → (ℕ → Bool) → ℕ → Bool
cancel_entry none cancelled = cancelled
cancel_entry (some i) cancelled = cancel i cancelled

unfoldable pub cancel_all : Assoc Text ℕ → (ℕ → Bool) → ℕ → Bool
cancel_all [] cancelled n = cancelled n
cancel_all ((k, i) ∷ m) cancelled n = i == n || cancel_all m cancelled n

unfoldable pub is_running : Text → AgentManager → Bool
is_running key m = is_some (lookup key m.running)

-- The first critical section of `Start`.
unfoldable pub on_begin : Text → AgentManager → AgentManager × Reply
unfolding is_running
on_begin key m =
    if is_running key m
    then (m, done)
    else if contains key m.factories
    then (record m { starting = key ∷ m.starting }, pending)
    else (m, not_registered)

abbrev pub keep_runner : Text → Built → AgentManager → AgentManager × Reply
keep_runner key runner m = (record m { built = key ∷ m.built }, pending)
keep_runner key factory_error m = (m, failed)
keep_runner key nil_runner m = (m, failed)

-- The call of the factory, with no lock held.
unfoldable pub on_factory : Text → Built → AgentManager → AgentManager × Reply
on_factory key outcome m =
    if contains key m.starting
    then keep_runner key outcome (record m { starting = drop_one key m.starting })
    else (m, pending)

-- The second one, for a call that got a runner: a lost race cancels the context that was made.
unfoldable pub on_finish : Text → AgentManager → AgentManager × Reply
unfolding is_running
on_finish key m =
    if not (contains key m.built)
    then (m, pending)
    else if is_running key m
    then (
      record m {
        built = drop_one key m.built;
        cancelled = cancel m.next m.cancelled;
        next = suc m.next;
      },
      done,
    )
    else (
      record m {
        built = drop_one key m.built;
        running = insert key m.next m.running;
        live = (key, m.next) ∷ m.live;
        next = suc m.next;
      },
      done,
    )

unfoldable pub on_stop : Text → AgentManager → AgentManager
on_stop key m = record m {
  running = remove key m.running;
  cancelled = cancel_entry (lookup key m.running) m.cancelled;
}

unfoldable pub on_stop_all : AgentManager → AgentManager
on_stop_all m = record m { running = []; cancelled = cancel_all m.running m.cancelled }

-- `delete(m.running, key)` at the end of a goroutine: by key, whichever run the entry is of.
unfoldable pub on_exit : Text → ℕ → AgentManager → AgentManager
on_exit key i m =
    if has_run key i m.live
    then record m { running = remove key m.running; live = keep (λ r. not (is_run key i r)) m.live }
    else m

unfoldable pub step : Event → AgentManager → AgentManager × Reply
step (register key) m = (record m { factories = key ∷ m.factories }, done)
step (begin_start key) m = on_begin key m
step (factory_returns key built) m = on_factory key built m
step (finish_start key) m = on_finish key m
step (stop key) m = (on_stop key m, done)
step stop_all m = (on_stop_all m, done)
step (exit key i) m = (on_exit key i m, done)

unfoldable pub steps : List Event → AgentManager → AgentManager
steps [] m = m
steps (e ∷ es) m = steps es (step e m).0
