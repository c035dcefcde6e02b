-- ===== src/Manager/Tests.antt =====
-- Runs of the agent manager.
use one_auth_watch.Prelude.{◌≡◌, refl, true, false, some, List, [], ◌∷◌, arith}
use one_auth_watch.Prelude.Text.{Text, codes, text_eq}
use one_auth_watch.Prelude.Maps.{lookup, insert, remove, text_key}
use one_auth_watch.Manager.Steps.{
  runner, AgentManager, Event, register, begin_start, finish_start, stop, factory_returns, stop_all,
  exit, new_agent_manager, contains, drop_one, has_run, is_running, on_begin, on_factory, on_finish,
  on_stop, step, steps,
}
use one_auth_watch.Manager.Safety.{Sound, steps-Sound, new-Sound}
use one_auth_watch.Manager.Lost.{IsLost, exit-IsLost, steps-IsLost}

abbrev codex : Text
codex = codes "codex"

abbrev start_codex : List Event
start_codex = begin_start codex ∷ factory_returns codex runner ∷ finish_start codex ∷ []

-- `restartCodexPolling`: a stop and a start, while the goroutine of the stopped run still ends.
abbrev restart_codex : List Event
restart_codex =
    register codex
    ∷ begin_start codex
    ∷ factory_returns codex runner
    ∷ finish_start codex
    ∷ stop codex
    ∷ start_codex

abbrev restarted : AgentManager
restarted = steps restart_codex new_agent_manager

restarted-Sound : Sound restarted
restarted-Sound = steps-Sound restart_codex new_agent_manager new-Sound

steps-Sound_example : Sound restarted
steps-Sound_example = steps-Sound restart_codex new_agent_manager new-Sound

restarted_entry : lookup codex restarted.running ≡ some 1
unfolding steps step new_agent_manager on_begin on_factory on_finish on_stop contains drop_one
    lookup insert remove text_eq
restarted_entry = refl

first_ends : has_run codex 0 restarted.live ≡ true
unfolding steps step new_agent_manager on_begin on_factory on_finish on_stop contains drop_one
    lookup insert remove text_eq has_run
first_ends = refl

exit-IsLost_example :
    (is_running codex (step (exit codex 0) restarted).0 ≡ false)
    × IsLost codex 1 (step (exit codex 0) restarted).0
exit-IsLost_example =
    exit-IsLost codex 0 1 restarted restarted-Sound restarted_entry first_ends (omega arith)

IsLost-codex : IsLost codex 1 (step (exit codex 0) restarted).0
IsLost-codex =
    (exit-IsLost codex 0 1 restarted restarted-Sound restarted_entry first_ends (omega arith)).1

abbrev restarted_again : List Event
restarted_again =
    stop codex
    ∷ begin_start codex
    ∷ factory_returns codex runner
    ∷ finish_start codex
    ∷ stop_all
    ∷ []

steps-IsLost_example : IsLost codex 1 (steps restarted_again (step (exit codex 0) restarted).0)
steps-IsLost_example =
    steps-IsLost codex 1 restarted_again (step (exit codex 0) restarted).0
      (tt, (tt, (tt, (tt, (tt, tt))))) IsLost-codex
