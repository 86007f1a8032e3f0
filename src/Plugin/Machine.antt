-- ===== src/Plugin/Machine.antt =====
-- packages/plugin/src/state-machine.ts: the busy/idle machine of each session with its completion
-- debounce. A call of a callback is an `Effect` in `emitted`, the latest first; callbacks do not
-- call back into the machine, and all but the heartbeat's are given. The platform's timers are a table from handles to what the callback
-- does; which pending timer fires when is the environment's choice. `max(0, a - b)` is `a - b` on ℕ.
pub mod Timers
pub mod State
pub mod Session
pub mod Rounds
pub mod Debounce
pub mod Terminals
use opencode_notify_hub.Shared.{ℕ, String, Option, none, some, List, [], ◌∷◌, or_else}
use opencode_notify_hub.Shared.OrdMap.{OrdMap, get, set, delete, keys}
use Timers.{Scheduler, Task, idle_done, beat, clear_timeout, task_of}
use State.{
  SessionState, Options, Local, Effect, ProviderAction, question, permission, questions,
  permission_details, failed, stopped, fresh_state, dispose,
}
use Session.{
  on_busy, on_retry, on_asked, on_resolved, on_terminal_signal, on_idle, idle_fired,
  on_heartbeat_tick, flush,
}

pub record Machine : Type 0 where
  pub options : Options
  pub sessions : OrdMap SessionState
  pub scheduler : Scheduler
  pub emitted : List Effect

-- `stateFor`: the session's state, made on first use.
unfoldable pub state_for : String → Machine → SessionState
state_for id m = or_else (get id m.sessions) fresh_state

unfoldable pub on_session : String → (Local → Local) → Machine → Machine
unfolding state_for
on_session id f m =
    let l = f (record { state = state_for id m; scheduler = m.scheduler; emitted = m.emitted }) in
    record m { sessions = set id l.state m.sessions; scheduler = l.scheduler; emitted = l.emitted }

-- The calls of the plugin, and the timers that fire.
pub data Input : Type 0 where
  busy_signal idle_signal failed_signal stopped_signal : String → Input
  retry_signal : String → Option ProviderAction → Input
  question_asked : String → String → List String → Input
  permission_asked : String → String → String → String → Input
  question_resolved permission_resolved : String → String → Input
  timer_fires : ℕ → Input
  flush_pending_completions dispose_all : Input
  dispose_session : String → Input

module _ (digest : List String → String) where
  -- A timer leaves the table before its callback runs.
  unfoldable pub run_task : ℕ → Task → Machine → Machine
  run_task now (idle_done id) m = on_session id (idle_fired id) m
  run_task now (beat id) m = on_session id (on_heartbeat_tick m.options id now) m

  unfoldable pub fire : ℕ → ℕ → Machine → Machine
  unfolding run_task
  fire now h m = elim (task_of h m.scheduler) [
    | none ↦ m
    | some task ↦ run_task now task (record m { scheduler = clear_timeout h m.scheduler })
  ]

  unfoldable pub flush_each : List String → Machine → Machine
  flush_each [] m = m
  flush_each (id ∷ ids) m = flush_each ids (on_session id (flush id) m)

  unfoldable pub dispose_session_at : String → Machine → Machine
  dispose_session_at id m = elim (get id m.sessions) [
    | none ↦ record m { sessions = delete id m.sessions }
    | some s ↦
        let l = dispose (record { state = s; scheduler = m.scheduler; emitted = m.emitted }) in
        record m { sessions = delete id m.sessions; scheduler = l.scheduler; emitted = l.emitted }
  ]

  unfoldable pub dispose_each : List String → Machine → Machine
  unfolding dispose_session_at
  dispose_each [] m = m
  dispose_each (id ∷ ids) m = dispose_each ids (dispose_session_at id m)

  unfoldable pub step : ℕ → Input → Machine → Machine
  unfolding fire flush_each dispose_each
  step now (busy_signal id) m = on_session id (on_busy m.options id now) m
  step now (retry_signal id action) m = on_session id (on_retry m.options id digest now action) m
  step now (idle_signal id) m = on_session id (on_idle m.options id now) m
  step now (failed_signal id) m = on_session id (on_terminal_signal id now failed) m
  step now (stopped_signal id) m = on_session id (on_terminal_signal id now stopped) m
  step now (question_asked id request_id qs) m =
      on_session id (on_asked id question request_id (questions qs)) m
  step now (permission_asked id request_id p summary) m =
      on_session id (on_asked id permission request_id (permission_details p summary)) m
  step now (question_resolved id request_id) m =
      on_session id (on_resolved id question request_id) m
  step now (permission_resolved id request_id) m =
      on_session id (on_resolved id permission request_id) m
  step now (timer_fires h) m = fire now h m
  step now flush_pending_completions m = flush_each (keys m.sessions) m
  step now (dispose_session id) m = dispose_session_at id m
  step now dispose_all m = dispose_each (keys m.sessions) m
