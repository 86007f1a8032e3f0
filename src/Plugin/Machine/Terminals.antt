-- ===== src/Plugin/Machine/Terminals.antt =====
-- The terminal events of state-machine.ts, over sequences of calls and timers.
use opencode_notify_hub.Shared.{
  ℕ, ◌+◌, ◌≤◌, String, ◌≡◌, refl, ◌∙◌, inl, inr, ite, Option, none, some, List, [], ◌∷◌, arith,
  if◌then◌else◌, Option-cases, String-discrete,
}
use opencode_notify_hub.Shared.OrdMap.{get, keys, get-set, get-delete}
use opencode_notify_hub.Plugin.Machine.Timers.{task_of, clear_timeout, Task, idle_done, beat}
use opencode_notify_hub.Plugin.Machine.State.{
  SessionStatus, busy, retry, TerminalOutcome, failed, stopped, ActionKind, question, permission,
  ProviderAction, Details, questions, permission_details, Effect, on_completed, on_failed,
  on_stopped, SessionState, Local, Options, fresh_state, dispose,
}
use opencode_notify_hub.Plugin.Machine.Session.{
  on_asked, on_resolved, idle_fired, flush, on_terminal_signal, on_provider_action, on_active,
  on_busy, on_retry, on_idle, on_heartbeat_tick,
}
use opencode_notify_hub.Plugin.Machine.{
  Machine, state_for, on_session, Input, busy_signal, idle_signal, failed_signal, stopped_signal,
  retry_signal, question_asked, permission_asked, question_resolved, permission_resolved,
  timer_fires, flush_pending_completions, dispose_all, dispose_session, run_task, fire, flush_each,
  dispose_session_at, dispose_each, step,
}

abbrev only : String → String → ℕ → ℕ
only k id n = ite (String-discrete id k) n 0

-- How many of the effects are terminal events of the session.
abbrev terminal : String → Effect → ℕ
terminal k (on_completed id elapsed) = only k id 1
terminal k (on_failed id elapsed) = only k id 1
terminal k (on_stopped id elapsed) = only k id 1
terminal k _ = 0

unfoldable pub terminals : String → List Effect → ℕ
terminals k [] = 0
terminals k (e ∷ es) = terminal k e + terminals k es

-- A round that has not ended may still emit one.
abbrev pub credit : SessionState → ℕ
credit s = if s.terminal_sent then 0 else 1

-- An operation on session `id` that emits no terminal without using up the round.
abbrev Spends : ℕ → String → String → (Local → Local) → Type 0
Spends n k id f =
    (l : Local)
    → terminals k (f l).emitted + only k id (credit (f l).state)
      ≤ terminals k l.emitted + only k id (credit l.state) + only k id n

module _ (k id : String) where
  on_asked-Spends :
      (kind : ActionKind) (request_id : String) (details : Details)
      → Spends 0 k id (on_asked id kind request_id details)
  unfolding on_asked terminals
  on_asked-Spends kind request_id details l = ground arith

  on_resolved-Spends :
      (kind : ActionKind) (request_id : String) → Spends 0 k id (on_resolved id kind request_id)
  unfolding on_resolved terminals
  on_resolved-Spends kind request_id l = ground arith

  idle_fired-Spends : Spends 0 k id (idle_fired id)
  unfolding idle_fired terminals
  idle_fired-Spends l = ground arith

  flush-Spends : Spends 0 k id (flush id)
  unfolding flush terminals
  flush-Spends l = ground arith

  on_terminal_signal-Spends :
      (now : ℕ) (outcome : TerminalOutcome) → Spends 0 k id (on_terminal_signal id now outcome)
  unfolding on_terminal_signal terminals
  on_terminal_signal-Spends now outcome l = ground arith

  on_active-Spends :
      (options : Options) (now : ℕ) (status : SessionStatus)
      → Spends 1 k id (on_active options id now status)
  unfolding on_active terminals
  on_active-Spends options now status l = ground arith

  on_busy-Spends : (options : Options) (now : ℕ) → Spends 1 k id (on_busy options id now)
  unfolding on_busy terminals
  on_busy-Spends options now l = ground (arith, on_active-Spends options now busy l)

  on_provider_action-Spends :
      (digest : List String → String) (a : ProviderAction)
      → Spends 0 k id (on_provider_action id digest a)
  unfolding on_provider_action terminals
  on_provider_action-Spends digest a l = ground arith

  Spends-then :
      (n : ℕ) (f g : Local → Local)
      → Spends n k id f
      → Spends 0 k id g
      → Spends n k id (λ l. g (f l))
  Spends-then n f g p q l = ground (arith, p l, q (f l))

  on_retry-Spends :
      (options : Options) (digest : List String → String) (now : ℕ) (a : Option ProviderAction)
      → Spends 1 k id (on_retry options id digest now a)
  unfolding on_retry
  on_retry-Spends options digest now none l = on_active-Spends options now retry l
  on_retry-Spends options digest now (some a) l =
      Spends-then 1 (on_active options id now retry) (on_provider_action id digest a)
        (on_active-Spends options now retry) (on_provider_action-Spends digest a) l

  on_idle-Spends : (options : Options) (now : ℕ) → Spends 0 k id (on_idle options id now)
  unfolding on_idle terminals
  on_idle-Spends options now l = ground arith

  on_heartbeat_tick-Spends :
      (options : Options) (now : ℕ) → Spends 0 k id (on_heartbeat_tick options id now)
  unfolding on_heartbeat_tick terminals
  on_heartbeat_tick-Spends options now l = ground arith

-- What session `k` has emitted, and may still emit in its round.
abbrev budget : String → Machine → ℕ
budget k m = terminals k m.emitted + credit (state_for k m)

budget-on_session :
    (n : ℕ) (k id : String) (f : Local → Local) (m : Machine)
    → Spends n k id f
    → budget k (on_session id f m) ≤ budget k m + only k id n
unfolding on_session state_for
budget-on_session n k id f m h = ground (
  arith,
  h (record { state = state_for id m; scheduler = m.scheduler; emitted = m.emitted }),
  get-set k id
      (f (record { state = state_for id m; scheduler = m.scheduler; emitted = m.emitted })).state
      m.sessions,
)

module _ (digest : List String → String) (k : String) where
  budget-run_task :
      (now : ℕ) (task : Task) (m : Machine) → budget k (run_task digest now task m) ≤ budget k m
  unfolding run_task
  budget-run_task now (idle_done id) m =
      ground (arith, budget-on_session 0 k id (idle_fired id) m (idle_fired-Spends k id))
  budget-run_task now (beat id) m = ground (
    arith,
    budget-on_session 0 k id (on_heartbeat_tick m.options id now) m
        (on_heartbeat_tick-Spends k id m.options now),
  )

  budget-fire : (now h : ℕ) (m : Machine) → budget k (fire digest now h m) ≤ budget k m
  unfolding fire state_for
  budget-fire now h m = elim (Option-cases (task_of h m.scheduler)) [
    | inl gone ↦ rw (gone, fire) (omega arith)
    | inr (task, due) ↦
        rw (due, fire)
          (budget-run_task now task (record m { scheduler = clear_timeout h m.scheduler }))
  ]

  budget-flush_each :
      (ids : List String) (m : Machine) → budget k (flush_each digest ids m) ≤ budget k m
  unfolding flush_each
  budget-flush_each [] m = omega arith
  budget-flush_each (id ∷ ids) m = ground (
    arith,
    budget-on_session 0 k id (flush id) m (flush-Spends k id),
    budget-flush_each ids (on_session id (flush id) m),
  )

  emitted-dispose : (l : Local) → (dispose l).emitted ≡ l.emitted
  unfolding dispose
  emitted-dispose l = ground arith

  -- A disposal emits nothing, and leaves the other sessions as they are.
  dispose_session_at-others :
      (id : String) (m : Machine)
      → ((dispose_session_at digest id m).emitted ≡ m.emitted)
        × (state_for k (dispose_session_at digest id m)
            ≡ ite (String-discrete id k) fresh_state (state_for k m))
  unfolding dispose_session_at state_for
  dispose_session_at-others id m = elim (Option-cases (get id m.sessions)) [
    | inl gone ↦ rw (gone, dispose_session_at) (refl, ground (arith, get-delete k id m.sessions))
    | inr (s, found) ↦
        rw (found, dispose_session_at)
          (emitted-dispose _, ground (arith, get-delete k id m.sessions))
  ]

  terminals-dispose_each :
      (ids : List String) (m : Machine) → (dispose_each digest ids m).emitted ≡ m.emitted
  unfolding dispose_each
  terminals-dispose_each [] m = refl
  terminals-dispose_each (id ∷ ids) m =
      terminals-dispose_each ids (dispose_session_at digest id m)
      ∙ (dispose_session_at-others id m).0

  -- A busy or retry signal of the session may open a round; a disposal forgets the round.
  abbrev pub opens : Input → ℕ
  opens (busy_signal id) = only k id 1
  opens (retry_signal id action) = only k id 1
  opens (dispose_session id) = only k id 1
  opens dispose_all = 1
  opens _ = 0

  credit-le : (s : SessionState) → credit s ≤ 1
  credit-le s = ground arith

  budget-dispose_session_at :
      (id : String) (m : Machine)
      → budget k (dispose_session_at digest id m) ≤ budget k m + only k id 1
  budget-dispose_session_at id m = ground (arith, dispose_session_at-others id m)

  opens_none : {x : ℕ} (y : ℕ) (id : String) → x ≤ y + only k id 0 → x ≤ y + 0
  opens_none y id h = ground arith

  budget-step :
      (now : ℕ) (i : Input) (m : Machine) → budget k (step digest now i m) ≤ budget k m + opens i
  unfolding step
  budget-step now (busy_signal id) m =
      budget-on_session 1 k id _ m (on_busy-Spends k id m.options now)
  budget-step now (retry_signal id action) m =
      budget-on_session 1 k id _ m (on_retry-Spends k id m.options digest now action)
  budget-step now (idle_signal id) m =
      opens_none (budget k m) id (budget-on_session 0 k id _ m (on_idle-Spends k id m.options now))
  budget-step now (failed_signal id) m =
      opens_none (budget k m) id
        (budget-on_session 0 k id _ m (on_terminal_signal-Spends k id now failed))
  budget-step now (stopped_signal id) m =
      opens_none (budget k m) id
        (budget-on_session 0 k id _ m (on_terminal_signal-Spends k id now stopped))
  budget-step now (question_asked id request_id qs) m =
      opens_none (budget k m) id
        (budget-on_session 0 k id _ m (on_asked-Spends k id question request_id (questions qs)))
  budget-step now (permission_asked id request_id p summary) m = opens_none (budget k m) id (
      budget-on_session 0 k id _ m
        (on_asked-Spends k id permission request_id (permission_details p summary)))
  budget-step now (question_resolved id request_id) m =
      opens_none (budget k m) id
        (budget-on_session 0 k id _ m (on_resolved-Spends k id question request_id))
  budget-step now (permission_resolved id request_id) m =
      opens_none (budget k m) id
        (budget-on_session 0 k id _ m (on_resolved-Spends k id permission request_id))
  budget-step now (timer_fires h) m = omega (arith, budget-fire now h m)
  budget-step now flush_pending_completions m = omega (arith, budget-flush_each (keys m.sessions) m)
  budget-step now (dispose_session id) m = budget-dispose_session_at id m
  budget-step now dispose_all m = ground (arith, terminals-dispose_each (keys m.sessions) m)

  unfoldable pub run : List (ℕ × Input) → Machine → Machine
  run [] m = m
  run ((now, i) ∷ is) m = run is (step digest now i m)

  abbrev pub openings : List (ℕ × Input) → ℕ
  openings [] = 0
  openings ((now, i) ∷ is) = opens i + openings is

  budget-run :
      (is : List (ℕ × Input)) (m : Machine) → budget k (run is m) ≤ budget k m + openings is
  unfolding run
  budget-run [] m = omega arith
  budget-run ((now, i) ∷ is) m =
      omega (arith, budget-step now i m, budget-run is (step digest now i m))

  -- Over any sequence of calls and timers on any machine, a session emits at most one more terminal
  -- event than it gets busy and retry signals and disposals.
  pub terminals-run-le :
      (is : List (ℕ × Input)) (m : Machine)
      → terminals k (run is m).emitted ≤ terminals k m.emitted + 1 + openings is
  terminals-run-le is m = omega (arith, budget-run is m, credit-le (state_for k m))
