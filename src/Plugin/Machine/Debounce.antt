-- ===== src/Plugin/Machine/Debounce.antt =====
-- The completion debounce of state-machine.ts on one session.
use opencode_notify_hub.Shared.{
  ℕ, ◌-◌, ◌<◌, String, ◌≡◌, true, false, none, some, ◌∷◌, arith, is_none,
}
use opencode_notify_hub.Plugin.Machine.Timers.{
  set_timeout, task_of, clear_timeout, task_of-clear_timeout, task_of-set_timeout, beat,
}
use opencode_notify_hub.Plugin.Machine.State.{
  SessionStatus, TerminalOutcome, on_completed, Local, Options, elapsed_since, clear_idle, activate,
}
use opencode_notify_hub.Plugin.Machine.Session.{
  idle_fired, terminal_effect, on_terminal_signal, on_active, on_idle, arm_heartbeat,
}

module _ (options : Options) (id : String) (l : Local) (first : is_none l.state.idle_timer ≡ true)
    (unsent : l.state.terminal_sent ≡ false) where
  -- With no idle timer held and the terminal event not sent, the completion that fires after two
  -- idle signals carries the time from the round's start to the first of them, and nothing else is
  -- emitted.
  pub idle_fired-on_idle :
      (t u : ℕ)
      → (idle_fired id (on_idle options id u (on_idle options id t l))).emitted
        ≡ on_completed id (elapsed_since t l.state.busy_since) ∷ l.emitted
  unfolding idle_fired on_idle set_timeout
  idle_fired-on_idle t u = ground arith

  -- With no idle timer held and the terminal event not sent, a failure or stop that comes after an
  -- idle signal emits one terminal event, with the time from the round's start to the idle signal.
  pub on_terminal_signal-on_idle :
      (t u : ℕ) (outcome : TerminalOutcome)
      → (on_terminal_signal id u outcome (on_idle options id t l)).emitted
        ≡ terminal_effect id outcome (elapsed_since t l.state.busy_since) ∷ l.emitted
  unfolding on_terminal_signal on_idle set_timeout
  on_terminal_signal-on_idle t u outcome = ground arith

clear_idle-gone :
    (h : ℕ) (l : Local)
    → l.state.idle_timer ≡ some h
    → (task_of h (clear_idle l).scheduler ≡ none)
      × ((clear_idle l).scheduler.next ≡ l.scheduler.next)
unfolding clear_idle clear_timeout
clear_idle-gone h l e = ground (arith, task_of-clear_timeout h h l.scheduler)

module _ (options : Options) (id : String) where
  arm_heartbeat-gone :
      (h : ℕ) (l : Local)
      → h < l.scheduler.next
      → task_of h l.scheduler ≡ none
      → task_of h (arm_heartbeat options id l).scheduler ≡ none
  unfolding arm_heartbeat
  arm_heartbeat-gone h l lt gone =
      ground (arith, task_of-set_timeout h (beat id) options.heartbeat_ms l.scheduler)

  -- A busy or retry signal while an idle timer of the scheduler is held takes the timer out of the
  -- scheduler's table, and drops the handle and the snapshot.
  pub on_active-cancels :
      (now h : ℕ) (status : SessionStatus) (l : Local)
      → l.state.idle_timer ≡ some h
      → h < l.scheduler.next
      → (task_of h (on_active options id now status l).scheduler ≡ none)
        × ((on_active options id now status l).state.idle_timer ≡ none)
        × ((on_active options id now status l).state.pending_elapsed_ms ≡ none)
  unfolding on_active
  on_active-cancels now h status l e lt =
      let gone = clear_idle-gone h l e in
      let cleared = clear_idle l in
      (
        arm_heartbeat-gone h (record cleared { state = activate now status cleared.state })
            (ground (arith, gone.1)) gone.0,
        ground arith,
        ground arith,
      )

  -- With a round open since a time and its terminal event not sent, an idle signal after a busy or
  -- retry signal takes a new snapshot, which counts from the round's start.
  pub on_idle-on_active :
      (now later since : ℕ) (status : SessionStatus) (l : Local)
      → l.state.busy_since ≡ some since
      → l.state.terminal_sent ≡ false
      → (on_idle options id later (on_active options id now status l)).state.pending_elapsed_ms
        ≡ some (later - since)
  unfolding on_active on_idle set_timeout
  on_idle-on_active now later since status l e h = ground arith
