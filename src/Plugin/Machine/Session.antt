-- ===== src/Plugin/Machine/Session.antt =====
-- The operations of state-machine.ts on one session.
use Prim.Native.String
use opencode_notify_hub.Shared.{
  ℕ, String, true, not, ◌||◌, Option, none, some, List, [], ◌∷◌, if◌then◌else◌, is_none, or_else,
}
use opencode_notify_hub.Shared.OrdMap.{get, set, delete}
use opencode_notify_hub.Plugin.Machine.Timers.{idle_done, beat, set_timeout}
use opencode_notify_hub.Plugin.Machine.State.{
  SessionStatus, busy, retry, idle, TerminalOutcome, completed, failed, stopped, ActionKind,
  provider_action, ProviderAction, Details, provider_details, Effect, on_completed, on_failed,
  on_stopped, on_heartbeat, on_action_required, on_action_resolved, Local, Options, emit,
  clear_idle, clear_heartbeat, elapsed_since, activate, is_some_provider_action,
  clear_pending_provider_action, action_key, is_some_kind, is_active, outranked,
}

module _ (session_id : String) where
  -- `onQuestionAsked` and `onPermissionAsked`, which differ in the kind and its details.
  unfoldable pub on_asked : ActionKind → String → Details → Local → Local
  on_asked kind request_id details l =
      if not (is_none (get (action_key kind request_id) l.state.pending_actions))
      then l
      else emit (on_action_required session_id request_id details) (record l {
        state = record l.state {
          pending_actions = set (action_key kind request_id) kind l.state.pending_actions;
        };
      })

  unfoldable pub on_resolved : ActionKind → String → Local → Local
  on_resolved kind request_id l =
      if not (is_some_kind kind (get (action_key kind request_id) l.state.pending_actions))
      then l
      else emit (on_action_resolved session_id request_id kind) (record l {
        state = record l.state {
          pending_actions = delete (action_key kind request_id) l.state.pending_actions;
        };
      })

  unfoldable pub complete_pending_idle : Local → Local
  complete_pending_idle l =
      if l.state.terminal_sent
      then l
      else emit (on_completed session_id (or_else l.state.pending_elapsed_ms 0)) (record l {
        state = record l.state {
          terminal_sent = true;
          terminal_outcome = some completed;
          busy_since = none;
          pending_actions = [];
          pending_elapsed_ms = none;
        };
      })

  -- The callback of the idle timer; its timer is no longer pending.
  unfoldable pub idle_fired : Local → Local
  unfolding complete_pending_idle
  idle_fired l = complete_pending_idle (record l { state = record l.state { idle_timer = none } })

  -- One session of `flushPendingCompletions`.
  unfoldable pub flush : Local → Local
  unfolding clear_idle complete_pending_idle
  flush l = if is_none l.state.idle_timer then l else complete_pending_idle (clear_idle l)

  abbrev pub terminal_effect : TerminalOutcome → ℕ → Effect
  terminal_effect failed elapsed = on_failed session_id elapsed
  terminal_effect stopped elapsed = on_stopped session_id elapsed
  terminal_effect completed elapsed = on_completed session_id elapsed

  -- `onFailed` and `onStopped`.
  unfoldable pub on_terminal_signal : ℕ → TerminalOutcome → Local → Local
  unfolding elapsed_since clear_idle clear_heartbeat outranked
  on_terminal_signal now outcome l =
      let elapsed_ms = or_else l.state.pending_elapsed_ms (elapsed_since now l.state.busy_since) in
      let cleared = clear_heartbeat (clear_idle l) in
      let settled = record cleared {
        state = record cleared.state {
          pending_elapsed_ms = none;
          busy_since = none;
          status = idle;
          pending_actions = [];
          terminal_outcome = some (outranked outcome cleared.state.terminal_outcome);
        };
      } in
      if settled.state.terminal_sent
      then settled
      else emit (terminal_effect outcome elapsed_ms)
          (record settled { state = record settled.state { terminal_sent = true } })

  -- SHA-256 of the canonical JSON of the identity fields, in hex: the hash and the encoding are the
  -- platform's.
  unfoldable pub provider_action_key : (List String → String) → ProviderAction → String
  provider_action_key digest a =
      String.◌++◌ "provider:"
        (digest (session_id ∷ a.provider ∷ or_else a.reason a.title ∷ a.label ∷ []))

  unfoldable pub on_provider_action : (List String → String) → ProviderAction → Local → Local
  unfolding clear_pending_provider_action
  on_provider_action digest a l =
      let request_id = provider_action_key digest a in
      if is_some_provider_action (get request_id l.state.pending_actions)
      then l
      else let cleared = clear_pending_provider_action l.state in
        emit
          (on_action_required session_id request_id
            (provider_details a.provider a.title a.message a.label a.link))
          (record l {
            state = record cleared {
              pending_actions = set request_id provider_action cleared.pending_actions;
            };
          })

module _ (options : Options) (session_id : String) where
  unfoldable pub arm_heartbeat : Local → Local
  arm_heartbeat l =
      if not options.has_heartbeat || not (is_none l.state.heartbeat_timer)
      then l
      else let (scheduler, handle) =
          set_timeout (beat session_id) options.heartbeat_ms l.scheduler in
        record l { state = record l.state { heartbeat_timer = some handle }; scheduler = scheduler }

  unfoldable pub on_active : ℕ → SessionStatus → Local → Local
  unfolding clear_idle activate arm_heartbeat
  on_active now status l =
      let cleared = clear_idle l in
      arm_heartbeat (record cleared { state = activate now status cleared.state })

  unfoldable pub on_busy : ℕ → Local → Local
  unfolding on_active clear_pending_provider_action
  on_busy now l =
      let active = on_active now busy l in
      record active { state = clear_pending_provider_action active.state }

  unfoldable pub on_retry : (List String → String) → ℕ → Option ProviderAction → Local → Local
  unfolding on_active on_provider_action
  on_retry digest now none l = on_active now retry l
  on_retry digest now (some a) l = on_provider_action session_id digest a (on_active now retry l)

  unfoldable pub on_idle : ℕ → Local → Local
  unfolding clear_heartbeat elapsed_since
  on_idle now l =
      let quiet = clear_heartbeat (record l { state = record l.state { status = idle } }) in
      if not (is_none quiet.state.idle_timer) || quiet.state.terminal_sent
      then quiet
      else let (scheduler, handle) =
          set_timeout (idle_done session_id) options.idle_debounce_ms quiet.scheduler in
        record quiet {
          state = record quiet.state {
            pending_elapsed_ms = some (elapsed_since now quiet.state.busy_since);
            idle_timer = some handle;
          };
          scheduler = scheduler;
        }

  -- The callback of the heartbeat timer; its timer is no longer pending.
  unfoldable pub on_heartbeat_tick : ℕ → Local → Local
  unfolding elapsed_since arm_heartbeat
  on_heartbeat_tick now l =
      let due = record l { state = record l.state { heartbeat_timer = none } } in
      if is_active due.state
      then arm_heartbeat (
          if options.has_heartbeat
          then emit
              (on_heartbeat session_id due.state.status (elapsed_since now due.state.busy_since))
              due
          else due)
      else due
