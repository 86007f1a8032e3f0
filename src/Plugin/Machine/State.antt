-- ===== src/Plugin/Machine/State.antt =====
-- One session of state-machine.ts: its state, and the steps on it that operations share.
use Prim.Native.String
use opencode_notify_hub.Shared.{
  ℕ, ◌-◌, String, Bool, true, false, not, Option, none, some, List, [], ◌∷◌, ltb, if◌then◌else◌,
  is_none, keep,
}
use opencode_notify_hub.Shared.OrdMap.{OrdMap}
use opencode_notify_hub.Plugin.Machine.Timers.{Scheduler, clear_timeout}

pub data SessionStatus : Type 0 where
  busy retry idle : SessionStatus

pub data TerminalOutcome : Type 0 where
  completed failed stopped : TerminalOutcome

unfoldable pub outcome_rank : TerminalOutcome → ℕ
outcome_rank completed = 1
outcome_rank failed = 2
outcome_rank stopped = 3

pub data ActionKind : Type 0 where
  question permission provider_action : ActionKind

pub record ProviderAction : Type 0 where
  pub provider : String
  pub title : String
  pub message : String
  pub label : String
  pub link : Option String
  pub reason : Option String

-- What an action asks for: the questions as texts, a permission with its summary, or a provider's
-- action (whose `reason` is never emitted).
pub data Details : Type 0 where
  questions : List String → Details
  permission_details : String → String → Details
  provider_details : String → String → String → String → Option String → Details

pub data Effect : Type 0 where
  on_completed on_failed on_stopped : String → ℕ → Effect
  on_heartbeat : String → SessionStatus → ℕ → Effect
  on_action_required : String → String → Details → Effect
  on_action_resolved : String → String → ActionKind → Effect

pub record SessionState : Type 0 where
  pub status : SessionStatus
  pub busy_since : Option ℕ
  pub idle_timer : Option ℕ
  pub pending_elapsed_ms : Option ℕ
  pub heartbeat_timer : Option ℕ
  pub terminal_sent : Bool
  pub terminal_outcome : Option TerminalOutcome
  pub pending_actions : OrdMap ActionKind

abbrev pub fresh_state : SessionState
fresh_state = record {
  status = idle;
  busy_since = none;
  idle_timer = none;
  pending_elapsed_ms = none;
  heartbeat_timer = none;
  terminal_sent = false;
  terminal_outcome = none;
  pending_actions = [];
}

-- What an operation on one session reads and writes.
pub record Local : Type 0 where
  pub state : SessionState
  pub scheduler : Scheduler
  pub emitted : List Effect

abbrev pub emit : Effect → Local → Local
emit e l = record l { emitted = e ∷ l.emitted }

-- `clearTimeout` and `null`, for a timer that is set.
unfoldable pub clear_idle : Local → Local
clear_idle l = elim l.state.idle_timer [
  | none ↦ l
  | some h ↦ record l {
    state = record l.state { idle_timer = none };
    scheduler = clear_timeout h l.scheduler;
  }
]

unfoldable pub clear_heartbeat : Local → Local
clear_heartbeat l = elim l.state.heartbeat_timer [
  | none ↦ l
  | some h ↦ record l {
    state = record l.state { heartbeat_timer = none };
    scheduler = clear_timeout h l.scheduler;
  }
]

-- `busySince === null ? 0 : Math.max(0, now - busySince)`
unfoldable pub elapsed_since : ℕ → Option ℕ → ℕ
elapsed_since now none = 0
elapsed_since now (some since) = now - since

-- The options of the machine that its sessions read: the delays, and whether a heartbeat callback
-- was given.
pub record Options : Type 0 where
  pub idle_debounce_ms : ℕ
  pub heartbeat_ms : ℕ
  pub has_heartbeat : Bool

-- The state changes of `onActive` between the timers: a fresh round resets the terminal state.
unfoldable pub activate : ℕ → SessionStatus → SessionState → SessionState
activate now status s =
    if is_none s.busy_since
    then record s {
      pending_elapsed_ms = none;
      busy_since = some now;
      terminal_sent = false;
      terminal_outcome = none;
      status = status;
    }
    else record s { pending_elapsed_ms = none; status = status }

abbrev pub is_provider_action : ActionKind → Bool
is_provider_action question = false
is_provider_action permission = false
is_provider_action provider_action = true

unfoldable pub clear_pending_provider_action : SessionState → SessionState
clear_pending_provider_action s = record s {
  pending_actions = keep (λ entry. not (is_provider_action entry.1)) s.pending_actions;
}

abbrev pub is_some_provider_action : Option ActionKind → Bool
is_some_provider_action none = false
is_some_provider_action (some kind) = is_provider_action kind

unfoldable pub action_key : ActionKind → String → String
action_key question request_id = String.◌++◌ "question:" request_id
action_key permission request_id = String.◌++◌ "permission:" request_id
action_key provider_action request_id = request_id

abbrev pub same_kind : ActionKind → ActionKind → Bool
same_kind question question = true
same_kind permission permission = true
same_kind provider_action provider_action = true
same_kind _ _ = false

abbrev pub is_some_kind : ActionKind → Option ActionKind → Bool
is_some_kind kind none = false
is_some_kind kind (some found) = same_kind kind found

abbrev pub is_active : SessionState → Bool
is_active s = elim s.busy_since [
  | none ↦ false
  | some since ↦ elim s.status [ idle ↦ false | busy ↦ true | retry ↦ true ]
]

-- The recorded outcome: the higher rank wins.
unfoldable pub outranked : TerminalOutcome → Option TerminalOutcome → TerminalOutcome
unfolding outcome_rank
outranked outcome none = outcome
outranked outcome (some old) =
    if ltb (outcome_rank old) (outcome_rank outcome) then outcome else old

-- `disposeSession`, for a session that is there: the record is dropped by the machine.
unfoldable pub dispose : Local → Local
unfolding clear_idle clear_heartbeat
dispose l = clear_heartbeat (clear_idle l)
