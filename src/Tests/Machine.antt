-- ===== src/Tests/Machine.antt =====
-- packages/plugin/src/state-machine.ts: a round of one session with a debounce of 30.
use opencode_notify_hub.Shared.{ℕ, ◌+◌, ◌≤◌, String, ◌≡◌, refl, false, some, List, [], ◌∷◌}
use opencode_notify_hub.Plugin.Machine.Timers.{set_timeout, idle_done}
use opencode_notify_hub.Plugin.Machine.State.{
  Options, Local, fresh_state, busy, failed, on_completed, idle, elapsed_since,
}
use opencode_notify_hub.Plugin.Machine.Session.{on_busy, on_idle, idle_fired, on_terminal_signal}
use opencode_notify_hub.Plugin.Machine.{
  Machine, busy_signal, idle_signal, timer_fires, Input, failed_signal,
}
use opencode_notify_hub.Plugin.Machine.Rounds.{starts, works, rests, IsRound, Reaches-IsRound, ends}
use opencode_notify_hub.Plugin.Machine.Debounce.{idle_fired-on_idle}
use opencode_notify_hub.Plugin.Machine.Terminals.{run, terminals, openings, terminals-run-le}

abbrev options : Options
options = record { idle_debounce_ms = 30; heartbeat_ms = 1000; has_heartbeat = false }

abbrev start : Local
start = record { state = fresh_state; scheduler = record { pending = []; next = 1 }; emitted = [] }

-- Busy since 100.
abbrev working : Local
working = record start { state = record fresh_state { status = busy; busy_since = some 100 } }

-- Idle at 150.
abbrev resting : Local
resting = on_idle options "s" 150 working

digest : List String → String
digest _ = "d"

completed_once : (idle_fired "s" resting).emitted ≡ on_completed "s" 50 ∷ []
unfolding on_idle idle_fired set_timeout
completed_once = refl

Reaches-IsRound_example :
    IsRound
      (on_terminal_signal "s" 160 failed
        (on_idle options "s" 150 (on_busy options "s" 100 start))).state
Reaches-IsRound_example =
    Reaches-IsRound options "s" digest
      (on_terminal_signal "s" 160 failed (on_idle options "s" 150 (on_busy options "s" 100 start)))
      (ends 160 failed (rests 150 (works 100 (starts refl))))

idle_fired-on_idle_example :
    (idle_fired "s" (on_idle options "s" 170 (on_idle options "s" 150 working))).emitted
    ≡ on_completed "s" 50 ∷ []
unfolding elapsed_since
idle_fired-on_idle_example = idle_fired-on_idle options "s" working refl refl 150 170

-- The debounce's timer has handle 1.
abbrev held : Local
held = record {
  state = record working.state { status = idle; idle_timer = some 1; pending_elapsed_ms = some 50 };
  scheduler = record {
    pending = (record { handle = 1; task = idle_done "s"; delay_ms = 30 }) ∷ [];
    next = 2;
  };
  emitted = [];
}

held_lem : resting ≡ held
unfolding on_idle set_timeout elapsed_since
held_lem = refl

abbrev machine : Machine
machine = record {
  options = options;
  sessions = [];
  scheduler = record { pending = []; next = 1 };
  emitted = [];
}

-- A round that ends by its debounce, and a late failure.
abbrev round : List (ℕ × Input)
round =
    (100, busy_signal "s")
    ∷ (150, idle_signal "s")
    ∷ (180, timer_fires 1)
    ∷ (190, failed_signal "s")
    ∷ []

terminals-run-le_example :
    terminals "s" (run digest "s" round machine).emitted
    ≤ terminals "s" [] + 1 + openings digest "s" round
terminals-run-le_example = terminals-run-le digest "s" round machine
