-- ===== src/Plugin/Machine/Timers.antt =====
-- The timers that state-machine.ts asks of its scheduler: `setTimeout` gives a handle that was never
-- given before, `clearTimeout` of a handle that is not pending does nothing.
use opencode_notify_hub.Shared.{
  ℕ, ◌+◌, String, ◌≡◌, refl, not, Option, none, some, List, [], ◌∷◌, arith, ◌==◌, if◌then◌else◌,
  keep,
}

-- The callbacks that the machine hands to `setTimeout`, each with the session that it captures.
pub data Task : Type 0 where
  idle_done beat : String → Task

pub record Timer : Type 0 where
  pub handle : ℕ
  pub task : Task
  pub delay_ms : ℕ

pub record Scheduler : Type 0 where
  pub next : ℕ
  pub pending : List Timer

abbrev pub no_timers : Scheduler
no_timers = record { next = 0; pending = [] }

unfoldable pub set_timeout : Task → ℕ → Scheduler → Scheduler × ℕ
set_timeout task delay s = (
  record {
    next = s.next + 1;
    pending = (record { handle = s.next; task = task; delay_ms = delay }) ∷ s.pending;
  },
  s.next,
)

unfoldable pub clear_timeout : ℕ → Scheduler → Scheduler
clear_timeout h s = record s { pending = keep (λ t. not (t.handle == h)) s.pending }

-- What the timer of a handle will do, while it is pending.
abbrev pub task_in : ℕ → List Timer → Option Task
task_in h [] = none
task_in h (t ∷ ts) = if t.handle == h then some t.task else task_in h ts

unfoldable pub task_of : ℕ → Scheduler → Option Task
task_of h s = task_in h s.pending

task_in-clear :
    (h k : ℕ) (ts : List Timer)
    → task_in h (keep (λ t. not (t.handle == k)) ts) ≡ (if k == h then none else task_in h ts)
task_in-clear h k [] = ground arith
task_in-clear h k (t ∷ ts) = ground (arith, task_in-clear h k ts)

pub task_of-clear_timeout :
    (h k : ℕ) (s : Scheduler)
    → task_of h (clear_timeout k s) ≡ (if k == h then none else task_of h s)
unfolding task_of clear_timeout
task_of-clear_timeout h k s = task_in-clear h k s.pending

pub task_of-set_timeout :
    (h : ℕ) (task : Task) (delay : ℕ) (s : Scheduler)
    → task_of h (set_timeout task delay s).0 ≡ (if s.next == h then some task else task_of h s)
unfolding task_of set_timeout
task_of-set_timeout h task delay s = refl
