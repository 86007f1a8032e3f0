-- ===== src/Gateway/Shutdown.antt =====
-- apps/gateway/src/shutdown.ts: the shutdown of the gateway, in pieces between its awaits. The
-- outcomes of `app.close` and `closeDatabase` and the time of the backstop are the environment's.
-- A call of `exit` is an entry of `exits`, the latest first; it returns, as a recorder in its place
-- does.
pub mod Exits
use opencode_notify_hub.Shared.{ℕ, Bool, true, false, not, ◌||◌, List, [], ◌∷◌, if◌then◌else◌}

abbrev pub forced_exit_timeout_ms : ℕ
forced_exit_timeout_ms = 10000

-- `running`: none yet, at one of its two awaits with what has failed so far, or over.
pub data Running : Type 0 where
  not_running : Running
  closing_app : Running
  closing_database : Bool → Running
  over : Running

pub record GracefulShutdown : Type 0 where
  pub running : Running
  pub settled : Bool
  pub listening : Bool
  pub backstop_armed : Bool
  pub exits : List ℕ

-- `installGracefulShutdown`, for an app that has none.
abbrev pub installed : GracefulShutdown
installed = record {
  running = not_running;
  settled = false;
  listening = true;
  backstop_armed = false;
  exits = [];
}

-- `shutdown`, up to its first await.
unfoldable pub shutdown : GracefulShutdown → GracefulShutdown
shutdown g = elim g.running [
  | not_running ↦ record g {
    running = closing_app;
    settled = false;
    listening = false;
    backstop_armed = true;
  }
  | closing_app ↦ g
  | closing_database failed ↦ g
  | over ↦ g
]

-- A signal reaches the handler while it listens.
unfoldable pub on_signal : GracefulShutdown → GracefulShutdown
unfolding shutdown
on_signal g = if g.listening then shutdown g else g

-- `app.close` has settled.
unfoldable pub app_closed : Bool → GracefulShutdown → GracefulShutdown
app_closed ok g = record g { running = closing_database (not ok) }

-- `exit` is called once, by whoever settles first.
unfoldable pub exit_once : ℕ → GracefulShutdown → GracefulShutdown
exit_once code g = if g.settled then g else record g { settled = true; exits = code ∷ g.exits }

-- `closeDatabase` has settled, after a drain that failed or not.
unfoldable pub database_closed : Bool → Bool → GracefulShutdown → GracefulShutdown
unfolding exit_once
database_closed failed ok g =
    exit_once (if failed || not ok then 1 else 0)
      (record g { running = over; backstop_armed = false })

-- The callback of the backstop.
unfoldable pub backstop : GracefulShutdown → GracefulShutdown
unfolding exit_once
backstop g = exit_once 1 (record g { backstop_armed = false })

unfoldable pub uninstall : GracefulShutdown → GracefulShutdown
uninstall g = record g { listening = false }
