-- ===== src/Tests/Shutdown.antt =====
-- apps/gateway/src/shutdown.ts: a drain that hangs is cut short.
use opencode_notify_hub.Shared.{◌≤◌, ◌≡◌, refl, true, false, [], ◌∷◌, length}
use opencode_notify_hub.Gateway.Shutdown.{
  GracefulShutdown, over, installed, shutdown, on_signal, app_closed, database_closed, backstop,
}
use opencode_notify_hub.Gateway.Shutdown.Exits.{
  Runs, starts, signals, drains, ends, times_out, exits_at_most_once,
}

abbrev late : GracefulShutdown
late = database_closed false true (app_closed true (backstop (on_signal installed)))

late_exits : late.exits ≡ 1 ∷ []
unfolding database_closed app_closed backstop on_signal shutdown
late_exits = refl

hung : Runs (database_closed false true (app_closed true (backstop (on_signal installed)))) false
unfolding database_closed app_closed backstop on_signal shutdown
hung = ends false true refl (drains true refl (times_out refl (signals starts)))

exits_at_most_once_example : (length late.exits ≤ 1) × (late.running ≡ over → late.exits ≡ 1 ∷ [])
exits_at_most_once_example = exits_at_most_once late false hung
