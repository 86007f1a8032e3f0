-- ===== src/Gateway/Shutdown/Exits.antt =====
-- How often and with which code shutdown.ts exits.
use opencode_notify_hub.Shared.{
  ℕ, ◌≤◌, ◌≡◌, refl, Bool, true, false, not, ◌&&◌, List, [], ◌∷◌, arith, if◌then◌else◌, length,
}
use opencode_notify_hub.Gateway.Shutdown.{
  Running, not_running, closing_app, closing_database, over, GracefulShutdown, installed, shutdown,
  on_signal, app_closed, database_closed, backstop, uninstall,
}

-- What may run next, with whether every step that has settled was in order.
pub data Runs : GracefulShutdown → Bool → Type 0 where
  starts : Runs installed true
  calls : {g : GracefulShutdown} {fine : Bool} → Runs g fine → Runs (shutdown g) fine
  signals : {g : GracefulShutdown} {fine : Bool} → Runs g fine → Runs (on_signal g) fine
  detaches : {g : GracefulShutdown} {fine : Bool} → Runs g fine → Runs (uninstall g) fine
  drains :
      {g : GracefulShutdown} {fine : Bool} (ok : Bool)
      → g.running ≡ closing_app
      → Runs g fine
      → Runs (app_closed ok g) (fine && ok)
  ends :
      {g : GracefulShutdown} {fine : Bool} (failed ok : Bool)
      → g.running ≡ closing_database failed
      → Runs g fine
      → Runs (database_closed failed ok g) (fine && ok)
  times_out :
      {g : GracefulShutdown} {fine : Bool}
      → g.backstop_armed ≡ true
      → Runs g fine
      → Runs (backstop g) false

-- The exits that there may be at each point of the run.
abbrev Exited : Bool → Bool → List ℕ → Type 0
Exited false fine exits = exits ≡ []
Exited true fine exits = exits ≡ (if fine then 0 ∷ [] else 1 ∷ [])

abbrev Phase : Running → Bool → Bool → Bool → Type 0
Phase not_running settled armed fine = (settled ≡ false) × (armed ≡ false) × (fine ≡ true)
Phase closing_app settled armed fine = (armed ≡ not settled) × (fine ≡ not settled)
Phase (closing_database failed) settled armed fine =
    (armed ≡ not settled) × (fine ≡ (not settled && not failed))
Phase over settled armed fine = (settled ≡ true) × (armed ≡ false)

record Orderly (g : GracefulShutdown) (fine : Bool) : Type 0 where
  exited : Exited g.settled fine g.exits
  phase : Phase g.running g.settled g.backstop_armed fine

shutdown-Orderly : (g : GracefulShutdown) (fine : Bool) → Orderly g fine → Orderly (shutdown g) fine
unfolding shutdown
shutdown-Orderly g fine v = ground (arith, v.exited, v.phase)

on_signal-Orderly :
    (g : GracefulShutdown) (fine : Bool) → Orderly g fine → Orderly (on_signal g) fine
unfolding on_signal
on_signal-Orderly g fine v = ground (arith, v.exited, v.phase)

uninstall-Orderly :
    (g : GracefulShutdown) (fine : Bool) → Orderly g fine → Orderly (uninstall g) fine
unfolding uninstall
uninstall-Orderly g fine v = record { exited = v.exited; phase = v.phase }

database_closed-Orderly :
    (failed ok fine : Bool) (g : GracefulShutdown)
    → g.running ≡ closing_database failed
    → Orderly g fine
    → Orderly (database_closed failed ok g) (fine && ok)
unfolding database_closed
database_closed-Orderly failed ok fine g e v =
    let p : Phase (closing_database failed) g.settled g.backstop_armed fine = rw e at v.phase in
    ground (arith, v.exited, p)

app_closed-Orderly :
    (ok fine : Bool) (g : GracefulShutdown)
    → g.running ≡ closing_app
    → Orderly g fine
    → Orderly (app_closed ok g) (fine && ok)
unfolding app_closed
app_closed-Orderly ok fine g e v =
    let p : Phase closing_app g.settled g.backstop_armed fine = rw e at v.phase in
    ground (arith, v.exited, p)

backstop-Orderly :
    (fine : Bool) (g : GracefulShutdown)
    → g.backstop_armed ≡ true
    → Orderly g fine
    → Orderly (backstop g) false
unfolding backstop
backstop-Orderly fine g e v = ground (arith, v.exited, v.phase)

Runs-Orderly : (g : GracefulShutdown) (fine : Bool) → Runs g fine → Orderly g fine
Runs-Orderly g fine starts = record { exited = refl; phase = (refl, refl, refl) }
Runs-Orderly _ fine (calls {g} r) = shutdown-Orderly g fine (Runs-Orderly g fine r)
Runs-Orderly _ fine (signals {g} r) = on_signal-Orderly g fine (Runs-Orderly g fine r)
Runs-Orderly _ fine (detaches {g} r) = uninstall-Orderly g fine (Runs-Orderly g fine r)
Runs-Orderly _ _ (drains {g} {fine} ok e r) = app_closed-Orderly ok fine g e (Runs-Orderly g fine r)
Runs-Orderly _ _ (ends {g} {fine} failed ok e r) =
    database_closed-Orderly failed ok fine g e (Runs-Orderly g fine r)
Runs-Orderly _ _ (times_out {g} {fine} e r) = backstop-Orderly fine g e (Runs-Orderly g fine r)

-- In any order of calls, signals, settlements, the backstop and uninstalling, exit is called at
-- most once; when the sequence is over it has been called once, with code 0 if both steps succeeded
-- before the backstop and 1 if not.
pub exits_at_most_once :
    (g : GracefulShutdown) (fine : Bool)
    → Runs g fine
    → (length g.exits ≤ 1) × (g.running ≡ over → g.exits ≡ (if fine then 0 else 1) ∷ [])
exits_at_most_once g fine r =
    let v = Runs-Orderly g fine r in
    (
      ground (arith, v.exited),
      λ e.
          let p : Phase over g.settled g.backstop_armed fine = rw e at v.phase in
          ground (arith, v.exited, p),
    )
