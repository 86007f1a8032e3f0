-- ===== src/Gateway/Instances/Pending.antt =====
-- What waits for a connection in instance-registry.ts, and its end when the connection drops.
use opencode_notify_hub.Shared.{ℕ, false, not, ◌&&◌, List, [], ◌∷◌, ◌==◌, if◌then◌else◌, keep}
use opencode_notify_hub.Shared.OrdMap.{OrdMap}
use opencode_notify_hub.Shared.Table.{Table}
use opencode_notify_hub.Gateway.Instances.State.{
  PendingKey, PendingSnapshotRequest, PendingCommand, WebUiTunnel, result_unknown,
  CommandOutcomeEntry, not_found, Call, resolves_catalog, resolves_snapshot, client_closes,
  InstanceRegistry, Surroundings,
}
use opencode_notify_hub.Gateway.Instances.Outcomes.{settle_outcome}
use opencode_notify_hub.Gateway.Instances.Presence.{others}

-- The loops of `disconnect`, each over what waits for the connection.
unfoldable pub drop_catalog_requests : ℕ → OrdMap ℕ → List Call → List Call
drop_catalog_requests uid [] calls = calls
drop_catalog_requests uid ((id, owner) ∷ m) calls =
    drop_catalog_requests uid m
      (if owner == uid then resolves_catalog id not_found ∷ calls else calls)

unfoldable pub drop_snapshots : ℕ → Table PendingKey PendingSnapshotRequest → List Call → List Call
drop_snapshots uid [] calls = calls
drop_snapshots uid ((key, pending) ∷ m) calls =
    drop_snapshots uid m
      (if pending.connection == uid then resolves_snapshot key [] ∷ calls else calls)

unfoldable pub settle_commands :
    ℕ
    → ℕ
    → Table PendingKey PendingCommand
    → OrdMap CommandOutcomeEntry
    → OrdMap CommandOutcomeEntry
unfolding settle_outcome
settle_commands now uid [] outcomes = outcomes
settle_commands now uid ((key, pending) ∷ m) outcomes = settle_commands now uid m (
    if pending.connection == uid
    then settle_outcome now pending.command_id result_unknown outcomes
    else outcomes)

unfoldable pub drop_tunnels : ℕ → OrdMap WebUiTunnel → List Call → List Call
drop_tunnels uid [] calls = calls
drop_tunnels uid ((id, tunnel) ∷ m) calls = drop_tunnels uid m (
    if tunnel.listed && (tunnel.connection == uid)
    then client_closes tunnel.client 1011 ∷ calls
    else calls)

unfoldable pub unlist : ℕ → OrdMap WebUiTunnel → OrdMap WebUiTunnel
unlist uid [] = []
unlist uid ((id, tunnel) ∷ m) =
    (id, if tunnel.connection == uid then record tunnel { listed = false } else tunnel)
    ∷ unlist uid m

unfoldable pub drop_pending : Surroundings → ℕ → InstanceRegistry → InstanceRegistry
unfolding others unlist drop_catalog_requests drop_snapshots settle_commands drop_tunnels
drop_pending s uid r = record r {
  connections = others uid r.connections;
  catalog_requests = keep (λ e. not (e.1 == uid)) r.catalog_requests;
  pending_requests = keep (λ e. not (e.1.connection == uid)) r.pending_requests;
  pending_answer_commands = keep (λ e. not (e.1.connection == uid)) r.pending_answer_commands;
  pending_decide_commands = keep (λ e. not (e.1.connection == uid)) r.pending_decide_commands;
  pending_prompt_commands = keep (λ e. not (e.1.connection == uid)) r.pending_prompt_commands;
  web_ui_tunnels = unlist uid r.web_ui_tunnels;
  command_outcomes =
      settle_commands s.now_ms uid r.pending_decide_commands
        (settle_commands s.now_ms uid r.pending_answer_commands r.command_outcomes);
  calls = drop_tunnels uid r.web_ui_tunnels (
      drop_snapshots uid r.pending_requests (drop_catalog_requests uid r.catalog_requests r.calls));
}
