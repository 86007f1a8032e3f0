-- ===== src/Gateway/Instances/Snapshots.antt =====
-- What instance-registry.ts asks of the plugins: pending interactions and session catalogs. A request
-- id is fresh from `randomUUID`, an argument here. A promise that a call resolves is an entry of
-- `calls`; `collectPendingInteractions` joins its batches once each has been resolved.
use opencode_notify_hub.Shared.{
  ℕ, ◌+◌, String, not, ◌&&◌, none, some, List, [], ◌∷◌, map, if◌then◌else◌, is_none, keep,
}
use opencode_notify_hub.Shared.OrdMap.{OrdMap, get, set, keys}
use opencode_notify_hub.Shared.Table.{find, put, erase}
use opencode_notify_hub.Gateway.Instances.State.{
  RegisterMessage, ControlConnection, Identity, RecordKey-discrete, PendingKey, PendingKey-discrete,
  InstanceRecord, PendingInteraction, pending_snapshot_request, resolves_snapshot, InstanceRegistry,
  Surroundings,
}
use opencode_notify_hub.Gateway.Instances.Keys.{Platform, record_key}
use opencode_notify_hub.Gateway.Instances.Presence.{
  call, is_controllable, is_open_uid, same_text, values,
}
use opencode_notify_hub.Gateway.Instances.Links.{record_of, send}
use opencode_notify_hub.Gateway.Instances.Commands.{remember_stale, is_text}

-- `enrich`
unfoldable pub enrich : RegisterMessage → PendingInteraction → PendingInteraction
enrich m i = record i {
  instance_id = m.instance_id;
  machine = m.machine;
  project = m.project;
  directory = m.directory;
}

-- `applyProjection`: the interactions by request id, a later one in the place of an earlier.
unfoldable pub projection : List PendingInteraction → OrdMap Identity → OrdMap Identity
projection [] m = m
projection (i ∷ is) m =
    projection is (set i.request_id (record { kind = i.kind; session_id = i.session_id }) m)

unfoldable pub stale_after : ℕ → OrdMap Identity → List String → OrdMap ℕ → OrdMap ℕ
unfolding remember_stale
stale_after now incoming [] stale = stale
stale_after now incoming (id ∷ ids) stale =
    stale_after now incoming ids
      (if is_none (get id incoming) then remember_stale now id stale else stale)

unfoldable pub apply_projection : ℕ → List PendingInteraction → InstanceRecord → InstanceRecord
unfolding projection stale_after
apply_projection now interactions rec =
    let incoming = projection interactions [] in
    record rec {
      projected_requests = incoming;
      stale_requests = stale_after now incoming (keys rec.projected_requests) rec.stale_requests;
    }

-- `collectPendingInteractions`: the instances that are asked.
unfoldable pub targets : Surroundings → String → InstanceRegistry → List InstanceRecord
targets s user_id r =
    keep
      (λ rec.
        same_text rec.user_id user_id && is_controllable rec.state && is_open_uid s rec.connection)
      (values r.records)

-- The timer of a query.
unfoldable pub snapshot_timeout : PendingKey → InstanceRegistry → InstanceRegistry
snapshot_timeout key r = elim (find PendingKey-discrete key r.pending_requests) [
  | none ↦ r
  | some pending ↦
      call (resolves_snapshot key [])
        (record r { pending_requests = erase PendingKey-discrete key r.pending_requests })
]

module _ (p : Platform) where
  -- `queryPendingSnapshot`
  unfoldable pub query_pending_snapshot :
      Surroundings → String → InstanceRecord → InstanceRegistry → InstanceRegistry
  query_pending_snapshot s request_id rec r = elim rec.connection [
    | none ↦ r
    | some uid ↦ send p s uid (pending_snapshot_request request_id) (record r {
      pending_requests =
          put PendingKey-discrete (uid, request_id)
            (record { connection = uid; registration = rec.registration }) r.pending_requests;
    })
  ]

  -- Each target gets an id of its own.
  unfoldable pub query_each :
      Surroundings → (ℕ → String) → ℕ → List InstanceRecord → InstanceRegistry → InstanceRegistry
  unfolding query_pending_snapshot
  query_each s uuid n [] r = r
  query_each s uuid n (rec ∷ recs) r =
      query_each s uuid (n + 1) recs (query_pending_snapshot s (uuid n) rec r)

  unfoldable pub collect_pending_interactions :
      Surroundings → (ℕ → String) → String → InstanceRegistry → InstanceRegistry × List String
  unfolding targets query_each
  collect_pending_interactions s uuid user_id r = (
    query_each s uuid 0 (targets s user_id r) r,
    map (λ rec. rec.registration.instance_id) (targets s user_id r),
  )

  abbrev pub project :
      Surroundings
      → ControlConnection
      → List PendingInteraction
      → InstanceRegistry
      → InstanceRegistry
  project s c interactions r = elim (record_of p c r) [
    | none ↦ r
    | some rec ↦ record r {
      records =
          put RecordKey-discrete (record_key rec.user_id rec.registration.instance_id)
            (apply_projection s.now_ms interactions rec) r.records;
    }
  ]

  -- `handleSnapshotResponse`
  unfoldable pub handle_snapshot_response :
      Surroundings
      → ControlConnection
      → String
      → String
      → List PendingInteraction
      → InstanceRegistry
      → InstanceRegistry
  unfolding apply_projection enrich record_of
  handle_snapshot_response s c instance_id request_id interactions r =
      if not (is_text instance_id c.instance_id)
      then r
      else elim (find PendingKey-discrete (c.uid, request_id) r.pending_requests) [
        | none ↦ r
        | some pending ↦
            call
              (resolves_snapshot (c.uid, request_id)
                (map (enrich pending.registration) interactions))
              (project s c interactions (record r {
                pending_requests = erase PendingKey-discrete (c.uid, request_id) r.pending_requests;
              }))
      ]
