-- ===== src/Gateway/Instances/Ownership/Queries.antt =====
-- The snapshots and catalogs that instance-registry.ts asks for keep its state sound.
use opencode_notify_hub.Shared.{
  ℕ, ◌+◌, String, refl, inl, inr, not, ◌&&◌, List, [], ◌∷◌, ◌==◌, if_either, Bool-cases,
  Option-cases,
}
use opencode_notify_hub.Shared.OrdMap.{get}
use opencode_notify_hub.Shared.Table.{find, erase}
use opencode_notify_hub.Gateway.Instances.State.{
  ControlConnection, RecordKey-discrete, InstanceRecord, InstanceRegistry, Surroundings, PendingKey,
  PendingKey-discrete, CatalogResult, PendingInteraction,
}
use opencode_notify_hub.Gateway.Instances.Keys.{Platform, record_key}
use opencode_notify_hub.Gateway.Instances.Links.{record_of}
use opencode_notify_hub.Gateway.Instances.Commands.{actionable, is_text}
use opencode_notify_hub.Gateway.Instances.Snapshots.{
  apply_projection, query_pending_snapshot, query_each, collect_pending_interactions, project,
  handle_snapshot_response, snapshot_timeout, targets,
}
use opencode_notify_hub.Gateway.Instances.Catalogs.{
  catalog_timeout, handle_catalog_response, collect_sessions,
}
use opencode_notify_hub.Gateway.Instances.Ownership.{Sound}
use opencode_notify_hub.Gateway.Instances.Ownership.After.{core_same}
use opencode_notify_hub.Gateway.Instances.Ownership.Updates.{soften_own-Sound}
use opencode_notify_hub.Gateway.Instances.Ownership.Connections.{send-Sound}

module _ (p : Platform) where
  query_pending_snapshot-Sound :
      (s : Surroundings) (request_id : String) (rec : InstanceRecord) (r : InstanceRegistry)
      → Sound p r
      → Sound p (query_pending_snapshot p s request_id rec r)
  unfolding query_pending_snapshot
  query_pending_snapshot-Sound s request_id rec r h = elim (Option-cases rec.connection) [
    | inl gone ↦ rw (gone, query_pending_snapshot) h
    | inr (uid, linked) ↦
        rw (linked, query_pending_snapshot)
          (send-Sound p s uid _ _ (core_same p r _ h refl refl refl))
  ]

  query_each-Sound :
      (s : Surroundings) (uuid : ℕ → String) (n : ℕ) (recs : List InstanceRecord)
      (r : InstanceRegistry)
      → Sound p r
      → Sound p (query_each p s uuid n recs r)
  unfolding query_each
  query_each-Sound s uuid n [] r h = h
  query_each-Sound s uuid n (rec ∷ recs) r h =
      query_each-Sound s uuid (n + 1) recs (query_pending_snapshot p s (uuid n) rec r)
        (query_pending_snapshot-Sound s (uuid n) rec r h)

  pub collect_pending_interactions-Sound :
      (s : Surroundings) (uuid : ℕ → String) (user_id : String) (r : InstanceRegistry)
      → Sound p r
      → Sound p (collect_pending_interactions p s uuid user_id r).0
  unfolding collect_pending_interactions
  collect_pending_interactions-Sound s uuid user_id r h =
      query_each-Sound s uuid 0 (targets s user_id r) r h

  pub snapshot_timeout-Sound :
      (key : PendingKey) (r : InstanceRegistry) → Sound p r → Sound p (snapshot_timeout key r)
  unfolding snapshot_timeout
  snapshot_timeout-Sound key r h =
      elim (Option-cases (find PendingKey-discrete key r.pending_requests)) [
        | inl absent ↦ rw (absent, snapshot_timeout) h
        | inr (pending, found) ↦ rw (found, snapshot_timeout) (core_same p r _ h refl refl refl)
      ]

  project-Sound :
      (s : Surroundings) (c : ControlConnection) (interactions : List PendingInteraction)
      (r : InstanceRegistry)
      → Sound p r
      → Sound p (project p s c interactions r)
  unfolding apply_projection
  project-Sound s c interactions r h = elim (Option-cases (record_of p c r)) [
    | inl free ↦ rw (free, project) h
    | inr (rec, holds) ↦
        rw (holds, project)
          (soften_own-Sound p c rec (apply_projection s.now_ms interactions rec) r _ h holds refl
            refl refl refl refl refl refl)
  ]

  pub handle_snapshot_response-Sound :
      (s : Surroundings) (c : ControlConnection) (instance_id request_id : String)
      (interactions : List PendingInteraction) (r : InstanceRegistry)
      → Sound p r
      → Sound p (handle_snapshot_response p s c instance_id request_id interactions r)
  unfolding handle_snapshot_response
  handle_snapshot_response-Sound s c instance_id request_id interactions r h =
      elim (Bool-cases (not (is_text instance_id c.instance_id))) [
        | inl foreign ↦ rw foreign h
        | inr own ↦
            rw own
              (elim (Option-cases
                (find PendingKey-discrete (c.uid, request_id) r.pending_requests)) [
                  | inl absent ↦ rw (absent, handle_snapshot_response) h
                  | inr (pending, found) ↦
                      rw (found, handle_snapshot_response)
                        (core_same p _ _
                          (project-Sound s c interactions
                            (record r {
                              pending_requests =
                                  erase PendingKey-discrete (c.uid, request_id) r.pending_requests;
                            })
                            (core_same p r _ h refl refl refl))
                          refl refl refl)
                ])
      ]

  pub catalog_timeout-Sound :
      (request_id : String) (r : InstanceRegistry)
      → Sound p r
      → Sound p (catalog_timeout request_id r)
  unfolding catalog_timeout
  catalog_timeout-Sound request_id r h = elim (Option-cases (get request_id r.catalog_requests)) [
    | inl absent ↦ rw (absent, catalog_timeout) h
    | inr (uid, found) ↦ rw (found, catalog_timeout) (core_same p r _ h refl refl refl)
  ]

  pub handle_catalog_response-Sound :
      (c : ControlConnection) (instance_id request_id : String) (result : CatalogResult)
      (r : InstanceRegistry)
      → Sound p r
      → Sound p (handle_catalog_response c instance_id request_id result r)
  unfolding handle_catalog_response
  handle_catalog_response-Sound c instance_id request_id result r h =
      elim (Option-cases (get request_id r.catalog_requests)) [
        | inl absent ↦ rw (absent, handle_catalog_response) h
        | inr (uid, found) ↦
            rw (found, handle_catalog_response)
              (if_either (Sound p) (uid == c.uid && is_text instance_id c.instance_id) _ _
                (core_same p r _ h refl refl refl) h)
      ]

  pub collect_sessions-Sound :
      (s : Surroundings) (request_id user_id instance_id query : String) (r : InstanceRegistry)
      → Sound p r
      → Sound p (collect_sessions p s request_id user_id instance_id query r).0
  unfolding collect_sessions
  collect_sessions-Sound s request_id user_id instance_id query r h =
      elim (Option-cases (
        actionable s user_id
          (find RecordKey-discrete (record_key user_id instance_id) r.records))) [
            | inl absent ↦ rw (absent, collect_sessions) h
            | inr (uid, there) ↦
                rw (there, collect_sessions)
                  (send-Sound p s uid _ _ (core_same p r _ h refl refl refl))
          ]
