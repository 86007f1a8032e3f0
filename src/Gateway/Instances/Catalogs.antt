-- ===== src/Gateway/Instances/Catalogs.antt =====
-- `collectSessions` of instance-registry.ts: the session catalog of one instance.
use opencode_notify_hub.Shared.{String, ◌&&◌, Option, none, some, ◌==◌, if◌then◌else◌}
use opencode_notify_hub.Shared.OrdMap.{get, set, delete}
use opencode_notify_hub.Shared.Table.{find}
use opencode_notify_hub.Gateway.Instances.State.{
  ControlConnection, RecordKey-discrete, CatalogResult, timed_out, session_catalog_request,
  resolves_catalog, InstanceRegistry, Surroundings,
}
use opencode_notify_hub.Gateway.Instances.Keys.{Platform, record_key}
use opencode_notify_hub.Gateway.Instances.Presence.{call}
use opencode_notify_hub.Gateway.Instances.Links.{send}
use opencode_notify_hub.Gateway.Instances.Commands.{actionable, is_text}

unfoldable pub catalog_timeout : String → InstanceRegistry → InstanceRegistry
catalog_timeout request_id r = elim (get request_id r.catalog_requests) [
  | none ↦ r
  | some uid ↦
      call (resolves_catalog request_id timed_out)
        (record r { catalog_requests = delete request_id r.catalog_requests })
]

-- The branch of `receive` for a catalog response.
unfoldable pub handle_catalog_response :
    ControlConnection → String → String → CatalogResult → InstanceRegistry → InstanceRegistry
handle_catalog_response c instance_id request_id result r =
    elim (get request_id r.catalog_requests) [
      | none ↦ r
      | some uid ↦
          if uid == c.uid && is_text instance_id c.instance_id
          then call (resolves_catalog request_id result)
              (record r { catalog_requests = delete request_id r.catalog_requests })
          else r
    ]

module _ (p : Platform) where
  -- `collectSessions`: `none` when the instance is not there to ask.
  unfoldable pub collect_sessions :
      Surroundings
      → String
      → String
      → String
      → String
      → InstanceRegistry
      → InstanceRegistry × Option String
  unfolding actionable
  collect_sessions s request_id user_id instance_id query r =
      elim (actionable s user_id
        (find RecordKey-discrete (record_key user_id instance_id) r.records)) [
          | none ↦ (r, none)
          | some uid ↦ (
            send p s uid (session_catalog_request request_id query)
                (record r { catalog_requests = set request_id uid r.catalog_requests }),
            some request_id,
          )
        ]
