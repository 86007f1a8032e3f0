-- ===== src/Gateway/Instances/Forget.antt =====
-- `forgetOffline` of instance-registry.ts.
use opencode_notify_hub.Shared.{String, not, ◌||◌, none, some, if◌then◌else◌, is_none}
use opencode_notify_hub.Shared.Table.{find, erase}
use opencode_notify_hub.Gateway.Instances.State.{RecordKey-discrete, InstanceRegistry, Surroundings}
use opencode_notify_hub.Gateway.Instances.Keys.{record_key}
use opencode_notify_hub.Gateway.Instances.Presence.{is_offline, publish_snapshot}

pub data ForgetInstanceOutcome : Type 0 where
  deleted not_found not_offline : ForgetInstanceOutcome

unfoldable pub forget_offline :
    Surroundings → String → String → InstanceRegistry → InstanceRegistry × ForgetInstanceOutcome
forget_offline s user_id instance_id r =
    elim (find RecordKey-discrete (record_key user_id instance_id) r.records) [
      | none ↦ (r, not_found)
      | some rec ↦
          if not (is_offline rec.state) || not (is_none rec.connection) then (r, not_offline) else (
            publish_snapshot s user_id (record r {
              records = erase RecordKey-discrete (record_key user_id instance_id) r.records;
            }),
            deleted,
          )
    ]
