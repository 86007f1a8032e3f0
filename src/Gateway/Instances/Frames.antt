-- ===== src/Gateway/Instances/Frames.antt =====
-- `receive` of instance-registry.ts. A frame that does not decode or validate is `none`: the JSON
-- parser and the schema validator are the platform's.
use opencode_notify_hub.Shared.{String, true, not, Option, none, some, List, if◌then◌else◌, is_none}
use opencode_notify_hub.Gateway.Instances.State.{
  control_close_invalid_frame, RegisterMessage, ControlConnection, Kind, PendingInteraction,
  CatalogResult, CommandOutcomeStatus, closes, InstanceRegistry, Surroundings,
}
use opencode_notify_hub.Gateway.Instances.Keys.{Platform}
use opencode_notify_hub.Gateway.Instances.Presence.{call}
use opencode_notify_hub.Gateway.Instances.Links.{disconnect}
use opencode_notify_hub.Gateway.Instances.Register.{amend, register}
use opencode_notify_hub.Gateway.Instances.Commands.{handle_result}
use opencode_notify_hub.Gateway.Instances.Prompts.{handle_prompt_result}
use opencode_notify_hub.Gateway.Instances.Snapshots.{handle_snapshot_response}
use opencode_notify_hub.Gateway.Instances.Catalogs.{handle_catalog_response}
use opencode_notify_hub.Gateway.Instances.Tunnels.{WebUiResponse, handle_response}

-- `PluginControlClientMessage`: an answer's fields are the instance, the request or command, the rest.
pub data ClientMessage : Type 0 where
  registers : RegisterMessage → ClientMessage
  session_catalog_response : String → String → CatalogResult → ClientMessage
  pending_snapshot_response : String → String → List PendingInteraction → ClientMessage
  command_result : Kind → String → String → CommandOutcomeStatus → ClientMessage
  session_prompt_result : String → String → ClientMessage
  webui_http_response : WebUiResponse → ClientMessage

module _ (p : Platform) where
  unfoldable pub handle_message :
      Surroundings → ControlConnection → ClientMessage → InstanceRegistry → InstanceRegistry
  unfolding register handle_result handle_prompt_result handle_snapshot_response
      handle_catalog_response handle_response
  handle_message s c (registers m) r =
      if not (is_none c.instance_id)
      then call (closes c.uid control_close_invalid_frame) (disconnect p s c.uid r)
      else register p s c m r
  handle_message s c (session_catalog_response instance_id request_id result) r =
      handle_catalog_response c instance_id request_id result r
  handle_message s c (pending_snapshot_response instance_id request_id interactions) r =
      handle_snapshot_response p s c instance_id request_id interactions r
  handle_message s c (command_result kind instance_id command_id status) r =
      handle_result p s kind c instance_id command_id status r
  handle_message s c (session_prompt_result instance_id command_id) r =
      handle_prompt_result c instance_id command_id r
  handle_message s c (webui_http_response m) r = handle_response p s c m r

  unfoldable pub receive :
      Surroundings → ControlConnection → Option ClientMessage → InstanceRegistry → InstanceRegistry
  unfolding handle_message amend
  receive s c none r =
      call (closes c.uid control_close_invalid_frame)
        (disconnect p s c.uid (amend c.uid (λ c. record c { alive = true }) r))
  receive s c (some m) r = handle_message s c m (amend c.uid (λ c. record c { alive = true }) r)
