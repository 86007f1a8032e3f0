-- ===== src/Gateway/Instances/Prompts.antt =====
-- `sendSessionPrompt` of instance-registry.ts: a prompt for a session, which names no request.
use opencode_notify_hub.Shared.{
  ℕ, String, Bool, false, not, ◌&&◌, ◌||◌, none, some, [], ◌∷◌, ◌==◌, if◌then◌else◌,
}
use opencode_notify_hub.Shared.Table.{Table, find, put, erase}
use opencode_notify_hub.Gateway.Instances.State.{
  ControlConnection, RecordKey-discrete, PendingKey, PendingKey-discrete, PendingPromptCommand,
  session_prompt_command, InstanceRegistry, Surroundings,
}
use opencode_notify_hub.Gateway.Instances.Keys.{Platform, record_key}
use opencode_notify_hub.Gateway.Instances.Presence.{same_text}
use opencode_notify_hub.Gateway.Instances.Links.{send}
use opencode_notify_hub.Gateway.Instances.Commands.{
  Routed, refused, routed, not_found, conflict, actionable, is_text,
}

abbrev pub prompt_in_flight : ℕ → String → Table PendingKey PendingPromptCommand → Bool
prompt_in_flight uid command_id [] = false
prompt_in_flight uid command_id ((key, pending) ∷ m) =
    (pending.connection == uid && same_text pending.command_id command_id)
    || prompt_in_flight uid command_id m

-- `handleSessionPromptResult`, and the timer of a prompt.
unfoldable pub handle_prompt_result :
    ControlConnection → String → String → InstanceRegistry → InstanceRegistry
handle_prompt_result c instance_id command_id r =
    if not (is_text instance_id c.instance_id) then r else record r {
      pending_prompt_commands =
          erase PendingKey-discrete (c.uid, command_id) r.pending_prompt_commands;
    }

unfoldable pub prompt_timeout : PendingKey → InstanceRegistry → InstanceRegistry
prompt_timeout key r = record r {
  pending_prompt_commands = erase PendingKey-discrete key r.pending_prompt_commands;
}

module _ (p : Platform) where
  -- `sendSessionPrompt`: the command's body is the text, and it names no request.
  unfoldable pub send_session_prompt :
      Surroundings
      → String
      → String
      → String
      → String
      → String
      → InstanceRegistry
      → InstanceRegistry × Routed
  unfolding actionable
  send_session_prompt s user_id instance_id session_id command_id text r =
      elim (actionable s user_id
        (find RecordKey-discrete (record_key user_id instance_id) r.records)) [
          | none ↦ (r, refused not_found)
          | some uid ↦
              if prompt_in_flight uid command_id r.pending_prompt_commands
              then (r, refused conflict)
              else (
                send p s uid (session_prompt_command command_id session_id text) (record r {
                  pending_prompt_commands =
                      put PendingKey-discrete (uid, command_id)
                        (record {
                          connection = uid;
                          session_id = session_id;
                          command_id = command_id;
                        })
                        r.pending_prompt_commands;
                }),
                routed command_id,
              )
        ]
