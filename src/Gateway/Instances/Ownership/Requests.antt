-- ===== src/Gateway/Instances/Ownership/Requests.antt =====
-- What instance-registry.ts asks of the plugins keeps its state sound.
use opencode_notify_hub.Shared.{
  ℕ, String, refl, inl, inr, not, some, if_either, Bool-cases, Option-cases,
}
use opencode_notify_hub.Shared.Table.{find, erase}
use opencode_notify_hub.Gateway.Instances.State.{
  ControlConnection, RecordKey-discrete, InstanceRecord, InstanceRegistry, Surroundings, Options,
  Kind, question, permission, PendingKey, PendingKey-discrete, CommandOutcomeStatus, PendingCommand,
}
use opencode_notify_hub.Gateway.Instances.Keys.{Platform, record_key}
use opencode_notify_hub.Gateway.Instances.Links.{record_of}
use opencode_notify_hub.Gateway.Instances.Commands.{
  Command, Routed, actionable, refusal_of, in_flight, commands, with_commands, dispatch, route,
  resolve_request, handle_result, command_timeout, command_message, is_text, is_confirmed,
}
use opencode_notify_hub.Gateway.Instances.Prompts.{
  prompt_in_flight, send_session_prompt, handle_prompt_result,
}
use opencode_notify_hub.Gateway.Instances.Ownership.{Sound, Table}
use opencode_notify_hub.Gateway.Instances.Ownership.After.{core_same}
use opencode_notify_hub.Gateway.Instances.Ownership.Updates.{soften_own-Sound}
use opencode_notify_hub.Gateway.Instances.Ownership.Connections.{send-Sound}

module _ (p : Platform) where
  with_commands-Sound :
      (kind : Kind) (m : Table PendingKey PendingCommand) (r : InstanceRegistry)
      → Sound p r
      → Sound p (with_commands kind m r)
  with_commands-Sound question m r h = core_same p r _ h refl refl refl
  with_commands-Sound permission m r h = core_same p r _ h refl refl refl

  dispatch-Sound :
      (o : Options) (s : Surroundings) (kind : Kind) (c : Command) (rec : InstanceRecord) (uid : ℕ)
      (r : InstanceRegistry)
      → Sound p r
      → Sound p (dispatch p o s kind c rec uid r)
  unfolding dispatch
  dispatch-Sound o s kind c rec uid r h =
      send-Sound p s uid (command_message kind c.command_id c.request_id c.session_id c.body) _
        (with_commands-Sound kind _ _ (core_same p r _ h refl refl refl))

  pub route-Sound :
      (o : Options) (s : Surroundings) (kind : Kind) (c : Command) (r : InstanceRegistry)
      → Sound p r
      → Sound p (route p o s kind c r).0
  unfolding route
  route-Sound o s kind c r h =
      elim (Option-cases (find RecordKey-discrete (record_key c.user_id c.instance_id) r.records)) [
        | inl absent ↦ rw (absent, route) h
        | inr (rec, found) ↦ elim (Option-cases (actionable s c.user_id (some rec))) [
          | inl gone ↦ rw (found, route) (rw (gone, route) h)
          | inr (uid, there) ↦ elim (Option-cases (refusal_of kind c rec)) [
            | inr (refusal, is) ↦ rw (found, route) (rw (there, route) (rw (is, route) h))
            | inl passed ↦
                rw (found, route)
                  (rw (there, route)
                    (rw (passed, route)
                      (if_either (λ (x : InstanceRegistry × Routed). Sound p x.0)
                        (in_flight uid c.request_id c.command_id (commands kind r)) _ _ h
                        (dispatch-Sound o s kind c rec uid r h))))
          ]
        ]
      ]

  pub send_session_prompt-Sound :
      (s : Surroundings) (user_id instance_id session_id command_id text : String)
      (r : InstanceRegistry)
      → Sound p r
      → Sound p (send_session_prompt p s user_id instance_id session_id command_id text r).0
  unfolding send_session_prompt
  send_session_prompt-Sound s user_id instance_id session_id command_id text r h =
      elim (Option-cases (
        actionable s user_id
          (find RecordKey-discrete (record_key user_id instance_id) r.records))) [
            | inl absent ↦ rw (absent, send_session_prompt) h
            | inr (uid, there) ↦
                rw (there, send_session_prompt)
                  (if_either (λ (x : InstanceRegistry × Routed). Sound p x.0)
                    (prompt_in_flight uid command_id r.pending_prompt_commands) _ _ h
                    (send-Sound p s uid _ _ (core_same p r _ h refl refl refl)))
          ]

  resolve_request-Sound :
      (s : Surroundings) (c : ControlConnection) (request_id : String) (r : InstanceRegistry)
      → Sound p r
      → Sound p (resolve_request p s c request_id r)
  unfolding resolve_request
  resolve_request-Sound s c request_id r h = elim (Option-cases (record_of p c r)) [
    | inl free ↦ rw (free, resolve_request) h
    | inr (rec, holds) ↦
        rw (holds, resolve_request)
          (soften_own-Sound p c rec _ r _ h holds refl refl refl refl refl refl refl)
  ]

  pub handle_result-Sound :
      (s : Surroundings) (kind : Kind) (c : ControlConnection) (instance_id command_id : String)
      (status : CommandOutcomeStatus) (r : InstanceRegistry)
      → Sound p r
      → Sound p (handle_result p s kind c instance_id command_id status r)
  unfolding handle_result
  handle_result-Sound s kind c instance_id command_id status r h =
      elim (Bool-cases (not (is_text instance_id c.instance_id))) [
        | inl foreign ↦ rw foreign h
        | inr own ↦
            rw own
              (elim (Option-cases
                (find PendingKey-discrete (c.uid, command_id) (commands kind r))) [
                  | inl absent ↦ rw (absent, handle_result) h
                  | inr (pending, found) ↦
                      rw (found, handle_result)
                        (let taken =
                            with_commands-Sound kind
                              (erase PendingKey-discrete (c.uid, command_id) (commands kind r)) r
                              h in
                          core_same p _ _
                            (if_either (Sound p) (is_confirmed status) _ _
                              (resolve_request-Sound s c pending.request_id _ taken) taken)
                            refl refl refl)
                ])
      ]

  pub command_timeout-Sound :
      (s : Surroundings) (kind : Kind) (key : PendingKey) (r : InstanceRegistry)
      → Sound p r
      → Sound p (command_timeout s kind key r)
  unfolding command_timeout
  command_timeout-Sound s kind key r h =
      elim (Option-cases (find PendingKey-discrete key (commands kind r))) [
        | inl absent ↦ rw (absent, command_timeout) h
        | inr (pending, found) ↦
            rw (found, command_timeout)
              (with_commands-Sound kind _ _ (core_same p r _ h refl refl refl))
      ]

  pub handle_prompt_result-Sound :
      (c : ControlConnection) (instance_id command_id : String) (r : InstanceRegistry)
      → Sound p r
      → Sound p (handle_prompt_result c instance_id command_id r)
  unfolding handle_prompt_result
  handle_prompt_result-Sound c instance_id command_id r h =
      if_either (Sound p) _ _ _ h (core_same p r _ h refl refl refl)
