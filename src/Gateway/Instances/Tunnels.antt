-- ===== src/Gateway/Instances/Tunnels.antt =====
-- The WebUI tunnels of instance-registry.ts, from the frames of a client's socket to the plugin's
-- connection and back. A frame has been decoded and its fields checked for their form.
use opencode_notify_hub.Shared.{
  ℕ, String, Bool, true, false, not, ◌&&◌, ◌||◌, Option, none, some, List, [], ◌∷◌, ◌++◌, ltb, ◌==◌,
  if◌then◌else◌, keep,
}
use opencode_notify_hub.Shared.OrdMap.{get, set}
use opencode_notify_hub.Shared.Table.{find}
use opencode_notify_hub.Gateway.Connections.{ws_max_buffered_bytes}
use opencode_notify_hub.Gateway.Instances.State.{
  ControlConnection, RecordKey-discrete, InstanceRecord, HttpRequest, webui_http_request,
  webui_http_cancel, webui_tunnel_close, client_sends, client_closes, client_terminates,
  InstanceRegistry, Surroundings,
}
use opencode_notify_hub.Gateway.Instances.Keys.{Platform, record_key}
use opencode_notify_hub.Gateway.Instances.Presence.{call, same_text}
use opencode_notify_hub.Gateway.Instances.Links.{send}
use opencode_notify_hub.Gateway.Instances.Commands.{actionable}

-- A set of request ids.
abbrev pub holds : String → List String → Bool
holds id [] = false
holds id (j ∷ js) = same_text j id || holds id js

abbrev pub without : String → List String → List String
without id = keep (λ j. not (same_text j id))

-- What a client sends once its tunnel is open; `other` is a frame that is not well formed.
pub data WebUiFrame : Type 0 where
  cancels : String → String → WebUiFrame
  closes_tunnel : String → WebUiFrame
  requests : String → HttpRequest → WebUiFrame
  other : WebUiFrame

-- A plugin's `webui_http_response_start`, `_chunk` or `_end`.
pub record WebUiResponse : Type 0 where
  pub tunnel_id : String
  pub request_id : String
  pub is_end : Bool
  pub content : String

abbrev pub set_pending : String → List String → InstanceRegistry → InstanceRegistry
set_pending id pending r = elim (get id r.web_ui_tunnels) [
  | none ↦ r
  | some tunnel ↦ record r {
    web_ui_tunnels = set id (record tunnel { pending_requests = pending }) r.web_ui_tunnels;
  }
]

module _ (p : Platform) where
  -- `closeWebUiTunnel`
  unfoldable pub close_tunnel : Surroundings → String → InstanceRegistry → InstanceRegistry
  close_tunnel s id r = elim (get id r.web_ui_tunnels) [
    | none ↦ r
    | some tunnel ↦
        if not tunnel.listed
        then r
        else let unlisted = record r {
          web_ui_tunnels = set id (record tunnel { listed = false }) r.web_ui_tunnels;
        } in
          if s.sockets.is_open tunnel.connection
          then send p s tunnel.connection (webui_tunnel_close id) unlisted
          else unlisted
  ]

  abbrev pub tunnel_target : Surroundings → String → Option InstanceRecord → Option ℕ
  tunnel_target s user_id none = none
  tunnel_target s user_id (some rec) =
      if rec.registration.web_ui_available then actionable s user_id (some rec) else none

  -- The `webui_tunnel_open` frame of a client that has no tunnel yet: the tunnel's id, fresh from
  -- `randomUUID`, if there is one now.
  unfoldable pub open_tunnel :
      Surroundings
      → String
      → ℕ
      → String
      → String
      → InstanceRegistry
      → InstanceRegistry × Option String
  unfolding actionable
  open_tunnel s id client user_id instance_id r =
      elim (tunnel_target s user_id
        (find RecordKey-discrete (record_key user_id instance_id) r.records)) [
          | none ↦ (
            call (client_closes client 1008) (call (client_sends client "webui_tunnel_error") r),
            none,
          )
          | some uid ↦ (
            call (client_sends client "webui_tunnel_ready") (record r {
              web_ui_tunnels =
                  set id
                    (record {
                      listed = true;
                      user_id = user_id;
                      client = client;
                      connection = uid;
                      pending_requests = [];
                    })
                    r.web_ui_tunnels;
            }),
            some id,
          )
        ]

  -- `receiveWebUiRequest`, for the client's own tunnel.
  unfoldable pub receive_request :
      Surroundings → String → WebUiFrame → InstanceRegistry → InstanceRegistry
  unfolding close_tunnel
  receive_request s id frame r = elim (get id r.web_ui_tunnels) [
    | none ↦ r
    | some tunnel ↦ elim frame [
      | cancels tunnel_id request_id ↦
          if same_text tunnel_id id && holds request_id tunnel.pending_requests
          then send p s tunnel.connection (webui_http_cancel id request_id)
              (set_pending id (without request_id tunnel.pending_requests) r)
          else r
      | closes_tunnel tunnel_id ↦ if same_text tunnel_id id then close_tunnel s id r else r
      | requests tunnel_id request ↦
          if not (same_text tunnel_id id) || holds request.request_id tunnel.pending_requests
          then r
          else send p s tunnel.connection (webui_http_request id request)
              (set_pending id (tunnel.pending_requests ++ request.request_id ∷ []) r)
      | other ↦ r
    ]
  ]

  -- `handleWebUiResponse`
  unfoldable pub handle_response :
      Surroundings → ControlConnection → WebUiResponse → InstanceRegistry → InstanceRegistry
  unfolding close_tunnel
  handle_response s c m r = elim (get m.tunnel_id r.web_ui_tunnels) [
    | none ↦ r
    | some tunnel ↦
        if not tunnel.listed
          || not (tunnel.connection == c.uid)
          || not (holds m.request_id tunnel.pending_requests)
        then r
        else let answered =
            if m.is_end
            then set_pending m.tunnel_id (without m.request_id tunnel.pending_requests) r
            else r in
          if ltb ws_max_buffered_bytes (s.clients.buffered_amount tunnel.client)
          then call (client_terminates tunnel.client) (close_tunnel s m.tunnel_id answered)
          else if s.clients.throws tunnel.client
          then close_tunnel s m.tunnel_id answered
          else call (client_sends tunnel.client m.content) answered
  ]
