-- ===== src/Gateway/Instances/Ownership/Frames.antt =====
-- The tunnels and the frames of instance-registry.ts keep its state sound.
use opencode_notify_hub.Shared.{
  ℕ, String, ◌≡◌, refl, inl, inr, true, not, ◌&&◌, ◌||◌, Option, none, some, List, [], ◌∷◌, ◌++◌,
  ltb, ◌==◌, if_either, Option-cases,
}
use opencode_notify_hub.Shared.OrdMap.{get}
use opencode_notify_hub.Shared.Table.{find}
use opencode_notify_hub.Gateway.Instances.State.{
  ControlConnection, RecordKey-discrete, InstanceRegistry, Surroundings, WebUiTunnel,
  RegisterMessage,
}
use opencode_notify_hub.Gateway.Connections.{ws_max_buffered_bytes}
use opencode_notify_hub.Gateway.Instances.Keys.{Platform, record_key}
use opencode_notify_hub.Gateway.Instances.Presence.{same_text}
use opencode_notify_hub.Gateway.Instances.Tunnels.{
  WebUiFrame, WebUiResponse, cancels, closes_tunnel, requests, other, set_pending, close_tunnel,
  open_tunnel, tunnel_target, receive_request, handle_response, holds, without,
}
use opencode_notify_hub.Gateway.Instances.Frames.{
  ClientMessage, registers, session_catalog_response, pending_snapshot_response, command_result,
  session_prompt_result, webui_http_response, handle_message, receive,
}
use opencode_notify_hub.Gateway.Instances.Ownership.{Sound}
use opencode_notify_hub.Gateway.Instances.Ownership.After.{core_same}
use opencode_notify_hub.Gateway.Instances.Ownership.Register.{Present, register-Sound}
use opencode_notify_hub.Gateway.Instances.Ownership.Updates.{amend-Sound, amend-Present}
use opencode_notify_hub.Gateway.Instances.Ownership.Connections.{send-Sound, disconnect-Sound}
use opencode_notify_hub.Gateway.Instances.Ownership.Requests.{
  handle_result-Sound, handle_prompt_result-Sound,
}
use opencode_notify_hub.Gateway.Instances.Ownership.Queries.{
  handle_snapshot_response-Sound, handle_catalog_response-Sound,
}

-- A connection's first registration comes while the registry holds the connection.
abbrev pub Timely : ControlConnection → Option ClientMessage → InstanceRegistry → Type 0
Timely c m r = (m' : RegisterMessage) → m ≡ some (registers m') → c.instance_id ≡ none → Present c r

module _ (p : Platform) where
  set_pending-Sound :
      (id : String) (pending : List String) (r : InstanceRegistry)
      → Sound p r
      → Sound p (set_pending id pending r)
  set_pending-Sound id pending r h = elim (Option-cases (get id r.web_ui_tunnels)) [
    | inl absent ↦ rw (absent, set_pending) h
    | inr (tunnel, found) ↦ rw (found, set_pending) (core_same p r _ h refl refl refl)
  ]

  pub close_tunnel-Sound :
      (s : Surroundings) (id : String) (r : InstanceRegistry)
      → Sound p r
      → Sound p (close_tunnel p s id r)
  unfolding close_tunnel
  close_tunnel-Sound s id r h = elim (Option-cases (get id r.web_ui_tunnels)) [
    | inl absent ↦ rw (absent, close_tunnel) h
    | inr (tunnel, found) ↦
        rw (found, close_tunnel)
          (if_either (Sound p) (not tunnel.listed) _ _ h (
            if_either (Sound p) (s.sockets.is_open tunnel.connection) _ _
              (send-Sound p s tunnel.connection _ _ (core_same p r _ h refl refl refl))
              (core_same p r _ h refl refl refl)))
  ]

  pub open_tunnel-Sound :
      (s : Surroundings) (id : String) (client : ℕ) (user_id instance_id : String)
      (r : InstanceRegistry)
      → Sound p r
      → Sound p (open_tunnel p s id client user_id instance_id r).0
  unfolding open_tunnel
  open_tunnel-Sound s id client user_id instance_id r h =
      elim (Option-cases (
        tunnel_target p s user_id
          (find RecordKey-discrete (record_key user_id instance_id) r.records))) [
            | inl absent ↦ rw (absent, open_tunnel) (core_same p r _ h refl refl refl)
            | inr (uid, there) ↦ rw (there, open_tunnel) (core_same p r _ h refl refl refl)
          ]

  framed :
      (s : Surroundings) (id : String) (tunnel : WebUiTunnel) (frame : WebUiFrame)
      (r : InstanceRegistry)
      → get id r.web_ui_tunnels ≡ some tunnel
      → Sound p r
      → Sound p (receive_request p s id frame r)
  unfolding receive_request
  framed s id tunnel (cancels tunnel_id request_id) r found h =
      rw (found, receive_request)
        (if_either (Sound p) (same_text tunnel_id id && holds request_id tunnel.pending_requests) _
          _
          (send-Sound p s tunnel.connection _ _
            (set_pending-Sound id (without request_id tunnel.pending_requests) r h))
          h)
  framed s id tunnel (closes_tunnel tunnel_id) r found h =
      rw (found, receive_request)
        (if_either (Sound p) (same_text tunnel_id id) _ _ (close_tunnel-Sound s id r h) h)
  framed s id tunnel (requests tunnel_id request) r found h =
      rw (found, receive_request)
        (if_either (Sound p)
          (not (same_text tunnel_id id) || holds request.request_id tunnel.pending_requests) _ _ h
          (send-Sound p s tunnel.connection _ _
            (set_pending-Sound id (tunnel.pending_requests ++ request.request_id ∷ []) r h)))
  framed s id tunnel other r found h = rw (found, receive_request) h

  pub receive_request-Sound :
      (s : Surroundings) (id : String) (frame : WebUiFrame) (r : InstanceRegistry)
      → Sound p r
      → Sound p (receive_request p s id frame r)
  unfolding receive_request
  receive_request-Sound s id frame r h = elim (Option-cases (get id r.web_ui_tunnels)) [
    | inl absent ↦ rw (absent, receive_request) h
    | inr (tunnel, found) ↦ framed s id tunnel frame r found h
  ]

  handle_response-Sound :
      (s : Surroundings) (c : ControlConnection) (m : WebUiResponse) (r : InstanceRegistry)
      → Sound p r
      → Sound p (handle_response p s c m r)
  unfolding handle_response
  handle_response-Sound s c m r h = elim (Option-cases (get m.tunnel_id r.web_ui_tunnels)) [
    | inl absent ↦ rw (absent, handle_response) h
    | inr (tunnel, found) ↦
        let answered =
          if_either (Sound p) m.is_end _ _
            (set_pending-Sound m.tunnel_id (without m.request_id tunnel.pending_requests) r h) h in
        let closed = close_tunnel-Sound s m.tunnel_id _ answered in
        rw (found, handle_response)
          (if_either (Sound p)
            (not tunnel.listed
              || not (tunnel.connection == c.uid)
              || not (holds m.request_id tunnel.pending_requests))
            _ _ h
            (if_either (Sound p)
              (ltb ws_max_buffered_bytes (s.clients.buffered_amount tunnel.client)) _ _
              (core_same p _ _ closed refl refl refl)
              (if_either (Sound p) (s.clients.throws tunnel.client) _ _ closed
                (core_same p _ _ answered refl refl refl))))
  ]

  handle_message-Sound :
      (s : Surroundings) (c : ControlConnection) (m : ClientMessage) (r : InstanceRegistry)
      → Sound p r
      → Timely c (some m) r
      → Sound p (handle_message p s c m r)
  unfolding handle_message
  handle_message-Sound s c (registers m) r h timely = elim (Option-cases c.instance_id) [
    | inl fresh ↦ rw fresh (register-Sound p s c m r h (timely m refl fresh) fresh)
    | inr (id, named) ↦ rw named (core_same p _ _ (disconnect-Sound p s c.uid r h) refl refl refl)
  ]
  handle_message-Sound s c (session_catalog_response instance_id request_id result) r h timely =
      handle_catalog_response-Sound p c instance_id request_id result r h
  handle_message-Sound s c (pending_snapshot_response instance_id request_id interactions) r h
        timely =
      handle_snapshot_response-Sound p s c instance_id request_id interactions r h
  handle_message-Sound s c (command_result kind instance_id command_id status) r h timely =
      handle_result-Sound p s kind c instance_id command_id status r h
  handle_message-Sound s c (session_prompt_result instance_id command_id) r h timely =
      handle_prompt_result-Sound p c instance_id command_id r h
  handle_message-Sound s c (webui_http_response m) r h timely = handle_response-Sound s c m r h

  pub receive-Sound :
      (s : Surroundings) (c : ControlConnection) (m : Option ClientMessage) (r : InstanceRegistry)
      → Sound p r
      → Timely c m r
      → Sound p (receive p s c m r)
  unfolding receive
  receive-Sound s c none r h timely =
      core_same p _ _
        (disconnect-Sound p s c.uid _ (
          amend-Sound p (λ d. record d { alive = true }) c.uid r (λ d. refl) (λ d. refl) (λ d. refl)
            h))
        refl refl refl
  receive-Sound s c (some m) r h timely =
      handle_message-Sound s c m _
        (amend-Sound p (λ d. record d { alive = true }) c.uid r (λ d. refl) (λ d. refl) (λ d. refl)
          h)
        (λ m' same fresh.
          amend-Present p (λ d. record d { alive = true }) c.uid c r (λ d. refl) (λ d. refl)
            (λ d. refl) (timely m' same fresh))
