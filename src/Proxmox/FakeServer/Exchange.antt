-- ===== src/Proxmox/FakeServer/Exchange.antt =====
-- A call of internal/adapter/proxmox/client to internal/adapter/proxmox/testserver, by the handler
-- that it reaches.
use proxmox_k3s.Prelude.{◌≡◌, refl, ◌++◌, Option, none}
use proxmox_k3s.Prelude.Text.{Text}
use proxmox_k3s.Prelude.Result.{Result, bind, map_err}
use proxmox_k3s.Proxmox.Http.{Method, Response}
use proxmox_k3s.Proxmox.Client.{
  Client, exchange, unless_refused, answered, request_for, send_failed,
}
use proxmox_k3s.Proxmox.FakeServer.{Server}
use proxmox_k3s.Proxmox.FakeServer.Answer.{Payload, Platform}
use proxmox_k3s.Proxmox.FakeServer.Route.{Route, route, handle}
use proxmox_k3s.Proxmox.FakeServer.Transport.{fake_http, serve, body_or_nothing}

module _ (c : Client) (P : Platform) where
  -- What the client makes of what a handler has done.
  unfoldable pub received :
      {T : Type 0}
      → Method
      → Text
      → (Payload → Result Text T)
      → Result Text (Response Payload) × Server
      → Result Text T × Server
  received m path decode (r, s) = (
    bind (map_err (send_failed c (fake_http P) m path) r) (answered c (fake_http P) path decode),
    s,
  )

  pub exchange_reaching :
      {T : Type 0} (m : Method) (path : Text) (body : Option Payload)
      (decode : Payload → Result Text T) (r : Route) (s : Server)
      → P.url_error (c.endpoint ++ path) ≡ none
      → route m (P.path_of (c.endpoint ++ path)) ≡ r
      → exchange c (fake_http P) m path body decode s
        ≡ received m path decode
            (handle P r (P.type_of (c.endpoint ++ path)) (body_or_nothing body) s)
  unfolding exchange unless_refused received serve request_for
  exchange_reaching m path body decode r s h e = rw (h, e) refl
