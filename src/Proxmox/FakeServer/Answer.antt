-- ===== src/Proxmox/FakeServer/Answer.antt =====
-- The messages of internal/adapter/proxmox/testserver/server.go, what it takes from its surroundings,
-- and the ways in which a handler answers.
use proxmox_k3s.Prelude.{ℕ, List, Option, none, some}
use proxmox_k3s.Prelude.Int.{ℤ}
use proxmox_k3s.Prelude.Text.{Text, codes}
use proxmox_k3s.Prelude.Result.{ok, Exec}
use proxmox_k3s.Proxmox.Node.{PveNode, ClusterResource}
use proxmox_k3s.Proxmox.Vm.{
  CloneRequest, ConfigRequest, ResizeRequest, Snippet, AgentNetworkInterface,
}
use proxmox_k3s.Proxmox.Http.{TaskStatus, Response}
use proxmox_k3s.Proxmox.FakeServer.{Server, VmMap}

-- The messages, by the values that they code. A field that an answer lacks has the zero value that
-- a decoder leaves there.
pub data Payload : Type 0 where
  nothing version : Payload
  text failure page : Text → Payload
  number : ℤ → Payload
  nodes : List PveNode → Payload
  resources : List ClusterResource → Payload
  task : TaskStatus → Payload
  interfaces : List AgentNetworkInterface → Payload
  clone_body : CloneRequest → Payload
  config_body : ConfigRequest → Payload
  resize_body : ResizeRequest → Payload
  snippet_body : Snippet → Payload

-- What the server takes from its surroundings.
pub record Platform : Type 0 where
  -- The Unix time in hexadecimal digits at the start of a task with this number.
  pub stamp : ℕ → Text
  -- `int(x.(float64))` for a number `x` of a message
  pub through_float : ℤ → ℤ
  -- The entries of the map of VMs in the order in which a range over it comes to them. Nothing is known
  -- of that order; it may be another one in every state.
  pub range_of : Server → VmMap
  -- The error that a client gets where a handler panics.
  pub hung_up : Text
  -- `r.URL.Path` behind the clean-up of http.ServeMux, and `r.URL.Query().Get("type")`
  pub path_of : Text → Text
  pub type_of : Text → Text
  -- http.NewRequestWithContext's error
  pub url_error : Text → Option Text
  -- The error of json.Unmarshal where the answer has another type than the caller wants.
  pub mismatch : Text
  -- The text of a message
  pub print : Payload → Text

abbrev pub Handler : Type 0
Handler = Exec Server Text (Response Payload)

-- respond and respondError
unfoldable pub respond : Payload → Handler
respond data_ s = (ok (record { status = 200; body = data_ }), s)

unfoldable pub respond_error : ℕ → Text → Handler
respond_error code msg s = (ok (record { status = code; body = failure msg }), s)

-- http.NotFound
unfoldable pub not_found : Handler
not_found s = (ok (record { status = 404; body = page (codes "404 page not found\n") }), s)

-- `if err := s.Errors.get(op); err != nil { s.respondError(w, 500, err.Error()); return }`
unfoldable pub unless_injected : Option Text → Handler → Handler
unfolding respond_error
unless_injected none go s = go s
unless_injected (some e) go s = respond_error 500 e s
