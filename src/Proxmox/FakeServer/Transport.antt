-- ===== src/Proxmox/FakeServer/Transport.antt =====
-- The fake server of internal/adapter/proxmox/testserver as the server that a client talks to.
use proxmox_k3s.Prelude.{List, Option, none, some}
use proxmox_k3s.Prelude.Int.{ℤ}
use proxmox_k3s.Prelude.Text.{Text}
use proxmox_k3s.Prelude.Result.{Result, ok, err}
use proxmox_k3s.Proxmox.Node.{PveNode, ClusterResource}
use proxmox_k3s.Proxmox.Vm.{AgentNetworkInterface}
use proxmox_k3s.Proxmox.Http.{Http, TaskStatus, Request}
use proxmox_k3s.Proxmox.FakeServer.{Server}
use proxmox_k3s.Proxmox.FakeServer.Answer.{
  Payload, nothing, version, text, number, nodes, resources, task, interfaces, clone_body,
  config_body, resize_body, snippet_body, Platform, Handler,
}
use proxmox_k3s.Proxmox.FakeServer.Route.{route, handle}

unfoldable pub body_or_nothing : Option Payload → Payload
body_or_nothing none = nothing
body_or_nothing (some body) = body

module _ (P : Platform) where
  unfoldable pub serve : Request Payload → Handler
  unfolding handle route body_or_nothing
  serve r = handle P (route r.method (P.path_of r.url)) (P.type_of r.url) (body_or_nothing r.body)

  abbrev pub as_version : Payload → Result Text Unit
  as_version version = ok tt
  as_version p = err P.mismatch

  abbrev pub as_nodes : Payload → Result Text (List PveNode)
  as_nodes (nodes ns) = ok ns
  as_nodes p = err P.mismatch

  abbrev pub as_resources : Payload → Result Text (List ClusterResource)
  as_resources (resources rs) = ok rs
  as_resources p = err P.mismatch

  abbrev pub as_number : Payload → Result Text ℤ
  as_number (number n) = ok n
  as_number p = err P.mismatch

  abbrev pub as_text : Payload → Result Text Text
  as_text (text t) = ok t
  as_text p = err P.mismatch

  abbrev pub as_task : Payload → Result Text TaskStatus
  as_task (task t) = ok t
  as_task p = err P.mismatch

  abbrev pub as_interfaces : Payload → Result Text (List AgentNetworkInterface)
  as_interfaces (interfaces is) = ok is
  as_interfaces p = err P.mismatch

  -- Every request goes to the server.
  abbrev pub fake_http : Http
  fake_http = record {
    State = Server;
    Body = Payload;
    url_error = P.url_error;
    send = serve;
    text_of = P.print;
    of_clone = clone_body;
    of_config = config_body;
    of_resize = resize_body;
    of_snippet = snippet_body;
    of_nil = nothing;
    as_version = as_version;
    as_nodes = as_nodes;
    as_resources = as_resources;
    as_number = as_number;
    as_text = as_text;
    as_task = as_task;
    as_interfaces = as_interfaces;
  }
