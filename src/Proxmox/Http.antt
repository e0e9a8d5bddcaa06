-- ===== src/Proxmox/Http.antt =====
-- What internal/adapter/proxmox/client uses of the packages net/http and encoding/json: a transport
-- over an unknown state, and the coding of the messages. A message is of any type.
use proxmox_k3s.Prelude.{ℕ, List, Option}
use proxmox_k3s.Prelude.Int.{ℤ}
use proxmox_k3s.Prelude.Text.{Text, codes}
use proxmox_k3s.Prelude.Result.{Result, Exec}
use proxmox_k3s.Proxmox.Node.{PveNode, ClusterResource}
use proxmox_k3s.Proxmox.Vm.{
  CloneRequest, ConfigRequest, ResizeRequest, Snippet, AgentNetworkInterface,
}

pub data Method : Type 0 where
  get post put delete : Method

abbrev pub method_text : Method → Text
method_text get = codes "GET"
method_text post = codes "POST"
method_text put = codes "PUT"
method_text delete = codes "DELETE"

-- client.TaskStatus
pub record TaskStatus : Type 0 where
  pub status : Text
  pub exit_status : Text
  pub kind : Text
  pub id : Text

-- The header Content-Type is set exactly where there is a body.
pub record Request (Body : Type 0) : Type 0 where
  pub method : Method
  pub url : Text
  pub body : Option Body
  pub authorization : Text

pub record Response (Body : Type 0) : Type 0 where
  pub status : ℕ
  pub body : Body

pub record Http : Type 1 where
  pub State : Type 0
  pub Body : Type 0
  -- The error of http.NewRequestWithContext for a URL, if it has one.
  pub url_error : Text → Option Text
  -- http.Client.Do
  pub send : Request Body → Exec State Text (Response Body)
  -- io.ReadAll on the body
  pub text_of : Body → Text
  -- json.Marshal of the requests, which does not fail on them.
  pub of_clone : CloneRequest → Body
  pub of_config : ConfigRequest → Body
  pub of_resize : ResizeRequest → Body
  pub of_snippet : Snippet → Body
  pub of_nil : Body
  -- The field `data` of the answer, decoded into the type that the caller wants. A task without data,
  -- a nil pointer at which the code panics, counts as an error of `as_task`.
  pub as_version : Body → Result Text Unit
  pub as_nodes : Body → Result Text (List PveNode)
  pub as_resources : Body → Result Text (List ClusterResource)
  pub as_number : Body → Result Text ℤ
  pub as_text : Body → Result Text Text
  pub as_task : Body → Result Text TaskStatus
  pub as_interfaces : Body → Result Text (List AgentNetworkInterface)
