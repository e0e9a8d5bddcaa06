-- ===== src/Proxmox/Client/Calls.antt =====
-- The calls of vm.Manager and node.Lister over the client, and the API that they make.
use proxmox_k3s.Prelude.{ℕ, List, ◌++◌, if◌then◌else◌}
use proxmox_k3s.Prelude.Int.{ℤ, pos}
use proxmox_k3s.Prelude.Text.{Text, codes, is_empty}
use proxmox_k3s.Prelude.Decimal.{decimal_ℤ}
use proxmox_k3s.Prelude.Result.{Exec, pure, ◌>>=◌}
use proxmox_k3s.Proxmox.Node.{PveNode, ClusterResource}
use proxmox_k3s.Proxmox.Vm.{CloneRequest, ConfigRequest, ResizeRequest, AgentNetworkInterface}
use proxmox_k3s.Proxmox.Http.{Http}
use proxmox_k3s.Proxmox.Api.{Api}
use proxmox_k3s.Proxmox.Client.{Client, get_json, post_json, put_json, delete_json}
use proxmox_k3s.Proxmox.Client.Tasks.{version, next_vmid, wait_task}

-- `/api2/json/nodes/%s/qemu/%d` and what follows it
unfoldable pub vm_path : Text → ℤ → Text → Text
vm_path node vmid rest =
    codes "/api2/json/nodes/" ++ (node ++ (codes "/qemu/" ++ (decimal_ℤ vmid ++ rest)))

unfoldable pub resources_path : Text → Text
resources_path kind =
    if is_empty kind
    then codes "/api2/json/cluster/resources"
    else codes "/api2/json/cluster/resources?type=" ++ kind

module _ (c : Client) (H : Http) where
  open H use {State}

  unfoldable pub list_pve_nodes : Exec State Text (List PveNode)
  unfolding get_json
  list_pve_nodes = get_json c H (codes "/api2/json/nodes") H.as_nodes

  unfoldable pub list_resources : Text → Exec State Text (List ClusterResource)
  unfolding get_json
  list_resources kind = get_json c H (resources_path kind) H.as_resources

  unfoldable pub clone : Text → ℤ → CloneRequest → Exec State Text Text
  unfolding post_json
  clone node vmid r = post_json c H (vm_path node vmid (codes "/clone")) (H.of_clone r) H.as_text

  unfoldable pub configure : Text → ℤ → ConfigRequest → Exec State Text Text
  unfolding post_json
  configure node vmid r =
      post_json c H (vm_path node vmid (codes "/config")) (H.of_config r) H.as_text

  unfoldable pub resize : Text → ℤ → ResizeRequest → Exec State Text Text
  unfolding put_json
  resize node vmid r = put_json c H (vm_path node vmid (codes "/resize")) (H.of_resize r) H.as_text

  unfoldable pub start : Text → ℤ → Exec State Text Text
  unfolding post_json
  start node vmid = post_json c H (vm_path node vmid (codes "/status/start")) H.of_nil H.as_text

  unfoldable pub stop : Text → ℤ → Exec State Text Text
  unfolding post_json
  stop node vmid = post_json c H (vm_path node vmid (codes "/status/stop")) H.of_nil H.as_text

  unfoldable pub delete_vm : Text → ℤ → Exec State Text Text
  unfolding delete_json
  delete_vm node vmid =
      delete_json c H (vm_path node vmid (codes "?purge=1&destroy-unreferenced-disks=1"))

  unfoldable pub agent_interfaces : Text → ℤ → Exec State Text (List AgentNetworkInterface)
  unfolding get_json
  agent_interfaces node vmid =
      get_json c H (vm_path node vmid (codes "/agent/network-get-interfaces")) H.as_interfaces

  -- UploadSnippet, which nothing calls. It drops the answer.
  unfoldable pub upload_snippet : (node storage name content : Text) → Exec State Text Unit
  unfolding post_json
  upload_snippet node storage name content = do
    answer ←
        post_json c H
          (codes "/api2/json/nodes/"
            ++ (node ++ (codes "/storage/" ++ (storage ++ codes "/upload"))))
          (H.of_snippet
            (record { content = codes "snippets"; filename = name; content_body = content }))
          H.as_text
    pure tt

  -- The API that the provider uses; `left` is the time that each wait for a task may take.
  abbrev pub client_api : ℕ → Api
  client_api left = record {
    State = State;
    version = version c H;
    list_pve_nodes = list_pve_nodes;
    list_resources = list_resources;
    next_id = next_vmid c H (pos 0) (pos 0);
    clone = clone;
    configure = configure;
    resize = resize;
    start = start;
    stop = stop;
    delete = delete_vm;
    agent = agent_interfaces;
    wait_task = wait_task c H left;
  }
