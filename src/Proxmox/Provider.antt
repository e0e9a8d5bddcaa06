-- ===== src/Proxmox/Provider.antt =====
-- internal/adapter/proxmox/provider.go: the provider's operations, over any API. The state is that of
-- the API and the placement strategy. The semaphore that bounds the clones of one host is taken and
-- released within CreateNode, which a sequential caller does not see; Proxmox/Clones models it.
pub mod New
pub mod Requests
pub mod Listing
pub mod Created
use proxmox_k3s.Prelude.{
  ℕ, zero, suc, List, [], ◌∷◌, ◌++◌, Bool, true, false, not, ◌&&◌, keep, map, if◌then◌else◌,
}
use proxmox_k3s.Prelude.Int.{ℤ, pos}
use proxmox_k3s.Prelude.Text.{Text, codes, ◌==◌, member, is_empty, join}
use proxmox_k3s.Prelude.Text.Find.{contains}
use proxmox_k3s.Prelude.Decimal.{decimal_ℤ}
use proxmox_k3s.Prelude.Result.{Result, ok, err, map_err, Exec, pure, raise, ◌>>=◌, ◌>>◌}
use proxmox_k3s.Domain.Error.{Error, api, wrap, node_not_found, template_not_found}
use proxmox_k3s.Domain.Size.{NodeRole, master, worker}
use proxmox_k3s.Domain.Model.{
  Node, NodeSpec, CloudInitSpec, NodeState, provisioned, Cluster, ip_mode_static,
}
use proxmox_k3s.Proxmox.Node.{PveNode, ClusterResource, is_one, find_template}
use proxmox_k3s.Proxmox.Placement.{Floats, Strategy, pick}
use proxmox_k3s.Proxmox.Tags.{
  tag, tag_cluster, tag_role, tag_pool, build_tags, has_tag, extract_tag,
}
use proxmox_k3s.Proxmox.Vm.{
  CloneRequest, ConfigRequest, ResizeRequest, AgentNetworkInterface, on_vmid, find_guest_ip,
}
use proxmox_k3s.Proxmox.Api.{Api}
unfoldable pub use proxmox_k3s.Proxmox.Provider.Requests.{
  provider_id, clone_request, config_request, resize_request, created_node,
}

-- The names of the hosts that are online.
unfoldable pub online_names : List PveNode → List Text
unfolding keep
online_names nodes = map (λ n. n.name) (keep (λ (n : PveNode). n.status == codes "online") nodes)

-- The loop of Preflight over the target nodes.
unfoldable pub check_targets : List Text → List Text → Result Error Unit
check_targets online [] = ok tt
check_targets online (t ∷ ts) =
    let rest = check_targets online ts in if member t online then rest else err (node_not_found t)

-- The body of the loop of ListNodes, for a resource that it keeps.
unfoldable pub node_of : ClusterResource → Node
node_of r = record {
  name = r.name;
  role = if has_tag r.tags (tag tag_role (codes "master")) then master else worker;
  pool = extract_tag r.tags tag_pool;
  provider_id = provider_id r.node r.vmid;
  vmid = r.vmid;
  host_node = r.node;
  desired_ip = [];
  observed_ip = [];
  state = provisioned;
  labels = [];
  taints = [];
}

unfoldable pub is_listed : Text → ClusterResource → Bool
is_listed cluster r = not (is_one r.template) && has_tag r.tags (tag tag_cluster cluster)

-- The loop of ListNodes.
unfoldable pub nodes_of : Text → List ClusterResource → List Node
unfolding keep is_listed node_of
nodes_of cluster rs = map node_of (keep (is_listed cluster) rs)

module _ (floats : Floats) (A : Api) (template storage : Text) where
  open A use {State}

  abbrev pub Provider : Type 0
  Provider = State × Strategy

  -- A call of the API, with what the caller makes of its error.
  abbrev call : {X : Type 0} → Exec State Text X → (Text → Error) → Exec Provider Error X
  call m f (w, strategy) = let (r, w') = m w in (map_err f r, (w', strategy))

  -- `fmt.Errorf("<what> <name>: %w", err)` on an error of the manager
  abbrev step_failed : Text → Text → Text → Error
  step_failed what name e = wrap (what ++ name) (api e)

  -- `if upid != "" { WaitTask }`
  abbrev wait_if_task : Text → Text → (Text → Error) → Exec Provider Error Unit
  wait_if_task host [] f = pure tt
  wait_if_task host (c ∷ upid) f = call (A.wait_task host (c ∷ upid)) f

  -- The placement, where the specification names no host.
  choose_host : NodeSpec → List PveNode → Exec Provider Error Text
  choose_host spec nodes (w, strategy) =
      if is_empty spec.host_node
      then (let (r, strategy') = pick floats strategy nodes [] in (r, (w, strategy')))
      else (ok spec.host_node, (w, strategy))

  look_up_template : Text → Exec Provider Error ClusterResource
  look_up_template name = do
    rs ← call (A.list_resources (codes "vm")) api
    λ s. (find_template name rs, s)

  check_version : Text → Exec Provider Error Unit
  check_version endpoint = call A.version (step_failed (codes "connecting to Proxmox at ") endpoint)

  -- An error of FindTemplate, whatever it is, reads as a missing template.
  require_template : Text → Exec Provider Error Unit
  unfolding look_up_template
  require_template name s =
      let (r, s') = look_up_template name s in
      (elim r [ ok t ↦ ok tt | err e ↦ err (template_not_found name) ], s')

  -- Provider.Preflight
  unfoldable pub preflight : Cluster → Exec Provider Error Unit
  unfolding check_version check_targets online_names require_template
  preflight cluster = do
    check_version cluster.proxmox.endpoint
    nodes ← call A.list_pve_nodes (step_failed (codes "listing Proxmox nodes") [])
    λ s. (check_targets (online_names nodes) cluster.proxmox.target_nodes, s)
    require_template cluster.proxmox.template

  -- Provider.ListNodes
  unfoldable pub list_nodes : Text → Exec Provider Error (List Node)
  list_nodes cluster = do rs ← call (A.list_resources (codes "vm")) api; pure (nodes_of cluster rs)

  -- Cloning the template, and waiting for the task.
  clone_vm : ClusterResource → Text → ℤ → NodeSpec → Exec Provider Error Unit
  clone_vm tmpl host vmid spec = do
    upid ← call (A.clone tmpl.node tmpl.vmid (clone_request storage host vmid spec)) (λ e.
        step_failed (codes "cloning template for ") spec.name (on_vmid (codes "clone") tmpl.vmid e))
    call (A.wait_task tmpl.node upid) (step_failed (codes "waiting for clone of ") spec.name)

  configure_vm : Text → ℤ → NodeSpec → Exec Provider Error Unit
  configure_vm host vmid spec = do
    upid ←
        call (A.configure host vmid (config_request spec))
          (λ e. step_failed (codes "configuring ") spec.name (on_vmid (codes "configure") vmid e))
    wait_if_task host upid (step_failed (codes "waiting for config of ") spec.name)

  resize_vm : Text → ℤ → NodeSpec → Exec Provider Error Unit
  resize_vm host vmid spec = do
    upid ← call (A.resize host vmid (resize_request spec)) (λ e.
        step_failed (codes "resizing disk for ") spec.name
          (on_vmid (codes "resize disk on") vmid e))
    wait_if_task host upid (step_failed (codes "waiting for disk resize of ") spec.name)

  start_vm : Text → ℤ → NodeSpec → Exec Provider Error Unit
  start_vm host vmid spec = do
    upid ←
        call (A.start host vmid)
          (λ e. step_failed (codes "starting ") spec.name (on_vmid (codes "start") vmid e))
    wait_if_task host upid (step_failed (codes "waiting for start of ") spec.name)

  -- The steps of CreateNode from the clone on.
  build_vm : ClusterResource → Text → ℤ → NodeSpec → Exec Provider Error Unit
  unfolding clone_vm configure_vm resize_vm start_vm
  build_vm tmpl host vmid spec = do
    clone_vm tmpl host vmid spec
    configure_vm host vmid spec
    resize_vm host vmid spec
    start_vm host vmid spec

  -- Provider.CreateNode. `NextVMID(ctx, 0, 0)` asks for any free number and checks no range.
  unfoldable pub create_node : NodeSpec → Exec Provider Error Node
  unfolding choose_host look_up_template build_vm
  create_node spec = do
    nodes ← call A.list_pve_nodes api
    host ← choose_host spec nodes
    tmpl ← look_up_template template
    vmid ← call A.next_id api
    build_vm tmpl host vmid spec
    pure (created_node host vmid spec)

  -- The guest agent is asked until it answers. `rounds` is how often the caller's context, which has
  -- a deadline, leaves time for one more question.
  wait_agent_ready : ℕ → Node → Exec Provider Error (List AgentNetworkInterface)
  wait_agent_ready zero n s = (err (api (codes "context deadline exceeded")), s)
  wait_agent_ready (suc rounds) n (w, strategy) =
      let (r, w') = A.agent n.host_node n.vmid w in
      elim r [ ok is ↦ (ok is, (w', strategy)) | err e ↦ wait_agent_ready rounds n (w', strategy) ]

  -- The observed address replaces the old one if the guest reports any.
  observe : Node → List AgentNetworkInterface → Node
  observe n is =
      if is_empty (find_guest_ip is) then n else record n { observed_ip = find_guest_ip is }

  -- Provider.WaitReady
  unfoldable pub wait_ready : ℕ → Node → Exec Provider Error Node
  unfolding wait_agent_ready observe
  wait_ready rounds n = do is ← wait_agent_ready rounds n; pure (observe n is)

  -- A task whose outcome the caller drops.
  abbrev ignore_task : Text → Text → Exec Provider Error Unit
  ignore_task host [] s = (ok tt, s)
  ignore_task host (c ∷ upid) (w, strategy) =
      let (r, w') = A.wait_task host (c ∷ upid) w in (ok tt, (w', strategy))

  -- What DeleteNode makes of the answer to a stop: a VM that was not running is no error.
  abbrev after_stop : Node → Result Text Text → Exec Provider Error Unit
  after_stop n (ok upid) s = ignore_task n.host_node upid s
  after_stop n (err e) s =
      if contains (on_vmid (codes "stop") n.vmid e) (codes "not running")
      then (ok tt, s)
      else (err (step_failed (codes "stopping ") n.name (on_vmid (codes "stop") n.vmid e)), s)

  stop_vm : Node → Exec Provider Error Unit
  stop_vm n (w, strategy) =
      let (r, w') = A.stop n.host_node n.vmid w in after_stop n r (w', strategy)

  delete_vm : Node → Exec Provider Error Unit
  delete_vm n = do
    upid ← call (A.delete n.host_node n.vmid) (λ e.
        wrap (codes "deleting " ++ (n.name ++ (codes " (VMID " ++ (decimal_ℤ n.vmid ++ codes ")"))))
          (api (on_vmid (codes "delete") n.vmid e)))
    wait_if_task n.host_node upid (step_failed (codes "waiting for delete of ") n.name)

  -- Provider.DeleteNode
  unfoldable pub delete_node : Node → Exec Provider Error Unit
  unfolding stop_vm delete_vm
  delete_node n = do stop_vm n; delete_vm n
