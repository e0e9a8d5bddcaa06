-- ===== src/Tests/ProviderRuns.antt =====
-- The provider over the client against the fake server.
use proxmox_k3s.Prelude.{ℕ, [], ◌≡◌, refl, Bool, true}
use proxmox_k3s.Prelude.Text.{codes, ◌==◌, trim_prefix, has_prefix, member}
use proxmox_k3s.Prelude.Text.Split.{split, onto}
use proxmox_k3s.Prelude.Decimal.{decimal, decimal_ℤ}
use proxmox_k3s.Prelude.Dict.{lookup}
use proxmox_k3s.Proxmox.Node.{find_template}
use proxmox_k3s.Proxmox.Client.{get_json, post_json, put_json, exchange}
use proxmox_k3s.Proxmox.Client.Tasks.{next_vmid, wait_task, task_status}
use proxmox_k3s.Create.Names.{node_name}
use proxmox_k3s.Proxmox.FakeServer.Upid.{upid, new_upid}
use proxmox_k3s.Prelude.Result.{is_ok}
use proxmox_k3s.Domain.Size.{master}
use proxmox_k3s.Proxmox.Placement.{round_robin, pick}
use proxmox_k3s.Proxmox.Provider.{
  create_node, clone_request, config_request, resize_request, created_node,
}
use proxmox_k3s.Proxmox.Client.Calls.{
  client_api, list_pve_nodes, list_resources, resources_path, clone, configure, resize, start,
  vm_path,
}
use proxmox_k3s.Proxmox.FakeServer.{new_server, vm_count, injected, put_vm, change_vm, vm_at}
use proxmox_k3s.Proxmox.FakeServer.Transport.{fake_http, serve}
use proxmox_k3s.Create.Provision.{spec_of}
use proxmox_k3s.Tests.Fixtures.{floats, lab}
use proxmox_k3s.Tests.FakeRuns.{platform, client}

-- CreateNode for the first master, on a new server with the template of New.
abbrev created : Bool × ℕ
created =
    let (r, w) =
      create_node floats (client_api client (fake_http platform) 1000)
        (codes "ubuntu-2404-cloudinit") (codes "local") (spec_of lab master lab.masters [] 0)
        (new_server, round_robin 0) in
    (is_ok r, vm_count w.0)

one_vm : created ≡ (true, 1)
unfolding create_node spec_of node_name decimal list_pve_nodes vm_count serve ◌==◌ trim_prefix
    has_prefix pick member list_resources resources_path find_template next_vmid clone configure
    resize start vm_path split onto decimal_ℤ injected lookup put_vm change_vm vm_at upid new_upid
    wait_task task_status clone_request config_request resize_request created_node get_json
    post_json put_json exchange
one_vm = refl
