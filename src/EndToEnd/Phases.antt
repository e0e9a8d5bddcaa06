-- ===== src/EndToEnd/Phases.antt =====
-- Phases 1 to 5 of internal/usecase/create/create.go on the fake server.
use proxmox_k3s.Prelude.{
  ℕ, suc, ◌<◌, ◌≡◌, refl, ap, ◌∙◌, List, [], ◌++◌, All, All-append, All-imp, All-keep, map, true,
  not, length,
}
use proxmox_k3s.Prelude.Text.{Text, member}
use proxmox_k3s.Prelude.Result.{ok}
use proxmox_k3s.Domain.Model.{Cluster, Node}
use proxmox_k3s.Net.{Ipv6}
use proxmox_k3s.Proxmox.Placement.{Floats, Strategy}
use proxmox_k3s.Proxmox.Provider.{nodes_of, list_nodes}
use proxmox_k3s.Proxmox.Client.{Client}
use proxmox_k3s.Proxmox.Client.Calls.{client_api}
use proxmox_k3s.Proxmox.FakeServer.{Server}
use proxmox_k3s.Proxmox.FakeServer.Answer.{Platform}
use proxmox_k3s.Proxmox.FakeServer.Handlers.{vm_resource}
use proxmox_k3s.Proxmox.FakeServer.Transport.{fake_http}
use proxmox_k3s.Create.Names.{cluster_names}
use proxmox_k3s.Create.Plan.{IpPlan, plan_ips}
use proxmox_k3s.Create.Provision.{missing, provision_nodes}
use proxmox_k3s.Create.Ready.{is_master, split_by_role-keep}
use proxmox_k3s.Create.Ready.Waits.{Readies, wait_all_ready-Readies}
use proxmox_k3s.Create.Phases.{ready_nodes}
use proxmox_k3s.Create.Phases.Whole.{proxmox_provider-laws, ready_nodes-whole}
use proxmox_k3s.EndToEnd.Calls.{Surroundings}
use proxmox_k3s.EndToEnd.CanCreate.{CanCreate}
use proxmox_k3s.EndToEnd.Provisioned.{stack, create_all_lem}
use proxmox_k3s.EndToEnd.Removed.{list_nodes_lem, nothing_shown}
use proxmox_k3s.EndToEnd.RoundTrip.{HasPlainNames, missing-anywhere}
use proxmox_k3s.EndToEnd.Ready.{HasTargets, HasAddress, preflight_lem, live-Readies}

module _ (floats : Floats) (c : Client) (P : Platform) (around : Surroundings c P) (left : ℕ)
    (late : 500 < left) (storage : Text) (rounds : ℕ) where
  no_nodes :
      (cl : Cluster) (s : Server) (strategy : Strategy)
      → nodes_of cl.name (map vm_resource s.vms) ≡ []
      → list_nodes floats
          (client_api c (fake_http P) left)
          cl.proxmox.template
          storage
          cl.name
          (s, strategy)
        ≡ (ok [], (s, strategy))
  no_nodes cl s strategy none_yet =
      list_nodes_lem c P around cl.name floats left cl.proxmox.template storage s strategy
      ∙ ap (λ ns. (ok ns, (s, strategy))) (nothing_shown c P around cl.name s none_yet)

  module _ (v6 : Ipv6) (cl : Cluster) (plan : IpPlan) (planned : plan_ips v6 cl ≡ ok plan) where
    -- On a fake server that has no VMs of the cluster, sets no error, has templates of the configured
    -- name, all on one host, has the target nodes online, a host that is, all hosts with plain names, and
    -- can give the numbers that are needed, where the addresses of the configuration can be planned:
    -- phases 1 to 5 of `create` succeed, every name of the cluster is the name of a master or a worker,
    -- and all of these have an observed address, whatever the order of the server's listings. (The names
    -- of the cluster and its pools have no space and no semicolon, a wait may take more than half a
    -- second.)
    pub phases_succeed :
        (source : Text) (s : Server) (strategy : Strategy)
        → HasPlainNames cl
        → HasTargets cl s
        → CanCreate cl.proxmox.template source (length (missing cl plan [])) s
        → nodes_of cl.name (map vm_resource s.vms) ≡ []
        → (masters : List Node) × (workers : List Node) × (t : Server × Strategy) × (ready_nodes v6
              (stack floats c P left cl.proxmox.template storage (suc rounds))
              cl
              (s, strategy)
            ≡ (ok (masters, workers), t))
          × All HasAddress (masters ++ workers)
          × ((n : Text)
              → member n (cluster_names cl) ≡ true
              → member n (map (λ (m : Node). m.name) (masters ++ workers)) ≡ true)
    unfolding ready_nodes provision_nodes
    phases_succeed source s strategy plain targets can none =
        let I = stack floats c P left cl.proxmox.template storage (suc rounds) in
        let made =
          create_all_lem floats c P around left late cl.proxmox.template storage (suc rounds)
            (missing cl plan []) source [] s strategy can (missing-anywhere cl plan []) in
        let t : Server × Strategy = (made.after, made.next) in
        let live =
          All-imp _ (Readies I HasAddress t) made.nodes
            (λ m h.
              live-Readies floats c P around left late cl.proxmox.template storage rounds made.after
                made.next m made.unset h)
            made.live in
        let (ms, me, mq) =
          wait_all_ready-Readies I HasAddress t _
            (All-keep _ (λ m. is_master m.role) made.nodes live) in
        let (ws, we, wq) =
          wait_all_ready-Readies I HasAddress t _
            (All-keep _ (λ m. not (is_master m.role)) made.nodes live) in
        let e : ready_nodes v6 I cl (s, strategy) ≡ (ok (ms, ws), t) =
          rw
            (
              preflight_lem floats c P around left late cl.proxmox.template storage (suc rounds) cl
                  source s strategy can.has targets,
              no_nodes cl s strategy none,
              planned,
              made.succeeded,
              split_by_role-keep made.nodes,
              me,
              we,
            )
            refl in
        let laws =
          proxmox_provider-laws floats (client_api c (fake_http P) left) cl.proxmox.template storage
            (suc rounds) in
        (
          ms,
          ws,
          t,
          e,
          All-append HasAddress ms ws mq wq,
          λ n h. ready_nodes-whole v6 I laws.0 laws.1 cl ms ws (s, strategy) t n e h,
        )
