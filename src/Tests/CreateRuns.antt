-- ===== src/Tests/CreateRuns.antt =====
-- Runs of the create and delete pipelines on a small cluster.
use proxmox_k3s.Prelude.{
  ℕ, List, [], ◌∷◌, ◌++◌, map, not, some, ◌≡◌, ◌≢◌, ◌≤◌, ◌<◌, ◌⊎◌, refl, keep, get_elem?,
}
use proxmox_k3s.Prelude.Text.{Text, codes, ◌==◌, member, trim_space}
use proxmox_k3s.Prelude.Int.{◌+ℤ◌}
use proxmox_k3s.Prelude.Dict.{lookup, insert}
use proxmox_k3s.Prelude.Decimal.{decimal}
use proxmox_k3s.Prelude.Result.{ok, err}
use proxmox_k3s.Domain.Error.{wrap, failed_to_delete, ip_pool_exhausted}
use proxmox_k3s.Domain.Size.{worker}
use proxmox_k3s.Domain.Model.{Node, NodePool, NodeSpec}
use proxmox_k3s.Net.{Ip, ip_string, parse_ip, parse_cidr}
use proxmox_k3s.Prelude.Text.Split.{onto}
use proxmox_k3s.Ipam.Pool.{
  size, get, ip_config_for_index, config_text, prefix_for, total_ips, parse_pool,
  new_static_allocator,
}
use proxmox_k3s.Create.Names.{
  node_name, cluster_names, nodes_in, Distinct, node_name-injective, cluster_names-Distinct,
}
use proxmox_k3s.Create.Plan.{plan_ips, total_needed, IpPlan}
use proxmox_k3s.Create.Plan.Complete.{plan_ips_outcome, plan_ips_node, Allocates}
use proxmox_k3s.Create.Provision.{missing, spec_of, rollback, provision_nodes}
use proxmox_k3s.Create.Provision.Rollback.{Creates, FailsAt, Removes, provision_nodes_outcome}
use proxmox_k3s.Create.Provision.Missing.{missing-names}
use proxmox_k3s.Delete.{run}
use proxmox_k3s.Delete.Failures.{Deletes, run_outcome}
use proxmox_k3s.Tests.Fixtures.{lab, node, only_v4, small_provider, nodes_named, five}

abbrev three_vms : List Text
three_vms = codes "lab-master-1" ∷ codes "stuck" ∷ codes "lab-w-1" ∷ []

-- The fifth node is refused: the four before it are gone again.
full : (provision_nodes (small_provider 4) lab [] [] []).1 ≡ []
unfolding provision_nodes missing node_name rollback member ◌==◌ spec_of keep decimal
full = refl

provision_nodes_outcome_example :
    ((ns : List Node) × (u : List Text) × Creates (small_provider 4) [] (missing lab [] []) ns u
      × (provision_nodes (small_provider 4) lab [] [] [] ≡ (ok ns, u)))
    ⊎ ((f : FailsAt (small_provider 4) [] (missing lab [] [])) × (u : List Text) × Removes
          (small_provider 4)
          f.left
          f.created
          u
        × (provision_nodes (small_provider 4) lab [] [] []
            ≡ (err (wrap (codes "creating " ++ f.failing.name) f.reason), u)))
provision_nodes_outcome_example = provision_nodes_outcome (small_provider 4) lab [] [] []

missing-names_example :
    map (λ (s : NodeSpec). s.name) (missing lab [] (node (codes "lab-w-1") ∷ []))
    ≡ keep
        (λ n. not (member n (map (λ (e : Node). e.name) (node (codes "lab-w-1") ∷ []))))
        (cluster_names lab)
missing-names_example = missing-names lab [] (node (codes "lab-w-1") ∷ [])

node_name-injective_example : (codes "a-1" ≡ codes "a-1") × (◌≡◌ {A = ℕ} 4 4)
node_name-injective_example = node_name-injective (codes "lab") (codes "a-1") (codes "a-1") 4 4 refl

lab-Distinct : Distinct (map (λ (p : NodePool). p.name) (lab.masters ∷ lab.workers))
unfolding member ◌==◌
lab-Distinct = (refl, (refl, tt))

cluster_names-Distinct_example : Distinct (cluster_names lab)
cluster_names-Distinct_example = cluster_names-Distinct lab lab-Distinct

lab-Allocates : Allocates only_v4 lab five
unfolding new_static_allocator parse_pool parse_ip trim_space onto ◌==◌
lab-Allocates = ((λ e. cc), refl)

plan_ips_outcome_example :
    ((nodes_in (lab.masters ∷ lab.workers) ≤ total_ips five)
      × ((plan : IpPlan) × (plan_ips only_v4 lab ≡ ok plan)))
    ⊎ ((total_ips five < nodes_in (lab.masters ∷ lab.workers))
        × (plan_ips only_v4 lab ≡ err (ip_pool_exhausted lab.network.node_pool_range)))
plan_ips_outcome_example = plan_ips_outcome only_v4 lab five lab-Allocates (refl, (refl, tt))

abbrev entry : Text → Text → Text × Text
entry name ip = (name, codes "ip=" ++ (ip ++ codes "/24,gw=10.0.0.1"))

abbrev the_plan : IpPlan
the_plan =
    entry (codes "lab-master-1") (codes "10.0.0.10")
    ∷ entry (codes "lab-master-2") (codes "10.0.0.11")
    ∷ entry (codes "lab-master-3") (codes "10.0.0.12")
    ∷ entry (codes "lab-w-1") (codes "10.0.0.13")
    ∷ entry (codes "lab-w-2") (codes "10.0.0.14")
    ∷ []

lab-planned : plan_ips only_v4 lab ≡ ok the_plan
unfolding plan_ips new_static_allocator parse_pool parse_ip trim_space onto ◌==◌ total_ips size
    total_needed ◌+ℤ◌ ip_config_for_index get insert node_name decimal ip_string parse_cidr
lab-planned = refl

lab-fourth : get_elem? (cluster_names lab) 3 ≡ some (codes "lab-w-1")
unfolding cluster_names node_name decimal
lab-fourth = refl

plan_ips_node_example :
    (ip : Ip) × (get_elem? five.pool.ips 3 ≡ some ip)
    × (lookup (codes "lab-w-1") the_plan
        ≡ some (config_text (prefix_for only_v4 five.cidr) five.gateway (ip_string only_v4 ip)))
plan_ips_node_example =
    plan_ips_node only_v4 lab five the_plan 3 (codes "lab-w-1") lab-Allocates lab-Distinct
      lab-planned lab-fourth

abbrev two_roles : List Node
two_roles =
    node (codes "lab-master-1")
    ∷ (record (node (codes "lab-w-1")) { role = worker })
    ∷ node (codes "lab-master-2")
    ∷ []

stuck_names : (run (small_provider 4) lab three_vms).0 ≡ err (failed_to_delete (codes "stuck" ∷ []))
unfolding run ◌==◌
stuck_names = refl

run_outcome_example :
    (failed : List Text) × (u : List Text) × Deletes
      (small_provider 4)
      three_vms
      (nodes_named three_vms)
      failed
      u
    × (((failed ≡ []) × (run (small_provider 4) lab three_vms ≡ (ok tt, u)))
        ⊎ ((failed ≢ [])
            × (run (small_provider 4) lab three_vms ≡ (err (failed_to_delete failed), u))))
run_outcome_example =
    run_outcome (small_provider 4) lab (nodes_named three_vms) three_vms three_vms refl
