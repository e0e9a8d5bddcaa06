-- ===== src/EndToEnd/Removed.antt =====
-- Listing nodes on the fake server: ListNodes of internal/adapter/proxmox/provider.go.
use proxmox_k3s.Prelude.{
  ℕ, ◌+◌, ◌≤◌, ◌≡◌, refl, ap, subst, ◌∙◌, arith, List, [], ◌∷◌, ◌++◌, All, map, map-append, keep,
  keep-append,
}
use proxmox_k3s.Prelude.Int.{ℤ, pos, pos_part}
use proxmox_k3s.Prelude.Text.{Text, eq_refl}
use proxmox_k3s.Prelude.Result.{ok}
use proxmox_k3s.Domain.Model.{Node, NodeSpec}
use proxmox_k3s.Proxmox.Node.{ClusterResource, is_one}
use proxmox_k3s.Proxmox.Tags.{build_tags}
use proxmox_k3s.Proxmox.Tags.RoundTrip.{IsPlain}
use proxmox_k3s.Proxmox.Placement.{Floats, Strategy}
use proxmox_k3s.Proxmox.Provider.{nodes_of, list_nodes}
use proxmox_k3s.Proxmox.Provider.Listing.{IsTagged, listed_node, nodes_of-tagged}
use proxmox_k3s.Proxmox.Client.{Client}
use proxmox_k3s.Proxmox.Client.Calls.{client_api}
use proxmox_k3s.Proxmox.FakeServer.{Server, VmMap}
use proxmox_k3s.Proxmox.FakeServer.Answer.{Platform}
use proxmox_k3s.Proxmox.FakeServer.Handlers.{vm_resource}
use proxmox_k3s.Proxmox.FakeServer.Transport.{fake_http}
use proxmox_k3s.EndToEnd.Fresh.{IsFree}
use proxmox_k3s.EndToEnd.Calls.{Surroundings, list_resources_lem}
use proxmox_k3s.EndToEnd.Created.{built_vm, built_vm-tagged}
use proxmox_k3s.EndToEnd.Provisioned.{entries}
use proxmox_k3s.Proxmox.Provider.{node_of, is_listed}
use proxmox_k3s.Prelude.Perm.{Permᴰ, Permᴰ-map, keep-Permᴰ, Permᴰ-nil}

-- A specification of the cluster, with names that do not disturb the tags.
abbrev pub IsOf : Text → NodeSpec → Type 0
IsOf cluster spec = (spec.cluster_name ≡ cluster) × IsPlain spec.pool

pub nodes_of-append :
    (cluster : Text) (rs ts : List ClusterResource)
    → nodes_of cluster (rs ++ ts) ≡ nodes_of cluster rs ++ nodes_of cluster ts
unfolding nodes_of
nodes_of-append cluster rs ts = rw (keep-append, map-append) refl

module _ (P : Platform) (source : Text) where
  -- What ListNodes makes of the VMs of specifications.
  unfoldable pub listed : ℕ → List NodeSpec → List Node
  listed n [] = []
  listed n (spec ∷ specs) =
      listed_node spec (vm_resource (pos (n + 1), built_vm P source (pos (n + 1)) spec))
      ∷ listed (n + 1) specs

  built-IsTagged :
      (cluster : Text) (n : ℤ) (spec : NodeSpec)
      → spec.cluster_name ≡ cluster
      → IsTagged cluster spec (vm_resource (n, built_vm P source n spec))
  unfolding vm_resource
  built-IsTagged cluster n spec e =
      let (name, node, tags, template) = built_vm-tagged P source n spec in
      (tags ∙ ap (λ x. build_tags x spec) e, ap is_one template)

  nodes_of-entries :
      (cluster : Text) (n : ℕ) (specs : List NodeSpec)
      → IsPlain cluster
      → All (IsOf cluster) specs
      → nodes_of cluster (map vm_resource (entries P source n specs)) ≡ listed n specs
  unfolding entries listed
  nodes_of-entries cluster n [] plain h = unfold nodes_of keep in refl
  nodes_of-entries cluster n (spec ∷ specs) plain ((of, pool), h) =
      nodes_of-tagged cluster spec _ plain pool (built-IsTagged cluster (pos (n + 1)) spec of)
        cluster _
      ∙ rw (eq_refl cluster, nodes_of-entries cluster (n + 1) specs plain h) refl

  pub listed-names :
      (n : ℕ) (specs : List NodeSpec)
      → map (λ (m : Node). m.name) (listed n specs) ≡ map (λ (spec : NodeSpec). spec.name) specs
  unfolding listed vm_resource
  listed-names n [] = refl
  listed-names n (spec ∷ specs) =
      rw ((built_vm-tagged P source (pos (n + 1)) spec).0, listed-names (n + 1) specs) refl

  -- The numbers up to `n` are not among those behind it.
  pub entries-IsFree :
      (j n : ℕ) (specs : List NodeSpec) → j ≤ n → IsFree (pos j) (entries P source n specs)
  unfolding entries
  entries-IsFree j n [] h = tt
  entries-IsFree j n (spec ∷ specs) h =
      (λ e. omega (arith, ap pos_part e), entries-IsFree j (n + 1) specs (omega arith))

-- What ListNodes on the fake server keeps of its VMs, in the order of the range over them.
abbrev pub shown : Platform → Text → Server → List Node
shown P cluster s = nodes_of cluster (map vm_resource (P.range_of s))

nodes_of-Permᴰ :
    (cluster : Text) {rs ts : List ClusterResource}
    → Permᴰ rs ts
    → Permᴰ (nodes_of cluster rs) (nodes_of cluster ts)
unfolding nodes_of
nodes_of-Permᴰ cluster p = Permᴰ-map node_of (keep-Permᴰ (is_listed cluster) p)

module _ (c : Client) (P : Platform) (around : Surroundings c P) (cluster : Text) where
  shown-Permᴰ : (s : Server) → Permᴰ (shown P cluster s) (nodes_of cluster (map vm_resource s.vms))
  shown-Permᴰ s = nodes_of-Permᴰ cluster (Permᴰ-map vm_resource (around.ranged s))

  pub nothing_shown :
      (s : Server) → nodes_of cluster (map vm_resource s.vms) ≡ [] → shown P cluster s ≡ []
  nothing_shown s e = Permᴰ-nil (subst (Permᴰ (shown P cluster s)) e (shown-Permᴰ s))

  -- The nodes of specifications, and no others, are shown, in some order.
  pub shown-listed :
      (source : Text) (specs : List NodeSpec) (base : VmMap) (n : ℕ) (s : Server)
      → IsPlain cluster
      → All (IsOf cluster) specs
      → nodes_of cluster (map vm_resource base) ≡ []
      → s.vms ≡ base ++ entries P source n specs
      → Permᴰ (shown P cluster s) (listed P source n specs)
  shown-listed source specs base n s plain h none_yet e =
      subst (Permᴰ (shown P cluster s)) all (shown-Permᴰ s)
    where
      all : nodes_of cluster (map vm_resource s.vms) ≡ listed P source n specs
      all =
          rw
            (
              e,
              map-append,
              nodes_of-append,
              none_yet,
              nodes_of-entries P source cluster n specs plain h,
            )
            refl

  pub list_nodes_lem :
      (floats : Floats) (left : ℕ) (template storage : Text) (s : Server) (strategy : Strategy)
      → list_nodes floats (client_api c (fake_http P) left) template storage cluster (s, strategy)
        ≡ (ok (shown P cluster s), (s, strategy))
  unfolding list_nodes
  list_nodes_lem floats left template storage s strategy = rw (list_resources_lem c P around s) refl
