-- ===== src/K3s/Kubeconfig/Rewritten.antt =====
-- RewriteKubeconfig of internal/adapter/k3s/kubeconfig.go, alone and before a merge.
use proxmox_k3s.Prelude.{List, [], ◌∷◌, map, Option, some, Bool, ◌≡◌, ◌≢◌, refl, All}
use proxmox_k3s.Prelude.Text.{Text, eq_refl}
use proxmox_k3s.K3s.Kubeconfig.{
  KubeCluster, KubeContext, KubeUser, KubeConfig, server_of, admin, rewrite_kubeconfig,
  merge_configs,
}
use proxmox_k3s.K3s.Kubeconfig.Merge.{find_cluster, find_user, newest, merge_configs-finds}

-- The document has a cluster of that name, at that server.
abbrev pub Serves : Text → Text → List KubeCluster → Type 0
Serves n server cs = (c : KubeCluster) × (find_cluster n cs ≡ some c) × (c.server ≡ server)

module _ {U : Type 0} where
  -- The document has a user of that name.
  abbrev pub Knows : Text → List (KubeUser U) → Type 0
  Knows n us = (u : KubeUser U) × (find_user n us ≡ some u)

  rewritten-Serves :
      (kc : KubeConfig U) (n vip : Text)
      → kc.clusters ≢ []
      → Serves n (server_of vip) (rewrite_kubeconfig kc n vip).clusters
  unfolding rewrite_kubeconfig
  rewritten-Serves kc n vip h = by_clusters kc.clusters h
    where
      by_clusters :
          (cs : List KubeCluster)
          → cs ≢ []
          → Serves n
              (server_of vip)
              (map (λ (c : KubeCluster). record c { name = n; server = server_of vip }) cs)
      by_clusters [] h = absurd (h refl)
      by_clusters (c ∷ cs) h =
          (record c { name = n; server = server_of vip }, rw (eq_refl n) refl, refl)

  rewritten-Knows :
      (kc : KubeConfig U) (n vip : Text)
      → kc.users ≢ []
      → Knows (admin n) (rewrite_kubeconfig kc n vip).users
  unfolding rewrite_kubeconfig
  rewritten-Knows kc n vip h = by_users kc.users h
    where
      by_users :
          (us : List (KubeUser U))
          → us ≢ []
          → Knows (admin n) (map (λ (u : KubeUser U). record u { name = admin n }) us)
      by_users [] h = absurd (h refl)
      by_users (u ∷ us) h = (record u { name = admin n }, rw (eq_refl (admin n)) refl)

  -- If a document has a cluster and a user, then after the rewriting each of its contexts has the
  -- cluster's name, and leads to a cluster of the document at the virtual address and to a user of
  -- the document; and the current context has the cluster's name.
  pub rewrite_kubeconfig-linked :
      (kc : KubeConfig U) (n vip : Text)
      → kc.clusters ≢ []
      → kc.users ≢ []
      → All
          (λ x.
            (x.name ≡ n)
            × (Serves x.cluster (server_of vip) (rewrite_kubeconfig kc n vip).clusters
                × Knows x.user (rewrite_kubeconfig kc n vip).users))
          (rewrite_kubeconfig kc n vip).contexts
        × ((rewrite_kubeconfig kc n vip).current_context ≡ n)
  unfolding rewrite_kubeconfig
  rewrite_kubeconfig-linked kc n vip hc hu = (by_contexts kc.contexts, refl)
    where
      by_contexts :
          (xs : List KubeContext)
          → All
              (λ x.
                (x.name ≡ n)
                × (Serves x.cluster (server_of vip) (rewrite_kubeconfig kc n vip).clusters
                    × Knows x.user (rewrite_kubeconfig kc n vip).users))
              (map {B = KubeContext}
                (λ (x : KubeContext). record { name = n; cluster = n; user = admin n })
                xs)
      by_contexts [] = tt
      by_contexts (x ∷ xs) =
          ((refl, (rewritten-Serves kc n vip hc, rewritten-Knows kc n vip hu)), by_contexts xs)

  -- If the document has a cluster, then merging the rewritten document into any other makes the name
  -- of the cluster lead to the virtual address, whatever stood there before.
  pub merge_rewritten-Serves :
      (fold : Text → Text → Bool) (base kc : KubeConfig U) (n vip : Text)
      → kc.clusters ≢ []
      → Serves n (server_of vip) (merge_configs fold base (rewrite_kubeconfig kc n vip)).clusters
  unfolding rewrite_kubeconfig
  merge_rewritten-Serves fold base kc n vip h =
      rw ((merge_configs-finds fold base (rewrite_kubeconfig kc n vip) n).0)
        (start kc.clusters (find_cluster n base.clusters) h)
    where
      Found : Option KubeCluster → Type 0
      Found o = (c : KubeCluster) × (o ≡ some c) × (c.server ≡ server_of vip)

      rest :
          (cs : List KubeCluster) (o : Option KubeCluster)
          → Found o
          → Found (
              newest n
                (map (λ (c : KubeCluster). record c { name = n; server = server_of vip }) cs)
                o)
      rest [] o f = f
      rest (c ∷ cs) o f =
          rw (newest, eq_refl n)
            (rest cs (some (record c { name = n; server = server_of vip }))
              (record c { name = n; server = server_of vip }, refl, refl))

      start :
          (cs : List KubeCluster) (o : Option KubeCluster)
          → cs ≢ []
          → Found (
              newest n
                (map (λ (c : KubeCluster). record c { name = n; server = server_of vip }) cs)
                o)
      start [] o h = absurd (h refl)
      start (c ∷ cs) o h =
          rw (newest, eq_refl n)
            (rest cs (some (record c { name = n; server = server_of vip }))
              (record c { name = n; server = server_of vip }, refl, refl))
