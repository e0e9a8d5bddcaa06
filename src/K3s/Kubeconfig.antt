-- ===== src/K3s/Kubeconfig.antt =====
-- internal/adapter/k3s/kubeconfig.go on parsed documents: RewriteKubeconfig and mergeConfigs. The
-- YAML parser is a parameter. What a user entry holds is any type. `fold` is
-- strings.EqualFold.
pub mod Merge
pub mod File
pub mod Rewritten
use proxmox_k3s.Prelude.{
  List, [], ◌∷◌, ◌++◌, map, Option, none, some, Bool, true, false, ◌||◌, if◌then◌else◌,
}
use proxmox_k3s.Prelude.Text.{Text, codes, ◌==◌}

pub record KubeCluster : Type 0 where
  pub name : Text
  pub server : Text
  pub certificate_authority : Text

pub record KubeContext : Type 0 where
  pub name : Text
  pub cluster : Text
  pub user : Text

pub record KubeUser (U : Type 0) : Type 0 where
  pub name : Text
  pub user : U

pub record KubeConfig (U : Type 0) : Type 0 where
  pub api_version : Text
  pub kind : Text
  pub clusters : List KubeCluster
  pub contexts : List KubeContext
  pub users : List (KubeUser U)
  pub current_context : Text

abbrev pub server_of : Text → Text
server_of vip = codes "https://" ++ (vip ++ codes ":6443")

abbrev pub admin : Text → Text
admin cluster = cluster ++ codes "-admin"

-- RewriteKubeconfig: every entry gets the cluster's names, and the server is the virtual address.
unfoldable pub rewrite_kubeconfig : {U : Type 0} → KubeConfig U → Text → Text → KubeConfig U
rewrite_kubeconfig {U} kc cluster vip = record kc {
  clusters =
      map (λ (c : KubeCluster). record c { name = cluster; server = server_of vip }) kc.clusters;
  contexts =
      map {B = KubeContext}
        (λ (c : KubeContext). record { name = cluster; cluster = cluster; user = admin cluster })
        kc.contexts;
  users = map (λ (u : KubeUser U). record u { name = admin cluster }) kc.users;
  current_context = cluster;
}

-- clusterExists
unfoldable pub cluster_exists : List KubeCluster → Text → Bool
cluster_exists [] name = false
cluster_exists (c ∷ cs) name = c.name == name || cluster_exists cs name

-- userExists
unfoldable pub user_exists : {U : Type 0} → List (KubeUser U) → Text → Bool
user_exists [] name = false
user_exists (u ∷ us) name = u.name == name || user_exists us name

-- contextExists, which does not mind the case.
unfoldable pub context_exists : (Text → Text → Bool) → List KubeContext → Text → Bool
context_exists fold [] name = false
context_exists fold (c ∷ cs) name = fold c.name name || context_exists fold cs name

-- The inner loop over the clusters: each of that name is replaced.
unfoldable pub replace_cluster : KubeCluster → List KubeCluster → List KubeCluster
replace_cluster c = map (λ (x : KubeCluster). if x.name == c.name then c else x)

unfoldable pub put_cluster : List KubeCluster → KubeCluster → List KubeCluster
unfolding cluster_exists replace_cluster
put_cluster cs c = if cluster_exists cs c.name then replace_cluster c cs else cs ++ c ∷ []

unfoldable pub merge_clusters : List KubeCluster → List KubeCluster → List KubeCluster
unfolding put_cluster
merge_clusters cs [] = cs
merge_clusters cs (e ∷ extra) = merge_clusters (put_cluster cs e) extra

unfoldable pub put_context :
    (Text → Text → Bool) → List KubeContext → KubeContext → List KubeContext
unfolding context_exists
put_context fold cs c = if context_exists fold cs c.name then cs else cs ++ c ∷ []

unfoldable pub merge_contexts :
    (Text → Text → Bool) → List KubeContext → List KubeContext → List KubeContext
unfolding put_context
merge_contexts fold cs [] = cs
merge_contexts fold cs (e ∷ extra) = merge_contexts fold (put_context fold cs e) extra

unfoldable pub put_user : {U : Type 0} → List (KubeUser U) → KubeUser U → List (KubeUser U)
unfolding user_exists
put_user us u = if user_exists us u.name then us else us ++ u ∷ []

unfoldable pub merge_users :
    {U : Type 0} → List (KubeUser U) → List (KubeUser U) → List (KubeUser U)
unfolding put_user
merge_users us [] = us
merge_users us (e ∷ extra) = merge_users (put_user us e) extra

-- mergeConfigs: everything else stays that of `base`, the current context too.
unfoldable pub merge_configs :
    {U : Type 0} → (Text → Text → Bool) → KubeConfig U → KubeConfig U → KubeConfig U
unfolding merge_clusters merge_contexts merge_users
merge_configs fold base extra = record base {
  clusters = merge_clusters base.clusters extra.clusters;
  contexts = merge_contexts fold base.contexts extra.contexts;
  users = merge_users base.users extra.users;
}
