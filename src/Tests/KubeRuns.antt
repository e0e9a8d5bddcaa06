-- ===== src/Tests/KubeRuns.antt =====
-- Runs of the kubeconfig's rewriting and merging.
use proxmox_k3s.Prelude.{[], ◌∷◌, some, ◌≡◌, refl, All}
use proxmox_k3s.Prelude.Text.{Text, codes, ◌==◌}
use proxmox_k3s.K3s.Kubeconfig.{KubeConfig, server_of, rewrite_kubeconfig, merge_configs}
use proxmox_k3s.K3s.Kubeconfig.Merge.{find_cluster, find_user, newest, first, merge_configs-finds}
use proxmox_k3s.K3s.Kubeconfig.Rewritten.{
  Serves, Knows, rewrite_kubeconfig-linked, merge_rewritten-Serves,
}

-- What k3s writes, with a password as the user's credential.
abbrev written : Text → KubeConfig Text
written secret = record {
  api_version = codes "v1";
  kind = codes "Config";
  clusters =
      record {
        name = codes "default";
        server = codes "https://127.0.0.1:6443";
        certificate_authority = [];
      }
      ∷ [];
  contexts =
      record { name = codes "default"; cluster = codes "default"; user = codes "default" } ∷ [];
  users = record { name = codes "default"; user = secret } ∷ [];
  current_context = codes "default";
}

-- The document of an earlier cluster of the same name.
abbrev old : KubeConfig Text
old = record {
  api_version = codes "v1";
  kind = codes "Config";
  clusters =
      record {
        name = codes "lab";
        server = codes "https://10.0.0.8:6443";
        certificate_authority = [];
      }
      ∷ [];
  contexts = record { name = codes "lab"; cluster = codes "lab"; user = codes "lab-admin" } ∷ [];
  users = record { name = codes "lab-admin"; user = codes "old secret" } ∷ [];
  current_context = codes "lab";
}

abbrev fresh : KubeConfig Text
fresh = written (codes "new secret")

rewrite_kubeconfig-linked_example :
    All
      (λ x.
        (x.name ≡ codes "lab")
        × (Serves x.cluster
              (server_of (codes "10.0.0.9"))
              (rewrite_kubeconfig fresh (codes "lab") (codes "10.0.0.9")).clusters
            × Knows x.user (rewrite_kubeconfig fresh (codes "lab") (codes "10.0.0.9")).users))
      (rewrite_kubeconfig fresh (codes "lab") (codes "10.0.0.9")).contexts
    × ((rewrite_kubeconfig fresh (codes "lab") (codes "10.0.0.9")).current_context ≡ codes "lab")
rewrite_kubeconfig-linked_example =
    rewrite_kubeconfig-linked fresh (codes "lab") (codes "10.0.0.9") (λ e. cc) (λ e. cc)

merge_rewritten-Serves_example :
    Serves
      (codes "lab")
      (server_of (codes "10.0.0.9"))
      (merge_configs ◌==◌ old (rewrite_kubeconfig fresh (codes "lab") (codes "10.0.0.9"))).clusters
merge_rewritten-Serves_example =
    merge_rewritten-Serves ◌==◌ old fresh (codes "lab") (codes "10.0.0.9") (λ e. cc)

merge_configs-finds_example :
    (find_cluster (codes "lab") (merge_configs ◌==◌ old fresh).clusters
      ≡ newest (codes "lab") fresh.clusters (find_cluster (codes "lab") old.clusters))
    × (find_user (codes "lab") (merge_configs ◌==◌ old fresh).users
        ≡ first (find_user (codes "lab") old.users) (find_user (codes "lab") fresh.users))
    × ((merge_configs ◌==◌ old fresh).current_context ≡ old.current_context)
merge_configs-finds_example = merge_configs-finds ◌==◌ old fresh (codes "lab")

-- The old credential stays.
stale :
    find_user
      (codes "lab-admin")
      (merge_configs ◌==◌ old (rewrite_kubeconfig fresh (codes "lab") (codes "10.0.0.9"))).users
    ≡ some (record { name = codes "lab-admin"; user = codes "old secret" })
unfolding merge_configs rewrite_kubeconfig ◌==◌
stale = refl
