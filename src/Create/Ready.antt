-- ===== src/Create/Ready.antt =====
-- Phase 5: the nodes by role, and waiting until all of them are ready.
pub mod Waits
use proxmox_k3s.Prelude.{
  List, [], ◌∷◌, ◌++◌, ◌≡◌, refl, arith, keep, append_assoc, append-nil, Bool, true, false, not,
}
use proxmox_k3s.Prelude.Text.{codes}
use proxmox_k3s.Prelude.Result.{Result, ok, err, Exec}
use proxmox_k3s.Domain.Error.{Error, wrap}
use proxmox_k3s.Domain.Size.{NodeRole, master, worker}
use proxmox_k3s.Domain.Model.{Node}
use proxmox_k3s.Infra.{InfraProvider}

abbrev pub is_master : NodeRole → Bool
is_master master = true
is_master worker = false

-- The loop of splitByRole over its two results.
split_from : List Node → List Node → List Node → List Node × List Node
split_from [] masters workers = (masters, workers)
split_from (n ∷ ns) masters workers = elim (is_master n.role) [
  | true ↦ split_from ns (masters ++ n ∷ []) workers
  | false ↦ split_from ns masters (workers ++ n ∷ [])
]

unfoldable pub split_by_role : List Node → List Node × List Node
unfolding split_from
split_by_role nodes = split_from nodes [] []

module _ (I : InfraProvider) where
  open I use {State, wait_ready}

  after_wait :
      Node
      → List Node
      → (List Node → Exec State Error (List Node))
      → Result Error Node
      → Exec State Error (List Node)
  after_wait n ready next (ok r) s = next (ready ++ r ∷ []) s
  after_wait n ready next (err e) s = (err (wrap (codes "waiting for " ++ n.name) e), s)

  wait_from : List Node → List Node → Exec State Error (List Node)
  unfolding after_wait
  wait_from [] ready s = (ok ready, s)
  wait_from (n ∷ ns) ready s =
      let (r, s') = wait_ready n s in after_wait n ready (wait_from ns) r s'

  -- Pipeline.waitAllReady
  unfoldable pub wait_all_ready : List Node → Exec State Error (List Node)
  unfolding wait_from
  wait_all_ready nodes = wait_from nodes []

split_from-keep :
    (ns ms ws : List Node)
    → split_from ns ms ws
      ≡ (ms ++ keep (λ n. is_master n.role) ns, ws ++ keep (λ n. not (is_master n.role)) ns)
unfolding split_from keep
split_from-keep [] ms ws = rw append-nil (rw append-nil refl)
split_from-keep (n ∷ ns) ms ws = ground (
  arith,
  split_from-keep ns (ms ++ n ∷ []) ws,
  split_from-keep ns ms (ws ++ n ∷ []),
  append_assoc ms (n ∷ []) (keep (λ n. is_master n.role) ns),
  append_assoc ws (n ∷ []) (keep (λ n. not (is_master n.role)) ns),
)

-- The masters and the other nodes, each in the order of the whole list: no node is lost and none
-- stands in both lists.
pub split_by_role-keep :
    (nodes : List Node)
    → split_by_role nodes
      ≡ (keep (λ n. is_master n.role) nodes, keep (λ n. not (is_master n.role)) nodes)
unfolding split_by_role
split_by_role-keep nodes = split_from-keep nodes [] []
