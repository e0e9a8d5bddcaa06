-- ===== src/Delete.antt =====
-- internal/usecase/delete/delete.go: the pipeline behind `proxmox-k3s delete`. Its progress log is not
-- modelled.
pub mod Failures
use proxmox_k3s.Prelude.{List, [], ◌∷◌, ◌++◌}
use proxmox_k3s.Prelude.Text.{Text, codes}
use proxmox_k3s.Prelude.Result.{Result, ok, err, is_ok, Exec}
use proxmox_k3s.Domain.Error.{Error, wrap, failed_to_delete}
use proxmox_k3s.Domain.Model.{Cluster, Node}
use proxmox_k3s.Infra.{InfraProvider}

-- `if len(failed) > 0`
report : List Text → Result Error Unit
report [] = ok tt
report (f ∷ fs) = err (failed_to_delete (f ∷ fs))

-- The list `failed` after one more node.
noted : Node → Result Error Unit → List Text → List Text
noted n (ok _) failed = failed
noted n (err e) failed = failed ++ n.name ∷ []

module _ (I : InfraProvider) where
  open I use {State, list_nodes, delete_node}

  -- The loop over the nodes goes on after a failure.
  delete_all : List Node → List Text → State → List Text × State
  unfolding noted
  delete_all [] failed s = (failed, s)
  delete_all (n ∷ ns) failed s =
      let (r, s') = delete_node n s in delete_all ns (noted n r failed) s'

  delete_listed : Result Error (List Node) → Exec State Error Unit
  unfolding delete_all report
  delete_listed (err e) s = (err (wrap (codes "listing nodes") e), s)
  delete_listed (ok nodes) s = let (failed, s') = delete_all nodes [] s in (report failed, s')

  -- Pipeline.Run
  unfoldable pub run : Cluster → Exec State Error Unit
  unfolding delete_listed
  run c s = let (r, s') = list_nodes c.name s in delete_listed r s'
