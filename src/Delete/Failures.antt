-- ===== src/Delete/Failures.antt =====
-- What a run of `delete` has done when it ends.
use proxmox_k3s.Prelude.{
  List, [], ◌∷◌, ◌++◌, append_assoc, append-nil, ◌≡◌, ◌≢◌, ◌⊎◌, inl, inr, refl, ◌∙◌,
}
use mathlib.Core.List.{cons-ne-nil}
use proxmox_k3s.Prelude.Text.{Text}
use proxmox_k3s.Prelude.Result.{Result, ok, err}
use proxmox_k3s.Domain.Error.{Error, failed_to_delete}
use proxmox_k3s.Domain.Model.{Cluster, Node}
use proxmox_k3s.Infra.{InfraProvider}
use proxmox_k3s.Delete.{report, noted, delete_all, delete_listed, run}

module _ (I : InfraProvider) where
  open I use {State, list_nodes, delete_node}

  -- From the first state a deletion of each node in turn leads to the last, and those that fail have
  -- these names.
  pub data Deletes : State → List Node → List Text → State → Type 0 where
    all_done : {s : State} → Deletes s [] [] s
    gone :
        {s t u : State} {n : Node} {ns : List Node} {failed : List Text}
        → delete_node n s ≡ (ok tt, t)
        → Deletes t ns failed u
        → Deletes s (n ∷ ns) failed u
    kept :
        {s t u : State} {n : Node} {ns : List Node} {failed : List Text} {e : Error}
        → delete_node n s ≡ (err e, t)
        → Deletes t ns failed u
        → Deletes s (n ∷ ns) (n.name ∷ failed) u

  Loop : State → List Node → List Text → List Text × State → Type 0
  Loop s ns acc r =
      (failed : List Text) × (u : State) × Deletes s ns failed u × (r ≡ (acc ++ failed, u))

  delete_all-Loop :
      (ns : List Node) (acc : List Text) (s : State) → Loop s ns acc (delete_all I ns acc s)
  unfolding delete_all noted Loop
  delete_all-Loop [] acc s = ([], s, all_done, rw append-nil refl)
  delete_all-Loop (n ∷ ns) acc s =
      step (delete_node n s).0 (delete_node n s).1 refl (λ f t. delete_all-Loop ns f t)
    where
      step :
          (r : Result Error Unit) (t : State)
          → delete_node n s ≡ (r, t)
          → ((f : List Text) (u : State) → Loop u ns f (delete_all I ns f u))
          → Loop s (n ∷ ns) acc (delete_all I ns (noted n r acc) t)
      step (ok _) t h ih = let (failed, u, d, e) = ih acc t in (failed, u, gone h d, e)
      step (err x) t h ih =
          let (failed, u, d, e) = ih (acc ++ n.name ∷ []) t in
          (n.name ∷ failed, u, kept h d, e ∙ rw append_assoc refl)

  reported :
      (failed : List Text) (u : State)
      → ((failed ≡ []) × (◌≡◌ {A = Result Error Unit × State} (report failed, u) (ok tt, u)))
        ⊎ ((failed ≢ [])
            × (◌≡◌ {A = Result Error Unit × State}
                (report failed, u)
                (err (failed_to_delete failed), u)))
  unfolding report
  reported [] u = inl (refl, refl)
  reported (f ∷ fs) u = inr (cons-ne-nil f fs, refl)

  -- If the nodes of the cluster can be listed, each of them is deleted in turn, once, whatever becomes
  -- of the others; the run succeeds exactly when no deletion failed, and else its error names the
  -- nodes whose deletion failed, in order.
  pub run_outcome :
      (c : Cluster) (ns : List Node) (s t : State)
      → list_nodes c.name s ≡ (ok ns, t)
      → (failed : List Text) × (u : State) × Deletes t ns failed u
        × (((failed ≡ []) × (run I c s ≡ (ok tt, u)))
            ⊎ ((failed ≢ []) × (run I c s ≡ (err (failed_to_delete failed), u))))
  unfolding run Loop
  run_outcome c ns s t h =
      let (failed, u, d, e) = delete_all-Loop ns [] t in
      (failed, u, d, rw (h, delete_listed, e) (reported failed u))
