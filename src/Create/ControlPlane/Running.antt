-- ===== src/Create/ControlPlane/Running.antt =====
-- Phases 6 and 7 of internal/usecase/create/create.go on hosts where K3s runs already.
use proxmox_k3s.Prelude.{ℕ, sym, ◌≡◌, refl, ◌∙◌, ap, List, [], ◌∷◌, ◌++◌, true, All, length}
use proxmox_k3s.Prelude.Text.{Text, codes}
use proxmox_k3s.Prelude.Result.{Result, ok, err, Exec, wrapping, ◌>>=◌, pure, continue}
use proxmox_k3s.Domain.Error.{Error, wrap}
use proxmox_k3s.Domain.Model.{Cluster, Node}
use proxmox_k3s.Ssh.{Executor}
use proxmox_k3s.K3s.Installer.{
  Scripts, install_first_master, install_master, install_worker, fetch_token, run_only,
  wait_nodes_ready,
}
use proxmox_k3s.Create.ControlPlane.{
  is_active, unless_active, join_masters, bootstrap_control_plane, join_workers,
}

module _ {S O : Type 0} (E : Executor S) (observe : S → O)
    (asking : (host cmd : Text) (s : S) → observe (E.run host cmd s).1 ≡ observe s) where
  -- The action does not show.
  Hidden : {A : Type 0} → Exec S Error A → Type 0
  Hidden m = (s : S) → observe (m s).1 ≡ observe s

  then-Hidden :
      {A B : Type 0} (m : Exec S Error A) (next : A → Exec S Error B)
      → Hidden m
      → ((x : A) → Hidden (next x))
      → Hidden (m >>= next)
  unfolding Hidden
  then-Hidden {A = A} {B} m next hm hn s = step (m s).0 (m s).1 refl
    where
      step : (r : Result Error A) (u : S) → m s ≡ (r, u) → observe (continue r next u).1 ≡ observe s
      step (ok x) u e = hn x u ∙ (ap (λ (p : Result Error A × S). observe p.1) (sym e) ∙ hm s)
      step (err why) u e = ap (λ (p : Result Error A × S). observe p.1) (sym e) ∙ hm s

  wrapping-Hidden :
      {A : Type 0} (f : Error → Error) (m : Exec S Error A) → Hidden m → Hidden (wrapping f m)
  unfolding Hidden
  wrapping-Hidden f m h s = h s

  fetch_token-Hidden : (n : Node) → Hidden (fetch_token E n)
  unfolding Hidden fetch_token
  fetch_token-Hidden n s = asking _ _ s

  wait_nodes_ready-Hidden : (n : Node) (count : ℕ) → Hidden (wait_nodes_ready E n count)
  unfolding Hidden wait_nodes_ready run_only
  wait_nodes_ready-Hidden n count s = asking _ _ s

  pure-Hidden : {A : Type 0} (x : A) → Hidden (pure x)
  unfolding Hidden
  pure-Hidden x s = refl

  -- The unit is active on the host at all times.
  abbrev pub IsRunning : Text → Node → Type 0
  IsRunning unit n = (s : S) → (is_active E unit n s).0 ≡ true

  unless_active-Hidden :
      (unit : Text) (n : Node) (install : Exec S Error Unit)
      → IsRunning unit n
      → Hidden (unless_active E unit n install)
  unfolding Hidden unless_active is_active
  unless_active-Hidden unit n install h s = rw (h s) (asking _ _ s)

  module _ (T : Scripts) (c : Cluster) where
    join_masters-Hidden :
        (token : Text) (ns : List Node)
        → All (IsRunning (codes "k3s")) ns
        → Hidden (join_masters E T c token ns)
    unfolding join_masters
    join_masters-Hidden token [] h = pure-Hidden tt
    join_masters-Hidden token (n ∷ ns) (hn, hs) =
        then-Hidden _ (λ u. join_masters E T c token ns)
          (unless_active-Hidden (codes "k3s") n
            (wrapping (wrap (codes "joining master " ++ n.name)) (install_master E T c token n)) hn)
          (λ u. join_masters-Hidden token ns hs)

    join_workers-observe :
        (token : Text) (ns : List Node) (s : S)
        → All (IsRunning (codes "k3s-agent")) ns
        → observe (join_workers E T c token ns s) ≡ observe s
    unfolding join_workers Hidden
    join_workers-observe token [] s h = refl
    join_workers-observe token (n ∷ ns) s (hn, hs) =
        join_workers-observe token ns _ hs
        ∙ unless_active-Hidden (codes "k3s-agent") n (install_worker E T c token n) hn s

    bootstrap-Hidden :
        (first : Node) (others : List Node)
        → All (IsRunning (codes "k3s")) (first ∷ others)
        → Hidden (bootstrap_control_plane E T c first others)
    unfolding bootstrap_control_plane
    bootstrap-Hidden first others (hf, ho) =
        then-Hidden (unless_active E (codes "k3s") first (install_first_master E T c first)) _
          (unless_active-Hidden (codes "k3s") first (install_first_master E T c first) hf)
          (λ u.
            then-Hidden (wrapping (wrap (codes "fetching cluster token")) (fetch_token E first)) _
              (wrapping-Hidden (wrap (codes "fetching cluster token")) (fetch_token E first)
                (fetch_token-Hidden first))
              (λ read.
                then-Hidden (join_masters E T c read others) _ (join_masters-Hidden read others ho)
                  (λ v.
                    then-Hidden
                      (wrapping (wrap (codes "waiting for masters Ready"))
                        (wait_nodes_ready E first (length (first ∷ others))))
                      _
                      (wrapping-Hidden (wrap (codes "waiting for masters Ready"))
                        (wait_nodes_ready E first (length (first ∷ others)))
                        (wait_nodes_ready-Hidden first (length (first ∷ others))))
                      (λ w. pure-Hidden read))))

    -- Where K3s is reported active on every master and its agent on every worker, in every state,
    -- phases 6 and 7 keep every observation that the plain commands of Run keep, whether they succeed
    -- or not: nothing is uploaded, and no script is run, that would show in one.
    pub running_cluster :
        (first : Node) (others workers : List Node) (token : Text) (s : S)
        → All (IsRunning (codes "k3s")) (first ∷ others)
        → All (IsRunning (codes "k3s-agent")) workers
        → (observe (bootstrap_control_plane E T c first others s).1 ≡ observe s)
          × (observe (join_workers E T c token workers s) ≡ observe s)
    unfolding Hidden
    running_cluster first others workers token s h hw =
        (bootstrap-Hidden first others h s, join_workers-observe token workers s hw)
