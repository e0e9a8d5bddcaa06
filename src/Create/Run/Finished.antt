-- ===== src/Create/Run/Finished.antt =====
-- What has happened when Pipeline.Run of internal/usecase/create/create.go succeeds.
use proxmox_k3s.Prelude.{◌↔◌, ◌≡◌, refl, ap, sym, subst, ◌∙◌, List, [], ◌∷◌}
use proxmox_k3s.Prelude.Text.{Text, codes}
use proxmox_k3s.Prelude.Result.{Result, ok, Exec, continue-eq-ok, wrapping-eq-ok, unwrapped}
use proxmox_k3s.Domain.Error.{Error, api}
use proxmox_k3s.Domain.Model.{Cluster, Node}
use proxmox_k3s.Net.{Ipv6}
use proxmox_k3s.Infra.{InfraProvider}
use proxmox_k3s.Ssh.{Executor}
use proxmox_k3s.K3s.Version.{resolve}
use proxmox_k3s.Create.Phases.{ready_nodes}
use proxmox_k3s.Create.ControlPlane.{bootstrap_control_plane, join_workers, install_addons}
use proxmox_k3s.Create.ControlPlane.Joined.{Bootstrapped, bootstrap_iff}
use proxmox_k3s.Create.Run.{
  Tools, Stop, failed, stop_at, with_version, write_kubeconfig, on_masters, install_k3s,
  on_provider, on_hosts, run,
}

module _ {S : Type 0} (W : Tools S) where
  -- The part of a run behind the VMs, on hosts and files that were in state `s` and end in state `t`.
  pub record Installed (c : Cluster) (masters workers : List Node) (s t : S) : Type 0 where
    pub first : Node
    pub others : List Node
    pub all_masters : masters ≡ first ∷ others
    pub executor : Executor S
    pub version : Text
    pub token : Text
    pub connected : S
    pub resolved : S
    pub bootstrapped : S
    pub connects :
        W.new_executor c.network.ssh.private_key_path (codes "ubuntu") c.network.ssh.port s
        ≡ (ok executor, connected)
    pub resolves : resolve W.releases c.k3s.version connected ≡ (ok version, resolved)
    pub control_plane :
        Bootstrapped executor W.scripts
          (with_version c version)
          first
          others
          token
          resolved
          bootstrapped
    pub kubeconfig :
        write_kubeconfig W executor (with_version c version) first (
          install_addons executor W.scripts
            (with_version c version)
            W.kube_vip
            first
            others
            (join_workers executor W.scripts (with_version c version) token workers bootstrapped))
        ≡ (ok tt, t)

  -- Phases 6 to 9 with masters.
  on_masters-eq-ok :
      (E : Executor S) (c : Cluster) (first : Node) (others workers : List Node) (s t : S)
      → on_masters W E c (first ∷ others) workers s ≡ (ok tt, t)
      → (token : Text) × (mid : S) × Bootstrapped E W.scripts c first others token s mid
        × (write_kubeconfig W E c first (
              install_addons E W.scripts c W.kube_vip first others
                (join_workers E W.scripts c token workers mid))
            ≡ (ok tt, t))
  unfolding on_masters
  on_masters-eq-ok E c first others workers s t e =
      let (token, mid, boots, e1) =
        wrapping-eq-ok (stop_at (codes "bootstrapping control plane"))
          (bootstrap_control_plane E W.scripts c first others) _ s t e in
      (
        token,
        mid,
        (bootstrap_iff E W.scripts c first others token s mid).0 boots,
        unwrapped (stop_at (codes "writing kubeconfig")) (write_kubeconfig W E c first)
            (install_addons E W.scripts c W.kube_vip first others
              (join_workers E W.scripts c token workers mid))
            t tt e1,
      )

  -- The parts in front of phase 6, for each list of masters.
  with_masters :
      (c : Cluster) (masters workers : List Node) (E : Executor S) (version : Text)
      (s connected resolved t : S)
      → W.new_executor c.network.ssh.private_key_path (codes "ubuntu") c.network.ssh.port s
        ≡ (ok E, connected)
      → resolve W.releases c.k3s.version connected ≡ (ok version, resolved)
      → on_masters W E (with_version c version) masters workers resolved ≡ (ok tt, t)
      → Installed c masters workers s t
  unfolding on_masters
  with_masters c [] workers E version s connected resolved t he hr e = cc
  with_masters c (first ∷ others) workers E version s connected resolved t he hr e =
      let (token, mid, boots, wrote) =
        on_masters-eq-ok E (with_version c version) first others workers resolved t e in
      record {
        first = first;
        others = others;
        all_masters = refl;
        executor = E;
        version = version;
        token = token;
        connected = connected;
        resolved = resolved;
        bootstrapped = mid;
        connects = he;
        resolves = hr;
        control_plane = boots;
        kubeconfig = wrote;
      }

  install_k3s-Installed :
      (c : Cluster) (masters workers : List Node) (s t : S)
      → install_k3s W c (masters, workers) s ≡ (ok tt, t)
      → Installed c masters workers s t
  unfolding install_k3s
  install_k3s-Installed c masters workers s t e =
      let (E, connected, he, e1) =
        wrapping-eq-ok (λ why. stop_at (codes "creating SSH executor") (api why))
          (W.new_executor c.network.ssh.private_key_path (codes "ubuntu") c.network.ssh.port) _ s t
          e in
      let (version, resolved, hr, e2) =
        wrapping-eq-ok (λ why. stop_at (codes "resolving K3s version") (api why))
          (resolve W.releases c.k3s.version) _ connected t e1 in
      with_masters c masters workers E version s connected resolved t he hr e2

  Installed-install_k3s :
      (c : Cluster) (masters workers : List Node) (s t : S)
      → Installed c masters workers s t
      → install_k3s W c (masters, workers) s ≡ (ok tt, t)
  unfolding install_k3s on_masters
  Installed-install_k3s c masters workers s t i =
      let boots =
        (bootstrap_iff i.executor W.scripts (with_version c i.version) i.first i.others i.token
            i.resolved i.bootstrapped).1
          i.control_plane in
      rw (i.all_masters, i.connects, i.resolves, boots, i.kubeconfig) refl

  module _ (v6 : Ipv6) (I : InfraProvider) where
    open I use {State}

    on_provider-eq-ok :
        {A : Type 0} (m : Exec State Error A) (p : State) (s : S) (x : A) (mid : State × S)
        → on_provider W v6 I m (p, s) ≡ (ok x, mid)
        → (m p ≡ (ok x, mid.0)) × (s ≡ mid.1)
    unfolding on_provider
    on_provider-eq-ok {A} m p s x mid e =
        (unwrapped failed m p mid.0 x (ap (λ r. (r.0, r.1.0)) e), ap (λ r. r.1.1) e)

    pub run-Installed :
        (c : Cluster) (p p' : State) (s t : S)
        → run W v6 I c (p, s) ≡ (ok tt, (p', t))
        → (masters : List Node) × (workers : List Node) × (ready_nodes v6 I c p
            ≡ (ok (masters, workers), p'))
          × Installed c masters workers s t
    unfolding run on_hosts
    run-Installed c p p' s t e =
        let (nodes, mid, readied, e1) =
          continue-eq-ok (on_provider W v6 I (ready_nodes v6 I c)) _ (p, s) (p', t) e in
        let (ready, same) = on_provider-eq-ok (ready_nodes v6 I c) p s nodes mid readied in
        (
          nodes.0,
          nodes.1,
          ready ∙ ap (λ (r : Result Stop Unit × (State × S)). (ok nodes, r.1.0)) e1,
          subst (λ u. Installed c nodes.0 nodes.1 u t) (sym same)
              (install_k3s-Installed c nodes.0 nodes.1 mid.1 t
                (ap (λ (r : Result Stop Unit × (State × S)). (r.0, r.1.1)) e1)),
        )

    -- Run succeeds exactly when all VMs become ready and there is a first master; the SSH executor can
    -- be made and a version of K3s resolved; the control plane is bootstrapped with that version, every
    -- master running or joined with the token of the first; and behind the attempts at workers and
    -- addons, which cannot fail it, the kubeconfig is written from the first master. It then leaves the
    -- provider as the VMs' phases do, and the hosts and files as that writing does.
    pub run_iff :
        (c : Cluster) (p p' : State) (s t : S)
        → (run W v6 I c (p, s) ≡ (ok tt, (p', t))) ↔ (
            (masters : List Node) × (workers : List Node) × (ready_nodes v6 I c p
              ≡ (ok (masters, workers), p'))
            × Installed c masters workers s t)
    unfolding run on_provider on_hosts
    run_iff c p p' s t = (
      run-Installed c p p' s t,
      λ (masters, workers, ready, installed).
          rw (ready, Installed-install_k3s c masters workers s t installed) refl,
    )
