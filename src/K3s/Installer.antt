-- ===== src/K3s/Installer.antt =====
-- internal/adapter/k3s/installer.go: the scripts that are run on the hosts, and the files that are
-- read from them. The scripts are the texts of the folder scripts.
pub mod Output
use proxmox_k3s.Prelude.{ℕ, List, [], ◌∷◌, ◌++◌, map, Option, none, some, Bool, if◌then◌else◌}
use proxmox_k3s.Prelude.Int.{ℤ}
use proxmox_k3s.Prelude.Text.{Text, codes, trim_space}
use proxmox_k3s.Prelude.Decimal.{decimal}
use proxmox_k3s.Prelude.Result.{Result, ok, err, map_err, Exec}
use proxmox_k3s.Domain.Error.{Error, k3s_install, api, wrap}
use proxmox_k3s.Domain.Model.{Cluster, Node, node_ip}
use proxmox_k3s.Ssh.{Executor}
use proxmox_k3s.K3s.Template.{Engine, render_template}
use proxmox_k3s.K3s.Installer.Output.{write_prefixed}

-- masterScriptData
pub record MasterScriptData : Type 0 where
  pub version : Text
  pub vip : Text
  pub cluster_cidr : Text
  pub service_cidr : Text
  pub cni : Text
  pub token : Text
  pub sans : List Text
  pub extra_args : List Text

-- workerScriptData
pub record WorkerScriptData : Type 0 where
  pub version : Text
  pub vip : Text
  pub token : Text
  pub node_labels : List Text
  pub node_taints : List Text
  pub extra_args : List Text

-- The three embedded scripts, and text/template on their data.
pub record Scripts : Type 0 where
  pub masters : Engine MasterScriptData
  pub workers : Engine WorkerScriptData
  pub master_first : Text
  pub master_join : Text
  pub worker_join : Text

-- clusterToken
unfoldable pub cluster_token : Text → Text
cluster_token name = codes "proxmox-k3s-" ++ name

unfoldable pub master_data : Cluster → Node → Text → MasterScriptData
master_data c n token = record {
  version = c.k3s.version;
  vip = c.network.control_plane_vip;
  cluster_cidr = c.k3s.cluster_cidr;
  service_cidr = c.k3s.service_cidr;
  cni = c.k3s.cni;
  token = token;
  sans = node_ip n ∷ [];
  extra_args = [];
}

-- The labels come in the order in which the map is gone through.
unfoldable pub worker_data : Cluster → Node → Text → WorkerScriptData
worker_data c n token = record {
  version = c.k3s.version;
  vip = c.network.control_plane_vip;
  token = token;
  node_labels = map (λ (kv : Text × Text). kv.0 ++ (b'=' ∷ kv.1)) n.labels;
  node_taints = n.taints;
  extra_args = [];
}

abbrev pub manifest_path : Text
manifest_path = codes "/tmp/proxmox-k3s-manifest.yaml"

unfoldable pub script_path : Text → Text
script_path name = codes "/tmp/proxmox-k3s-" ++ (name ++ codes ".sh")

-- `return domain.ErrK3sInstall(host, err)`, or nil
abbrev pub unless_failed : (Text → Error) → Option Text → Result Error Unit
unless_failed f none = ok tt
unless_failed f (some e) = err (f e)

module _ {S : Type 0} (E : Executor S) where
  -- runScript behind the upload.
  after_upload : Text → Text → Option Text → Exec S Error Unit
  unfolding script_path write_prefixed
  after_upload host name (some e) s =
      (err (wrap (codes "uploading " ++ (name ++ codes " script")) (api e)), s)
  after_upload host name none s =
      let (e, s') =
        E.run_stream host (codes "sudo bash " ++ script_path name) (write_prefixed host) s in
      (unless_failed (λ e. k3s_install host (api e)) e, s')

  -- runScript
  unfoldable pub run_script : Text → Text → Text → Exec S Error Unit
  unfolding after_upload script_path
  run_script host name script s =
      let (e, s') = E.upload host (script_path name) script 493 s in after_upload host name e s'

  -- The script is run if it has been rendered.
  run_rendered : Text → Text → Result Text Text → Exec S Error Unit
  unfolding run_script
  run_rendered host name (ok script) s = run_script host name script s
  run_rendered host name (err e) s =
      (err (wrap (codes "rendering " ++ (name ++ codes " script")) (api e)), s)

  module _ (T : Scripts) where
    unfoldable pub install_first_master : Cluster → Node → Exec S Error Unit
    unfolding run_rendered render_template master_data cluster_token node_ip
    install_first_master c n =
        run_rendered (node_ip n) (codes "master-first")
          (render_template T.masters T.master_first (master_data c n (cluster_token c.name)))

    unfoldable pub install_master : Cluster → Text → Node → Exec S Error Unit
    unfolding run_rendered render_template master_data node_ip
    install_master c token n =
        run_rendered (node_ip n) (codes "master-join")
          (render_template T.masters T.master_join (master_data c n token))

    unfoldable pub install_worker : Cluster → Text → Node → Exec S Error Unit
    unfolding run_rendered render_template worker_data node_ip
    install_worker c token n =
        run_rendered (node_ip n) (codes "worker-join")
          (render_template T.workers T.worker_join (worker_data c n token))

  -- What is made of stdout and the error of Run.
  read_out : (Text → Error) → (Text → Text) → Text × Option Text → Result Error Text
  read_out f g (out, none) = ok (g out)
  read_out f g (out, some e) = err (f e)

  unfoldable pub fetch_token : Node → Exec S Error Text
  unfolding read_out trim_space node_ip
  fetch_token n s =
      let (r, s') = E.run (node_ip n) (codes "sudo cat /var/lib/rancher/k3s/server/node-token") s in
      (read_out (λ e. wrap (codes "fetching K3s token from " ++ n.name) (api e)) trim_space r, s')

  unfoldable pub fetch_kubeconfig : Node → Exec S Error Text
  unfolding read_out node_ip
  fetch_kubeconfig n s =
      let (r, s') = E.run (node_ip n) (codes "sudo cat /etc/rancher/k3s/k3s.yaml") s in
      (
        read_out (λ e. wrap (codes "fetching kubeconfig from " ++ n.name) (api e)) (λ out. out) r,
        s',
      )

  -- A command of which only the error counts.
  unfoldable pub run_only : Text → Text → Exec S Error Unit
  run_only host cmd s = let (r, s') = E.run host cmd s in (unless_failed api r.1, s')

  apply_uploaded : Node → Option Text → Exec S Error Unit
  unfolding run_only node_ip
  apply_uploaded n (some e) s = (err (wrap (codes "uploading manifest to " ++ n.name) (api e)), s)
  apply_uploaded n none s = run_only (node_ip n) (codes "kubectl apply -f " ++ manifest_path) s

  unfoldable pub apply_manifest : Node → Text → Exec S Error Unit
  unfolding apply_uploaded node_ip
  apply_manifest n manifest s =
      let (e, s') = E.upload (node_ip n) manifest_path manifest 420 s in apply_uploaded n e s'

  unfoldable pub wait_nodes_ready : Node → ℕ → Exec S Error Unit
  unfolding run_only node_ip
  wait_nodes_ready n count = run_only (node_ip n) (
      codes "until [ \"$(kubectl get nodes --no-headers 2>/dev/null | grep -c ' Ready')\" -ge "
      ++ (decimal count ++ codes " ]; do sleep 5; done"))
