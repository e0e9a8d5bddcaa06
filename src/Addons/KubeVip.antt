-- ===== src/Addons/KubeVip.antt =====
-- internal/adapter/kubernetes/software/kubevip.go: the manifest of kube-vip is put on every master.
-- text/template is a parameter.
use proxmox_k3s.Prelude.{List, [], ◌∷◌, ◌++◌, Option, none, some}
use proxmox_k3s.Prelude.Text.{Text, codes}
use proxmox_k3s.Prelude.Result.{Result, ok, err, Exec}
use proxmox_k3s.Domain.Error.{Error, api, wrap}
use proxmox_k3s.Domain.Model.{Node, node_ip}
use proxmox_k3s.Ssh.{Executor}
use proxmox_k3s.K3s.Template.{Engine}

-- kubeVIPData
pub record KubeVipData : Type 0 where
  pub version : Text
  pub vip : Text
  pub interface : Text

abbrev kube_vip_manifest : Text
kube_vip_manifest =
    codes
      "apiVersion: v1\nkind: Pod\nmetadata:\n  name: kube-vip\n  namespace: kube-system\nspec:\n  containers:\n  - name: kube-vip\n    image: ghcr.io/kube-vip/kube-vip:{{ .Version }}\n    args:\n    - manager\n    env:\n    - name: vip_arp\n      value: \"true\"\n    - name: port\n      value: \"6443\"\n    - name: vip_interface\n      value: \"{{ .Interface }}\"\n    - name: vip_cidr\n      value: \"32\"\n    - name: cp_enable\n      value: \"true\"\n    - name: cp_namespace\n      value: kube-system\n    - name: vip_ddns\n      value: \"false\"\n    - name: vip_leaderelection\n      value: \"true\"\n    - name: vip_leaseduration\n      value: \"5\"\n    - name: vip_renewdeadline\n      value: \"3\"\n    - name: vip_retryperiod\n      value: \"1\"\n    - name: address\n      value: \"{{ .VIP }}\"\n    securityContext:\n      capabilities:\n        add:\n        - NET_ADMIN\n        - NET_RAW\n    volumeMounts:\n    - mountPath: /etc/kubernetes/admin.conf\n      name: kubeconfig\n  hostNetwork: true\n  hostAliases:\n  - ip: 127.0.0.1\n    hostnames:\n    - kubernetes\n  volumes:\n  - name: kubeconfig\n    hostPath:\n      path: /etc/rancher/k3s/k3s.yaml\n"

abbrev pub kube_vip_path : Text
kube_vip_path = codes "/var/lib/rancher/k3s/server/manifests/kube-vip.yaml"

unfoldable pub kube_vip_data : Text → KubeVipData
kube_vip_data vip = record { version = codes "v0.8.2"; vip = vip; interface = codes "eth0" }

module _ {S : Type 0} (E : Executor S) where
  -- What follows an upload: the next master, or the error.
  after_manifest : Node → Option Text → Exec S Error Unit → Exec S Error Unit
  after_manifest n none next s = next s
  after_manifest n (some e) next s =
      (err (wrap (codes "uploading kube-vip manifest to " ++ n.name) (api e)), s)

  -- The loop over the masters.
  unfoldable pub upload_to_all : Text → List Node → Exec S Error Unit
  unfolding after_manifest node_ip
  upload_to_all manifest [] s = (ok tt, s)
  upload_to_all manifest (n ∷ ns) s =
      let (e, s') = E.upload (node_ip n) kube_vip_path manifest 420 s in
      after_manifest n e (upload_to_all manifest ns) s'

  executed : Result Text Text → List Node → Exec S Error Unit
  unfolding upload_to_all
  executed (err e) masters s = (err (wrap (codes "rendering kube-vip manifest") (api e)), s)
  executed (ok manifest) masters s = upload_to_all manifest masters s

  parsed : Option Text → Result Text Text → List Node → Exec S Error Unit
  unfolding executed
  parsed (some e) rendered masters s = (err (wrap (codes "parsing kube-vip template") (api e)), s)
  parsed none rendered masters s = executed rendered masters s

  -- KubeVIPInstaller.Install
  unfoldable pub install_kube_vip : Engine KubeVipData → List Node → Text → Exec S Error Unit
  unfolding parsed kube_vip_data
  install_kube_vip T masters vip =
      parsed (T.parse_error kube_vip_manifest) (T.execute kube_vip_manifest (kube_vip_data vip))
        masters
