-- ===== src/Addons/MetalLb.antt =====
-- internal/adapter/kubernetes/software/metallb.go.
use proxmox_k3s.Prelude.{ℕ, zero, suc, ◌-◌, [], ◌∷◌, ◌++◌, Option, none, some, true, false, length}
use proxmox_k3s.Prelude.Text.{Text, codes}
use proxmox_k3s.Prelude.Text.Find.{starts}
use proxmox_k3s.Prelude.Result.{err, Exec}
use proxmox_k3s.Domain.Error.{Error, api, wrap}
use proxmox_k3s.Domain.Model.{Node, node_ip}
use proxmox_k3s.Ssh.{Executor}
use proxmox_k3s.K3s.Installer.{apply_manifest}

-- strings.ReplaceAll for a text `old` that is not empty; so many characters of a match are left.
replace_from : ℕ → Text → Text → Text → Text
replace_from skip [] old new = []
replace_from (suc skip) (c ∷ s) old new = replace_from skip s old new
replace_from zero (c ∷ s) old new = elim (starts (c ∷ s) old) [
  | true ↦ new ++ replace_from (length old - 1) s old new
  | false ↦ c ∷ replace_from zero s old new
]

unfoldable pub replace_all : Text → Text → Text → Text
unfolding replace_from
replace_all s old new = replace_from zero s old new

abbrev metal_lb_pool_template : Text
metal_lb_pool_template =
    codes
      "apiVersion: metallb.io/v1beta1\nkind: IPAddressPool\nmetadata:\n  name: default-pool\n  namespace: metallb-system\nspec:\n  addresses:\n  - {{ .AddressPool }}\n---\napiVersion: metallb.io/v1beta1\nkind: L2Advertisement\nmetadata:\n  name: default\n  namespace: metallb-system\nspec:\n  ipAddressPools:\n  - default-pool\n"

unfoldable pub pool_manifest : Text → Text
unfolding replace_all
pool_manifest pool = replace_all metal_lb_pool_template (codes "{{ .AddressPool }}") pool

abbrev pub install_command : Text
install_command =
    codes
      "kubectl apply -f https://raw.githubusercontent.com/metallb/metallb/v0.14.8/config/manifests/metallb-native.yaml && kubectl -n metallb-system wait --for=condition=Available deployment/controller --timeout=120s"

module _ {S : Type 0} (E : Executor S) where
  after_install : Node → Text → Option Text → Exec S Error Unit
  unfolding pool_manifest apply_manifest
  after_install n pool (some e) s = (err (wrap (codes "installing MetalLB") (api e)), s)
  after_install n pool none s = apply_manifest E n (pool_manifest pool) s

  -- MetalLBInstaller.Install
  unfoldable pub install_metal_lb : Node → Text → Exec S Error Unit
  unfolding after_install node_ip
  install_metal_lb n pool s =
      let (r, s') = E.run (node_ip n) install_command s in after_install n pool r.1 s'
