-- ===== src/Proxmox/Node.antt =====
-- internal/adapter/proxmox/node/node.go: hosts and resources as the API lists them. The field CPU, a
-- float that no code reads, is left out.
use proxmox_k3s.Prelude.{List, [], ◌∷◌, Bool, false, ◌&&◌, eqb, if◌then◌else◌}
use proxmox_k3s.Prelude.Int.{ℤ, pos, negsuc}
use proxmox_k3s.Prelude.Text.{Text, ◌==◌}
use proxmox_k3s.Prelude.Result.{Result, ok, err}
use proxmox_k3s.Domain.Error.{Error, no_such_template}

pub record PveNode : Type 0 where
  pub name : Text
  pub status : Text
  pub max_cpu : ℤ
  pub mem : ℤ
  pub max_mem : ℤ
  pub disk : ℤ
  pub max_disk : ℤ

pub record ClusterResource : Type 0 where
  pub vmid : ℤ
  pub name : Text
  pub node : Text
  pub kind : Text
  pub status : Text
  pub tags : Text
  pub template : ℤ

-- `t == 1`
abbrev pub is_one : ℤ → Bool
is_one (pos n) = eqb n 1
is_one (negsuc n) = false

-- The loop of FindTemplate over the resources that ListResources returned.
unfoldable pub find_template : Text → List ClusterResource → Result Error ClusterResource
find_template name [] = err (no_such_template name)
find_template name (r ∷ rs) =
    let rest = find_template name rs in if r.name == name && is_one r.template then ok r else rest
