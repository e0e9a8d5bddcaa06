-- ===== src/Proxmox/Tags.antt =====
-- The tags that mark a VM's cluster, role and pool: buildTags, hasTag and extractTag of
-- internal/adapter/proxmox/provider.go.
pub mod RoundTrip
use proxmox_k3s.Prelude.{ℕ, List, [], ◌∷◌, ◌++◌, Bool, true, false, ◌||◌, if◌then◌else◌}
use proxmox_k3s.Prelude.Text.{Text, codes, ◌==◌, has_prefix, trim_prefix, trim_space, join}
use proxmox_k3s.Prelude.Text.Split.{split}
use proxmox_k3s.Domain.Size.{role_text}
use proxmox_k3s.Domain.Model.{NodeSpec}

abbrev pub tag_cluster : Text
tag_cluster = codes "k3s-cluster"

abbrev pub tag_role : Text
tag_role = codes "k3s-role"

abbrev pub tag_pool : Text
tag_pool = codes "k3s-pool"

-- `key=value`
unfoldable pub tag : Text → Text → Text
tag key v = key ++ (b'=' ∷ v)

unfoldable pub build_tags : Text → NodeSpec → Text
unfolding join tag
build_tags cluster spec =
    join
      (tag tag_cluster cluster ∷ tag tag_role (role_text spec.role) ∷ tag tag_pool spec.pool ∷ [])
      (codes ";")

any_tag : List Text → Text → Bool
any_tag [] t = false
any_tag (x ∷ xs) t = trim_space x == t || any_tag xs t

unfoldable pub has_tag : Text → Text → Bool
unfolding any_tag split trim_space
has_tag tags t = any_tag (split tags b';') t

first_tag : List Text → Text → Text
first_tag [] key = []
first_tag (x ∷ xs) key =
    let t = trim_space x in
    let rest = first_tag xs key in
    if has_prefix t (tag key []) then trim_prefix t (tag key []) else rest

unfoldable pub extract_tag : Text → Text → Text
unfolding first_tag split trim_space tag
extract_tag tags key = first_tag (split tags b';') key
