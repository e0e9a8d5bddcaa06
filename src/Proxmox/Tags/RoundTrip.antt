-- ===== src/Proxmox/Tags/RoundTrip.antt =====
-- buildTags of internal/adapter/proxmox/provider.go against hasTag and extractTag.
use mathlib.Core.List.{reverse, reverse-reverse}
use proxmox_k3s.Prelude.{
  List, [], ◌∷◌, ◌≡◌, ◌≢◌, ◌↔◌, refl, ap, ◌∙◌, arith, All, All-append, All-reverse, true, false,
  ◌||◌,
}
use proxmox_k3s.Prelude.Text.{
  Text, codes, ◌==◌, eq_iff, is_space, trim_left, trim_space, has_prefix, trim_prefix, join,
}
use proxmox_k3s.Prelude.Text.Split.{split, split_part, split_last, Lacks}
use proxmox_k3s.Domain.Size.{NodeRole, master, worker, role_text}
use proxmox_k3s.Domain.Model.{NodeSpec}
use proxmox_k3s.Proxmox.Tags.{
  tag, tag_cluster, tag_role, tag_pool, build_tags, has_tag, extract_tag,
}

-- No semicolon and no space: so are all names that Proxmox accepts in a tag.
abbrev pub IsPlain : Text → Type 0
IsPlain = All (λ c. (c ≢ b';') × (is_space c ≡ false))

trim_left-plain : (s : Text) → IsPlain s → trim_left s ≡ s
unfolding trim_left
trim_left-plain [] h = refl
trim_left-plain (c ∷ s) (hc, hs) = ground arith

trim_space-plain : (s : Text) → IsPlain s → trim_space s ≡ s
unfolding trim_space
trim_space-plain s h =
    ap reverse (
      ap (λ t. trim_left (reverse t)) (trim_left-plain s h)
      ∙ trim_left-plain (reverse s) (All-reverse _ s h))
    ∙ reverse-reverse s

plain-Lacks : (s : Text) → IsPlain s → Lacks b';' s
plain-Lacks [] h = tt
plain-Lacks (c ∷ s) (hc, hs) = (hc.0, plain-Lacks s hs)

tag-IsPlain : (key v : Text) → IsPlain key → IsPlain v → IsPlain (tag key v)
unfolding tag is_space
tag-IsPlain key v hk hv = All-append _ key (b'=' ∷ v) hk ((omega arith, refl), hv)

keys-IsPlain : IsPlain tag_cluster × IsPlain tag_role × IsPlain tag_pool
unfolding is_space
keys-IsPlain = (ground arith, ground arith, ground arith)

role-IsPlain : (r : NodeRole) → IsPlain (role_text r)
unfolding is_space
role-IsPlain master = ground arith
role-IsPlain worker = ground arith

module _ (cluster : Text) (spec : NodeSpec) (hc : IsPlain cluster) (hp : IsPlain spec.pool) where
  cluster-tag-IsPlain : IsPlain (tag tag_cluster cluster)
  cluster-tag-IsPlain = tag-IsPlain tag_cluster cluster keys-IsPlain.0 hc

  role-tag-IsPlain : IsPlain (tag tag_role (role_text spec.role))
  role-tag-IsPlain =
      tag-IsPlain tag_role (role_text spec.role) keys-IsPlain.1 (role-IsPlain spec.role)

  pool-tag-IsPlain : IsPlain (tag tag_pool spec.pool)
  pool-tag-IsPlain = tag-IsPlain tag_pool spec.pool keys-IsPlain.2 hp

  split-build_tags :
      split (build_tags cluster spec) b';'
      ≡ tag tag_cluster cluster ∷ tag tag_role (role_text spec.role) ∷ tag tag_pool spec.pool ∷ []
  unfolding build_tags join
  split-build_tags =
      split_part (tag tag_cluster cluster) _ b';'
        (plain-Lacks (tag tag_cluster cluster) cluster-tag-IsPlain)
      ∙ ap (λ (ps : List Text). tag tag_cluster cluster ∷ ps)
          (split_part (tag tag_role (role_text spec.role)) _ b';'
              (plain-Lacks (tag tag_role (role_text spec.role)) role-tag-IsPlain)
            ∙ ap (λ (ps : List Text). tag tag_role (role_text spec.role) ∷ ps)
                (split_last (tag tag_pool spec.pool) b';'
                  (plain-Lacks (tag tag_pool spec.pool) pool-tag-IsPlain)))

  has_tag-build_tags :
      (t : Text)
      → has_tag (build_tags cluster spec) t ≡ (
          tag tag_cluster cluster == t
          || (tag tag_role (role_text spec.role) == t || (tag tag_pool spec.pool == t || false)))
  unfolding has_tag
  has_tag-build_tags t =
      rw
        (
          split-build_tags,
          trim_space-plain (tag tag_cluster cluster) cluster-tag-IsPlain,
          trim_space-plain (tag tag_role (role_text spec.role)) role-tag-IsPlain,
          trim_space-plain (tag tag_pool spec.pool) pool-tag-IsPlain,
        )
        refl

  -- Where the names of the cluster and of the pool have no space and no semicolon, a VM that is
  -- tagged for the cluster carries the tag of a given cluster exactly when the two names are equal.
  pub has_tag-cluster_iff :
      (other : Text)
      → (has_tag (build_tags cluster spec) (tag tag_cluster other) ≡ true) ↔ (cluster ≡ other)
  unfolding tag
  has_tag-cluster_iff other = rw has_tag-build_tags (
      ground (
        arith,
        eq_iff (tag tag_cluster cluster) (tag tag_cluster other),
        eq_iff (tag tag_role (role_text spec.role)) (tag tag_cluster other),
        eq_iff (tag tag_pool spec.pool) (tag tag_cluster other),
      ))

  -- Where the names of the cluster and of the pool have no space and no semicolon, a VM carries the
  -- role tag `master` exactly when it was tagged for a specification of a master.
  pub has_tag-role_iff :
      (has_tag (build_tags cluster spec) (tag tag_role (codes "master")) ≡ true)
      ↔ (spec.role ≡ master)
  unfolding tag
  has_tag-role_iff = rw has_tag-build_tags (by_role spec.role)
    where
      by_role :
          (r : NodeRole)
          → ((tag tag_cluster cluster == tag tag_role (codes "master")
                || (tag tag_role (role_text r) == tag tag_role (codes "master")
                    || (tag tag_pool spec.pool == tag tag_role (codes "master") || false)))
              ≡ true)
            ↔ (r ≡ master)
      by_role r = ground (
        arith,
        eq_iff (tag tag_cluster cluster) (tag tag_role (codes "master")),
        eq_iff (tag tag_role (role_text r)) (tag tag_role (codes "master")),
        eq_iff (tag tag_pool spec.pool) (tag tag_role (codes "master")),
      )

  -- Where the names of the cluster and of the pool have no space and no semicolon, the pool is read
  -- back from the tags that were made of it.
  pub extract_tag-pool : extract_tag (build_tags cluster spec) tag_pool ≡ spec.pool
  unfolding extract_tag
  extract_tag-pool =
      rw
        (
          split-build_tags,
          trim_space-plain (tag tag_cluster cluster) cluster-tag-IsPlain,
          trim_space-plain (tag tag_role (role_text spec.role)) role-tag-IsPlain,
          trim_space-plain (tag tag_pool spec.pool) pool-tag-IsPlain,
        )
        (unfold tag has_prefix trim_prefix in refl)
