-- ===== src/Config/Defaults/Stable.antt =====
-- applyDefaults and expandHome of internal/config/loader.go, applied twice.
use proxmox_k3s.Prelude.{
  List, [], ◌∷◌, ◌++◌, map, Option, true, false, ◌≡◌, refl, ◌∙◌, subst, arith, Bool-cases, inl, inr,
}
use proxmox_k3s.Prelude.Int.{ℤ}
use proxmox_k3s.Prelude.Text.{Text, codes, has_prefix}
use proxmox_k3s.Config.Schema.{Config, PoolConfig, ResourceOverride}
use proxmox_k3s.Config.Defaults.{
  or_default, or_number, size_or, tail, expand_home, default_proxmox, default_ssh, default_network,
  default_k3s, default_masters, default_worker, apply_defaults,
}

or_default-twice : (t d : Text) → or_default (or_default t d) d ≡ or_default t d
unfolding or_default
or_default-twice t d = ground arith

or_number-twice : (n d : ℤ) → or_number (or_number n d) d ≡ or_number n d
unfolding or_number
or_number-twice n d = ground arith

size_or-twice :
    (t : Text) (r : Option ResourceOverride) (d : Text)
    → size_or (size_or t r d) r d ≡ size_or t r d
unfolding size_or
size_or-twice t r d = ground arith

-- What stands behind a home directory does not make it begin with `~/`.
behind :
    (home rest : Text)
    → has_prefix (home ++ b'/' ∷ rest) (codes "~/") ≡ has_prefix (home ++ b'/' ∷ []) (codes "~/")
unfolding has_prefix
behind [] rest = refl
behind (a ∷ []) rest = refl
behind (a ∷ b ∷ home) rest = refl

not_home :
    (home path : Text)
    → has_prefix (home ++ b'/' ∷ []) (codes "~/") ≡ false
    → has_prefix path (codes "~/") ≡ true
    → has_prefix (home ++ tail path) (codes "~/") ≡ false
not_home home [] h e = unfold has_prefix in cc
not_home home (a ∷ []) h e = unfold has_prefix in ground arith
not_home home (a ∷ b ∷ path) h e =
    subst (λ c. has_prefix (home ++ c ∷ path) (codes "~/") ≡ false)
      (let slash : b'/' ≡ b = unfold has_prefix in ground arith in slash) (behind home path ∙ h)

expand_home-twice :
    (home path : Text)
    → has_prefix (home ++ b'/' ∷ []) (codes "~/") ≡ false
    → expand_home home (expand_home home path) ≡ expand_home home path
unfolding expand_home
expand_home-twice home path h = elim (Bool-cases (has_prefix path (codes "~/"))) [
  | inl e ↦ rw (e, not_home home path h e) refl
  | inr e ↦ rw (e, e) refl
]

default_workers-twice :
    (ps : List PoolConfig) → map default_worker (map default_worker ps) ≡ map default_worker ps
unfolding default_worker
default_workers-twice [] = refl
default_workers-twice (p ∷ ps) = rw (size_or-twice, default_workers-twice ps) refl

-- Applying the defaults to a configuration that has them changes nothing, provided that the home
-- directory does not itself begin with `~/` where a slash is put behind it.
pub apply_defaults-twice :
    (home : Text) (c : Config)
    → has_prefix (home ++ b'/' ∷ []) (codes "~/") ≡ false
    → apply_defaults home (apply_defaults home c) ≡ apply_defaults home c
unfolding apply_defaults default_proxmox default_network default_ssh default_k3s default_masters
apply_defaults-twice home c h = simp (
  or_default-twice,
  size_or-twice,
  or_number-twice,
  expand_home-twice home c.networking.ssh.public_key_path h,
  expand_home-twice home c.networking.ssh.private_key_path h,
  default_workers-twice,
)
