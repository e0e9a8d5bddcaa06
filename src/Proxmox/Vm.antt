-- ===== src/Proxmox/Vm.antt =====
-- internal/adapter/proxmox/vm/vm.go: the requests that the manager sends, and the address that a
-- guest reports. Errors of this layer are texts, as `fmt.Errorf` makes them.
pub mod GuestIp
use proxmox_k3s.Prelude.{
  ℕ, List, [], ◌∷◌, ◌++◌, Option, none, some, Bool, ◌&&◌, ◌||◌, not, if◌then◌else◌,
}
use proxmox_k3s.Prelude.Int.{ℤ}
use proxmox_k3s.Prelude.Text.{Text, codes, ◌==◌, has_prefix}
use proxmox_k3s.Prelude.Decimal.{decimal_ℤ}

pub record CloneRequest : Type 0 where
  pub new_id : ℤ
  pub name : Text
  pub full : ℤ
  pub storage : Text
  pub target_node : Text

pub record ConfigRequest : Type 0 where
  pub cores : ℤ
  pub memory : ℤ
  pub agent : Text
  pub on_boot : ℤ
  pub tags : Text
  pub ip_config0 : Text
  pub ci_user : Text
  pub ssh_keys : Text
  pub nameserver : Text
  pub search_domain : Text
  pub net0 : Text

pub record ResizeRequest : Type 0 where
  pub disk : Text
  pub size : Text

-- The map that UploadSnippet posts.
pub record Snippet : Type 0 where
  pub content : Text
  pub filename : Text
  pub content_body : Text

pub record AgentIpAddress : Type 0 where
  pub ip_address : Text
  pub ip_address_type : Text
  pub prefix : ℤ

pub record AgentNetworkInterface : Type 0 where
  pub name : Text
  pub ip_addresses : List AgentIpAddress
  pub hardware_address : Text

-- `fmt.Errorf("<what> VMID %d: %w", vmid, err)`
unfoldable pub on_vmid : Text → ℤ → Text → Text
on_vmid what vmid e = what ++ (codes " VMID " ++ (decimal_ℤ vmid ++ (codes ": " ++ e)))

-- The interfaces that FindGuestIP passes over.
unfoldable pub is_internal : Text → Bool
is_internal name =
    name == codes "lo" || (has_prefix name (codes "cni") || has_prefix name (codes "flannel"))

unfoldable pub is_usable : AgentIpAddress → Bool
is_usable a = a.ip_address_type == codes "ipv4" && not (a.ip_address == codes "127.0.0.1")

-- The inner loop: `none` where it ends without a return.
first_usable : List AgentIpAddress → Option Text
first_usable [] = none
first_usable (a ∷ as') =
    let rest = first_usable as' in if is_usable a then some a.ip_address else rest

or_next : Option Text → Text → Text
or_next none next = next
or_next (some ip) next = ip

-- Manager.FindGuestIP
unfoldable pub find_guest_ip : List AgentNetworkInterface → Text
unfolding first_usable or_next is_internal is_usable
find_guest_ip [] = []
find_guest_ip (i ∷ is) =
    let rest = find_guest_ip is in
    if is_internal i.name then rest else or_next (first_usable i.ip_addresses) rest
