-- ===== src/Proxmox/Vm/GuestIp.antt =====
-- The address that FindGuestIP of internal/adapter/proxmox/vm/vm.go returns.
use proxmox_k3s.Prelude.{
  List, [], ◌∷◌, ◌++◌, none, some, true, false, ◌≡◌, ◌≢◌, ◌↔◌, ◌⊎◌, inl, inr, refl, arith, All,
  All-imp, Any, Option-cases, Bool-cases, subst, sym,
}
use proxmox_k3s.Prelude.Text.{Text, codes, eq_iff, has_prefix_iff}
use proxmox_k3s.Proxmox.Vm.{
  AgentIpAddress, AgentNetworkInterface, is_internal, is_usable, first_usable, find_guest_ip,
}

-- The loopback interface, and those of a container network.
abbrev pub IsInternal : Text → Type 0
IsInternal name =
    (name ≡ codes "lo")
    ⊎ (((t : Text) × (name ≡ codes "cni" ++ t)) ⊎ ((t : Text) × (name ≡ codes "flannel" ++ t)))

-- Of IPv4, and not the loopback address.
abbrev pub IsUsable : AgentIpAddress → Type 0
IsUsable a = (a.ip_address_type ≡ codes "ipv4") × (a.ip_address ≢ codes "127.0.0.1")

-- The interface is not internal, and has a usable address of that text.
abbrev pub Reports : Text → AgentNetworkInterface → Type 0
Reports ip i = (¬ IsInternal i.name) × Any (λ a. IsUsable a × (a.ip_address ≡ ip)) i.ip_addresses

-- Nothing that the interface reports can be used.
abbrev pub Silent : AgentNetworkInterface → Type 0
Silent i = IsInternal i.name ⊎ All (λ a. ¬ IsUsable a) i.ip_addresses

is_internal_iff : (name : Text) → (is_internal name ≡ true) ↔ IsInternal name
unfolding is_internal
is_internal_iff name = ground (
  arith,
  eq_iff name (codes "lo"),
  has_prefix_iff name (codes "cni"),
  has_prefix_iff name (codes "flannel"),
)

is_usable_iff : (a : AgentIpAddress) → (is_usable a ≡ true) ↔ IsUsable a
unfolding is_usable
is_usable_iff a =
    ground (arith, eq_iff a.ip_address_type (codes "ipv4"), eq_iff a.ip_address (codes "127.0.0.1"))

external : (name : Text) → is_internal name ≡ false → ¬ IsInternal name
external name e h = cc (e, (is_internal_iff name).1 h)

unusable : (a : AgentIpAddress) → is_usable a ≡ false → ¬ IsUsable a
unusable a e h = cc (e, (is_usable_iff a).1 h)

first_usable-none :
    (addrs : List AgentIpAddress) → first_usable addrs ≡ none → All (λ a. is_usable a ≡ false) addrs
unfolding first_usable
first_usable-none [] h = tt
first_usable-none (a ∷ addrs) h = ground (arith, first_usable-none addrs)

first_usable-some :
    (addrs : List AgentIpAddress) (ip : Text)
    → first_usable addrs ≡ some ip
    → Any (λ a. IsUsable a × (a.ip_address ≡ ip)) addrs
unfolding first_usable
first_usable-some [] ip h = cc
first_usable-some (a ∷ addrs) ip h = elim (Bool-cases (is_usable a)) [
  | inl e ↦ inl ((is_usable_iff a).0 e, ground (arith, h, e))
  | inr e ↦ inr (first_usable-some addrs ip (ground (arith, h, e)))
]

interface_cases :
    (i : AgentNetworkInterface)
    → Silent i
      ⊎ ((ip : Text) × (first_usable i.ip_addresses ≡ some ip)
          × (is_internal i.name ≡ false)
          × Reports ip i)
interface_cases i = elim (Option-cases (first_usable i.ip_addresses)) [
  | inl e ↦ inl (inr (All-imp _ _ i.ip_addresses unusable (first_usable-none i.ip_addresses e)))
  | inr (ip, e) ↦ elim (Bool-cases (is_internal i.name)) [
    | inl h ↦ inl (inl ((is_internal_iff i.name).0 h))
    | inr h ↦ inr (ip, e, h, (external i.name h, first_usable-some i.ip_addresses ip e))
  ]
]

All-unusable :
    (addrs : List AgentIpAddress) → All (λ a. ¬ IsUsable a) addrs → first_usable addrs ≡ none
unfolding first_usable
All-unusable [] h = refl
All-unusable (a ∷ addrs) (ha, h) = elim (Bool-cases (is_usable a)) [
  | inl e ↦ absurd (ha ((is_usable_iff a).0 e))
  | inr e ↦ rw e (All-unusable addrs h)
]

skip-Silent :
    (i : AgentNetworkInterface) (is : List AgentNetworkInterface)
    → Silent i
    → find_guest_ip (i ∷ is) ≡ find_guest_ip is
unfolding find_guest_ip
skip-Silent i is (inl h) = rw ((is_internal_iff i.name).1 h)
skip-Silent i is (inr h) = elim (Bool-cases (is_internal i.name)) [
  | inl e ↦ rw e
  | inr e ↦ rw (e, All-unusable i.ip_addresses h) refl
]

take_reported :
    (i : AgentNetworkInterface) (is : List AgentNetworkInterface) (ip : Text)
    → is_internal i.name ≡ false
    → first_usable i.ip_addresses ≡ some ip
    → find_guest_ip (i ∷ is) ≡ ip
unfolding find_guest_ip
take_reported i is ip h e = rw (h, e) refl

abbrev Outcome : List AgentNetworkInterface → Text → Type 0
Outcome is ip = (All Silent is × (ip ≡ [])) ⊎ Any (Reports ip) is

later :
    (i : AgentNetworkInterface) (is : List AgentNetworkInterface) (ip : Text)
    → Silent i
    → Outcome is ip
    → Outcome (i ∷ is) ip
later i is ip s (inl (h, e)) = inl ((s, h), e)
later i is ip s (inr h) = inr (inr h)

-- The result is an address that an interface reports, of type ipv4 and not 127.0.0.1, the interface
-- neither lo nor one whose name begins with cni or flannel; where no interface reports such an
-- address, the result is empty.
pub find_guest_ip_outcome :
    (is : List AgentNetworkInterface)
    → (All Silent is × (find_guest_ip is ≡ [])) ⊎ Any (Reports (find_guest_ip is)) is
find_guest_ip_outcome [] = inl (tt, unfold find_guest_ip in refl)
find_guest_ip_outcome (i ∷ is) = elim (interface_cases i) [
  | inl silent ↦
      subst (Outcome (i ∷ is)) (sym (skip-Silent i is silent))
        (later i is (find_guest_ip is) silent (find_guest_ip_outcome is))
  | inr (ip, e, outer, h) ↦
      subst (Outcome (i ∷ is)) (sym (take_reported i is ip outer e)) (inr (inl h))
]
