-- ===== src/EndToEnd/Templates.antt =====
-- FindTemplate of internal/adapter/proxmox/node/node.go on what the fake server lists, in whatever order.
use proxmox_k3s.Prelude.{
  ℕ, ◌≤◌, ◌≡◌, refl, ap, ◌∙◌, arith, List, [], ◌∷◌, ◌++◌, All, All-append, Any, map, map-append,
  inl, inr, true, false, ◌&&◌, Bool-cases,
}
use proxmox_k3s.Prelude.Int.{ℤ, pos}
use proxmox_k3s.Prelude.Text.{Text, ◌==◌, eq_iff}
use proxmox_k3s.Prelude.Result.{ok}
use proxmox_k3s.Prelude.Perm.{Permᴰ-sym, Permᴰ-map, All-Permᴰ, Any-Permᴰ}
use proxmox_k3s.Proxmox.Node.{ClusterResource, is_one, find_template}
use proxmox_k3s.Proxmox.Client.{Client}
use proxmox_k3s.Proxmox.FakeServer.{Server, FakeVm}
use proxmox_k3s.Proxmox.FakeServer.Answer.{Platform}
use proxmox_k3s.Proxmox.FakeServer.Handlers.{vm_resource}
use proxmox_k3s.Proxmox.FakeServer.Route.{max_int}
use proxmox_k3s.Proxmox.FakeServer.Segments.{IsSegment}
use proxmox_k3s.EndToEnd.Calls.{Surroundings}

-- A template of that name.
abbrev pub IsTemplate : Text → ClusterResource → Type 0
IsTemplate name r = (r.name ≡ name) × (is_one r.template ≡ true)

-- It stands on the host, under a number that is an int.
pub record CanClone (source : Text) (r : ClusterResource) : Type 0 where
  pub vmid : ℕ
  pub numbered : r.vmid ≡ pos vmid
  pub small : vmid ≤ max_int
  pub at : r.node ≡ source

-- There is a template of the name, and all that there are stand on one host, which can stand in a path.
pub record HasTemplate (template source : Text) (s : Server) : Type 0 where
  pub there : Any (IsTemplate template) (map vm_resource s.vms)
  pub usable : All (λ r. IsTemplate template r → CanClone source r) (map vm_resource s.vms)
  pub placed : IsSegment source

find_usable :
    (name source : Text) (rs : List ClusterResource)
    → Any (IsTemplate name) rs
    → All (λ r. IsTemplate name r → CanClone source r) rs
    → (t : ClusterResource) × (find_template name rs ≡ ok t) × CanClone source t
unfolding find_template
find_usable name source [] h u = absurd h
find_usable name source (r ∷ rs) h (here, u) =
    elim (Bool-cases (r.name == name && is_one r.template)) [
      | inl e ↦
          let is : IsTemplate name r = ground (arith, e, eq_iff r.name name) in
          (r, rw e refl, here is)
      | inr e ↦
          let (t, found, can) = find_usable name source rs (later e h) u in (t, rw e found, can)
    ]
  where
    later :
        (r.name == name && is_one r.template) ≡ false
        → Any (IsTemplate name) (r ∷ rs)
        → Any (IsTemplate name) rs
    later e (inl is) = cc (e, (eq_iff r.name name).1 is.0, is.1)
    later e (inr more) = more

-- What FindTemplate finds in a listing.
pub record Found (P : Platform) (template source : Text) (s : Server) : Type 0 where
  pub tmpl : ClusterResource
  pub vmid : ℕ
  pub found : find_template template (map vm_resource (P.range_of s)) ≡ ok tmpl
  pub numbered : tmpl.vmid ≡ pos vmid
  pub small : vmid ≤ max_int
  pub at : tmpl.node ≡ source
  pub placed : IsSegment source

pub HasTemplate-Found :
    (c : Client) (P : Platform) (around : Surroundings c P) (template source : Text) (s : Server)
    → HasTemplate template source s
    → Found P template source s
HasTemplate-Found c P around template source s has =
    let same = Permᴰ-map vm_resource (Permᴰ-sym (around.ranged s)) in
    let (t, found, can) =
      find_usable template source (map vm_resource (P.range_of s)) (Any-Permᴰ _ same has.there)
        (All-Permᴰ _ same has.usable) in
    record {
      tmpl = t;
      vmid = can.vmid;
      found = found;
      numbered = can.numbered;
      small = can.small;
      at = can.at;
      placed = has.placed;
    }

Any-more :
    (P : ClusterResource → Type 0) (xs ys : List ClusterResource) → Any P xs → Any P (xs ++ ys)
Any-more P [] ys h = absurd h
Any-more P (x ∷ xs) ys (inl h) = inl h
Any-more P (x ∷ xs) ys (inr h) = inr (Any-more P xs ys h)

-- A VM more, which is no template, does not hide the template.
pub HasTemplate-more :
    (template source : Text) (s t : Server) (n : ℤ) (vm : FakeVm)
    → t.vms ≡ s.vms ++ ((n, vm) ∷ [])
    → vm.template ≡ pos 0
    → HasTemplate template source s
    → HasTemplate template source t
unfolding vm_resource
HasTemplate-more template source s t n vm e plain has =
    let listed : map vm_resource t.vms ≡ map vm_resource s.vms ++ (vm_resource (n, vm) ∷ []) =
      ap (map vm_resource) e ∙ map-append vm_resource s.vms ((n, vm) ∷ []) in
    record {
      there = rw listed (Any-more _ _ _ has.there);
      usable = rw listed (All-append _ _ _ has.usable ((λ is. cc (ap is_one plain, is.1)), tt));
      placed = has.placed;
    }
