-- ===== src/EndToEnd/Fresh.antt =====
-- The map of VMs of internal/adapter/proxmox/testserver/server.go around a number that is free in it.
use proxmox_k3s.Prelude.{
  some, ◌≡◌, ◌≢◌, refl, ap, [], ◌∷◌, ◌++◌, All, false, true, Bool-cases, inl, inr,
}
use proxmox_k3s.Prelude.Int.{ℤ, eqb_ℤ, eqb_ℤ_iff}
use proxmox_k3s.Proxmox.FakeServer.{FakeVm, VmMap, vm_at, put_vm, change_vm, remove_vm}

-- No entry has the number.
abbrev pub IsFree : ℤ → VmMap → Type 0
IsFree vmid = All (λ (entry : ℤ × FakeVm). entry.0 ≢ vmid)

eqb_ℤ_self : (a : ℤ) → eqb_ℤ a a ≡ true
eqb_ℤ_self a = (eqb_ℤ_iff a a).1 refl

eqb_ℤ_other : (a b : ℤ) → a ≢ b → eqb_ℤ a b ≡ false
eqb_ℤ_other a b h = elim (Bool-cases (eqb_ℤ a b)) [
  | inl e ↦ absurd (h ((eqb_ℤ_iff a b).0 e))
  | inr e ↦ e
]

module _ (vmid : ℤ) where
  pub put_vm-free :
      (vm : FakeVm) (m : VmMap) → IsFree vmid m → put_vm vmid vm m ≡ m ++ ((vmid, vm) ∷ [])
  unfolding put_vm
  put_vm-free vm [] h = refl
  put_vm-free vm ((other, old) ∷ rest) (h, hs) =
      rw (eqb_ℤ_other other vmid h) (ap (λ r. (other, old) ∷ r) (put_vm-free vm rest hs))

  pub change_vm-free :
      (f : FakeVm → FakeVm) (vm : FakeVm) (m rest : VmMap)
      → IsFree vmid m
      → change_vm vmid f (m ++ ((vmid, vm) ∷ rest)) ≡ m ++ ((vmid, f vm) ∷ rest)
  unfolding change_vm
  change_vm-free f vm [] rest h = rw (eqb_ℤ_self vmid) refl
  change_vm-free f vm ((other, old) ∷ m) rest (h, hs) =
      rw (eqb_ℤ_other other vmid h) (ap (λ r. (other, old) ∷ r) (change_vm-free f vm m rest hs))

  remove_vm-none : (m : VmMap) → IsFree vmid m → remove_vm vmid m ≡ m
  unfolding remove_vm
  remove_vm-none [] h = refl
  remove_vm-none ((other, old) ∷ m) (h, hs) =
      rw (eqb_ℤ_other other vmid h) (ap (λ r. (other, old) ∷ r) (remove_vm-none m hs))

  pub remove_vm-free :
      (vm : FakeVm) (m rest : VmMap)
      → IsFree vmid m
      → IsFree vmid rest
      → remove_vm vmid (m ++ ((vmid, vm) ∷ rest)) ≡ m ++ rest
  unfolding remove_vm
  remove_vm-free vm [] rest h hr = rw (eqb_ℤ_self vmid) (remove_vm-none rest hr)
  remove_vm-free vm ((other, old) ∷ m) rest (h, hs) hr =
      rw (eqb_ℤ_other other vmid h) (ap (λ r. (other, old) ∷ r) (remove_vm-free vm m rest hs hr))

  pub vm_at-free :
      (vm : FakeVm) (m rest : VmMap)
      → IsFree vmid m
      → vm_at vmid (m ++ ((vmid, vm) ∷ rest)) ≡ some vm
  unfolding vm_at
  vm_at-free vm [] rest h = rw (eqb_ℤ_self vmid) refl
  vm_at-free vm ((other, old) ∷ m) rest (h, hs) =
      rw (eqb_ℤ_other other vmid h) (vm_at-free vm m rest hs)
