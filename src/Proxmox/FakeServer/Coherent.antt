-- ===== src/Proxmox/FakeServer/Coherent.antt =====
-- The map of VMs of internal/adapter/proxmox/testserver/server.go: every VM stands under its own
-- number, whatever the handlers write.
use proxmox_k3s.Prelude.{◌≡◌, ◌≢◌, inl, inr, refl, sym, ◌∙◌, [], ◌∷◌, false, Bool-cases, All}
use proxmox_k3s.Prelude.Int.{ℤ, eqb_ℤ, eqb_ℤ_iff}
use proxmox_k3s.Proxmox.FakeServer.{FakeVm, VmMap, put_vm, change_vm, remove_vm}

-- No entry has the number.
abbrev Unused : ℤ → VmMap → Type 0
Unused vmid = All (λ entry. entry.0 ≢ vmid)

-- Every VM stands under its own number, and no number twice.
abbrev pub IsCoherent : VmMap → Type 0
IsCoherent [] = Unit
IsCoherent ((vmid, vm) ∷ rest) = (vm.vmid ≡ vmid) × Unused vmid rest × IsCoherent rest

-- The four ways in which a handler changes the map.
pub data Changed (m : VmMap) : VmMap → Type 0 where
  kept : Changed m m
  put : (vm : FakeVm) → Changed m (put_vm vm.vmid vm m)
  changed :
      (vmid : ℤ) (f : FakeVm → FakeVm)
      → ((vm : FakeVm) → (f vm).vmid ≡ vm.vmid)
      → Changed m (change_vm vmid f m)
  removed : (vmid : ℤ) → Changed m (remove_vm vmid m)

eqb_ℤ_apart : (a b : ℤ) → eqb_ℤ a b ≡ false → a ≢ b
eqb_ℤ_apart a b h e = cc (h, (eqb_ℤ_iff a b).1 e)

put_vm-Unused :
    (asked vmid : ℤ) (vm : FakeVm) (m : VmMap)
    → vmid ≢ asked
    → Unused asked m
    → Unused asked (put_vm vmid vm m)
unfolding put_vm
put_vm-Unused asked vmid vm [] apart h = (apart, tt)
put_vm-Unused asked vmid vm ((other, old) ∷ rest) apart (h, hs) =
    elim (Bool-cases (eqb_ℤ other vmid)) [
      | inl e ↦ rw e (h, hs)
      | inr e ↦ rw e (h, put_vm-Unused asked vmid vm rest apart hs)
    ]

change_vm-Unused :
    (asked vmid : ℤ) (f : FakeVm → FakeVm) (m : VmMap)
    → Unused asked m
    → Unused asked (change_vm vmid f m)
unfolding change_vm
change_vm-Unused asked vmid f [] h = tt
change_vm-Unused asked vmid f ((other, old) ∷ rest) (h, hs) = elim (Bool-cases (eqb_ℤ other vmid)) [
  | inl e ↦ rw e (h, hs)
  | inr e ↦ rw e (h, change_vm-Unused asked vmid f rest hs)
]

remove_vm-Unused : (asked vmid : ℤ) (m : VmMap) → Unused asked m → Unused asked (remove_vm vmid m)
unfolding remove_vm
remove_vm-Unused asked vmid [] h = tt
remove_vm-Unused asked vmid ((other, old) ∷ rest) (h, hs) = elim (Bool-cases (eqb_ℤ other vmid)) [
  | inl e ↦ rw e (remove_vm-Unused asked vmid rest hs)
  | inr e ↦ rw e (h, remove_vm-Unused asked vmid rest hs)
]

put_vm-IsCoherent : (vm : FakeVm) (m : VmMap) → IsCoherent m → IsCoherent (put_vm vm.vmid vm m)
unfolding put_vm
put_vm-IsCoherent vm [] h = (refl, tt, tt)
put_vm-IsCoherent vm ((other, old) ∷ rest) (own, unused, h) =
    elim (Bool-cases (eqb_ℤ other vm.vmid)) [
      | inl e ↦ rw e (sym ((eqb_ℤ_iff other vm.vmid).0 e), unused, h)
      | inr e ↦ rw e (
        own,
        put_vm-Unused other vm.vmid vm rest (λ q. eqb_ℤ_apart other vm.vmid e (sym q)) unused,
        put_vm-IsCoherent vm rest h,
      )
    ]

change_vm-IsCoherent :
    (vmid : ℤ) (f : FakeVm → FakeVm) (m : VmMap)
    → ((vm : FakeVm) → (f vm).vmid ≡ vm.vmid)
    → IsCoherent m
    → IsCoherent (change_vm vmid f m)
unfolding change_vm
change_vm-IsCoherent vmid f [] same h = tt
change_vm-IsCoherent vmid f ((other, old) ∷ rest) same (own, unused, h) =
    elim (Bool-cases (eqb_ℤ other vmid)) [
      | inl e ↦ rw e (same old ∙ own, unused, h)
      | inr e ↦
          rw e (
            own,
            change_vm-Unused other vmid f rest unused,
            change_vm-IsCoherent vmid f rest same h,
          )
    ]

remove_vm-IsCoherent : (vmid : ℤ) (m : VmMap) → IsCoherent m → IsCoherent (remove_vm vmid m)
unfolding remove_vm
remove_vm-IsCoherent vmid [] h = tt
remove_vm-IsCoherent vmid ((other, old) ∷ rest) (own, unused, h) =
    elim (Bool-cases (eqb_ℤ other vmid)) [
      | inl e ↦ rw e (remove_vm-IsCoherent vmid rest h)
      | inr e ↦
          rw e (own, remove_vm-Unused other vmid rest unused, remove_vm-IsCoherent vmid rest h)
    ]

pub Changed-IsCoherent : (m n : VmMap) → Changed m n → IsCoherent m → IsCoherent n
Changed-IsCoherent m _ kept h = h
Changed-IsCoherent m _ (put vm) h = put_vm-IsCoherent vm m h
Changed-IsCoherent m _ (changed vmid f same) h = change_vm-IsCoherent vmid f m same h
Changed-IsCoherent m _ (removed vmid) h = remove_vm-IsCoherent vmid m h
