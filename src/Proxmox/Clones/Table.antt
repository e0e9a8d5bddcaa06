-- ===== src/Proxmox/Clones/Table.antt =====
-- The table of the semaphores of internal/adapter/proxmox/provider.go, when a host gets its entry.
use proxmox_k3s.Prelude.{ℕ, ◌≡◌, refl, ◌⊎◌, none, some, inl, inr, Bool-cases}
use proxmox_k3s.Prelude.Text.{Text, ◌==◌, eq_iff, eq_refl}
use proxmox_k3s.Prelude.Dict.{Dict, lookup, insert, lookup-insert}
use proxmox_k3s.Proxmox.Clones.{Caller, waiting, cloning}

abbrev pub Owns : Dict ℕ → Caller → Type 0
Owns table (waiting host id) = lookup host table ≡ some id
Owns table (cloning host id) = lookup host table ≡ some id

-- A new host in a table: what was found still is, and nothing else but the new entry.
module _ (table : Dict ℕ) (host : Text) (id : ℕ) (new : lookup host table ≡ none) where
  pub still_found :
      (g : Text) (i : ℕ) → lookup g table ≡ some i → lookup g (insert host id table) ≡ some i
  still_found g i e = elim (Bool-cases (host == g)) [
    | inl same ↦ cc (new, e, (eq_iff host g).0 same)
    | inr other ↦ rw (lookup-insert host g id table, other) e
  ]

  pub found_now : lookup host (insert host id table) ≡ some id
  found_now = rw (lookup-insert host host id table, eq_refl host) refl

  pub Owns-still : (x : Caller) → Owns table x → Owns (insert host id table) x
  Owns-still (waiting g i) e = still_found g i e
  Owns-still (cloning g i) e = still_found g i e

  pub new_or_old :
      (g : Text) (i : ℕ)
      → lookup g (insert host id table) ≡ some i
      → ((host ≡ g) × (i ≡ id)) ⊎ (lookup g table ≡ some i)
  new_or_old g i e = elim (Bool-cases (host == g)) [
    | inl same ↦
        let q : some id ≡ some i = rw (lookup-insert host g id table, same) at e in
        inl ((eq_iff host g).0 same, cc)
    | inr other ↦ inr (rw (lookup-insert host g id table, other) at e)
  ]
