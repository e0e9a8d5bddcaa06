-- ===== src/Proxmox/Clones/Bound.antt =====
-- What the semaphores of internal/adapter/proxmox/provider.go achieve.
use proxmox_k3s.Prelude.{
  ℕ, ◌≤◌, ◌<◌, ◌≡◌, refl, sym, ap, subst, ◌∙◌, arith, List, [], ◌∷◌, ◌++◌, All, none, some, eqb,
  eqb_iff, Option-cases, inl, inr, ◌↔◌, Bool-cases, same_test,
}
use proxmox_k3s.Prelude.Text.{Text, ◌==◌, eq_iff}
use proxmox_k3s.Prelude.Dict.{lookup}
use proxmox_k3s.Proxmox.Clones.{max_clones, Caller, waiting, cloning, Clones, Reached, clones_on}
use proxmox_k3s.Proxmox.Clones.Table.{Owns}
use proxmox_k3s.Proxmox.Clones.Sound.{
  cloning_in, IsSound, cloning_in-middle, All-middle, Reached-IsSound,
}

module _ (s : Clones) (h : IsSound s) where
  same_channel :
      (g host : Text) (i id : ℕ)
      → lookup g s.sems.table ≡ some i
      → lookup host s.sems.table ≡ some id
      → (g == host) ≡ eqb i id
  same_channel g host i id o e =
      same_test (g == host) (eqb i id) (λ t. (eqb_iff i id).1 (cc (o, e, (eq_iff g host).0 t)))
        (λ t. (eq_iff g host).1 (h.apart g host id (cc (o, (eqb_iff i id).0 t)) e))

  -- On the channel of a host are the calls on that host.
  on_host :
      (host : Text) (id : ℕ) (callers : List Caller)
      → lookup host s.sems.table ≡ some id
      → All (Owns s.sems.table) callers
      → clones_on host callers ≡ cloning_in id callers
  unfolding clones_on cloning_in
  on_host host id [] e own = refl
  on_host host id (waiting g i ∷ rest) e (o, own) = on_host host id rest e own
  on_host host id (cloning g i ∷ rest) e (o, own) =
      rw (same_channel g host i id o e, on_host host id rest e own) refl

  -- A host without a channel has no calls.
  off_host :
      (host : Text) (callers : List Caller)
      → lookup host s.sems.table ≡ none
      → All (Owns s.sems.table) callers
      → clones_on host callers ≡ 0
  unfolding clones_on
  off_host host [] e own = refl
  off_host host (waiting g i ∷ rest) e (o, own) = off_host host rest e own
  off_host host (cloning g i ∷ rest) e (o, own) = elim (Bool-cases (g == host)) [
    | inl same ↦ cc (o, e, (eq_iff g host).0 same)
    | inr other ↦ rw (other, off_host host rest e own) refl
  ]

module _ (s : Clones) (r : Reached s) where
  sound : IsSound s
  sound = Reached-IsSound s r

  held-on :
      (host : Text) (id : ℕ)
      → lookup host s.sems.table ≡ some id
      → s.sems.held id ≡ clones_on host s.callers
  held-on host id e = sound.counts id ∙ sym (on_host s sound host id s.callers e sound.own)

  -- However the calls of CreateNode overlap: at most two clone on a host at any time; a call that
  -- waits can go on exactly when fewer than two clone on its host, so it never waits for another
  -- host; and a call that returns never blocks on its receive.
  pub semaphore_outcome :
      (host : Text)
      → (clones_on host s.callers ≤ max_clones)
        × ((before after : List Caller) (id : ℕ)
            → s.callers ≡ before ++ (waiting host id ∷ after)
            → (s.sems.held id < max_clones) ↔ (clones_on host s.callers < max_clones))
        × ((before after : List Caller) (id : ℕ)
            → s.callers ≡ before ++ (cloning host id ∷ after)
            → 0 < s.sems.held id)
  semaphore_outcome host = (
    elim (Option-cases (lookup host s.sems.table)) [
      | inl none_yet ↦ omega (arith, off_host s sound host s.callers none_yet sound.own)
      | inr (id, e) ↦ omega (arith, sound.limit id, held-on host id e)
    ],
    λ before after id at.
        let e : lookup host s.sems.table ≡ some id =
          All-middle _ before after (waiting host id)
            (subst (All (Owns s.sems.table)) at sound.own) in
        (λ x. omega (arith, held-on host id e), λ x. omega (arith, held-on host id e)),
    λ before after id at. ground (
      arith,
      sound.counts id,
      ap (cloning_in id) at,
      eqb_iff id id,
      cloning_in-middle id before after host id,
    ),
  )
