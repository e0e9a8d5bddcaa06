-- ===== src/Tests/CloneRuns.antt =====
-- Three calls of CreateNode that overlap on one host.
use proxmox_k3s.Prelude.{ℕ, ◌+◌, ◌≤◌, ◌<◌, ◌≡◌, refl, arith, [], ◌∷◌, ◌++◌, List, ◌↔◌}
use proxmox_k3s.Prelude.Text.{◌==◌}
use proxmox_k3s.Prelude.Dict.{lookup, insert}
use proxmox_k3s.Proxmox.Clones.{
  Clones, Caller, waiting, cloning, Reached, fresh, then_step, entered, sent, clone_semaphore,
  put_at, clones_on, max_clones, no_clones, with_held,
}
use proxmox_k3s.Proxmox.Clones.Bound.{semaphore_outcome}
use proxmox_k3s.Tests.FakeRuns.{pve1}

-- A call gets its channel.
abbrev enter : Clones → Clones
enter s = record {
  sems = (clone_semaphore pve1 s.sems).1;
  callers = waiting pve1 (clone_semaphore pve1 s.sems).0 ∷ s.callers;
}

abbrev tail : List Caller → List Caller
tail [] = []
tail (c ∷ cs) = cs

-- The newest call, which waits, sends.
abbrev send : Clones → Clones
send s = record {
  sems = with_held 0 (s.sems.held 0 + 1) s;
  callers = cloning pve1 0 ∷ tail s.callers;
}

abbrev three : Clones
three = enter (send (enter (send (enter no_clones))))

three_reached : Reached three
unfolding clone_semaphore lookup insert ◌==◌ put_at
three_reached =
    then_step
      (then_step
        (then_step
          (then_step (then_step fresh (entered pve1 refl))
            (sent [] [] pve1 0 refl (omega arith) refl))
          (entered pve1 refl))
        (sent [] (cloning pve1 0 ∷ []) pve1 0 refl (omega arith) refl))
      (entered pve1 refl)

-- The third call has to wait.
third_waits : clones_on pve1 three.callers ≡ 2
unfolding clones_on ◌==◌
third_waits = refl

semaphore_outcome_example :
    (clones_on pve1 three.callers ≤ max_clones)
    × ((before after : List Caller) (id : ℕ)
        → three.callers ≡ before ++ (waiting pve1 id ∷ after)
        → (three.sems.held id < max_clones) ↔ (clones_on pve1 three.callers < max_clones))
    × ((before after : List Caller) (id : ℕ)
        → three.callers ≡ before ++ (cloning pve1 id ∷ after)
        → 0 < three.sems.held id)
semaphore_outcome_example = semaphore_outcome three three_reached pve1
