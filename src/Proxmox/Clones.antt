-- ===== src/Proxmox/Clones.antt =====
-- cloneSemaphore of internal/adapter/proxmox/provider.go, and the part of CreateNode that it guards,
-- for calls of CreateNode that overlap. A channel is its place on a heap of channels, and holds so
-- many values.
pub mod Table
pub mod Sound
pub mod Bound
use proxmox_k3s.Prelude.{
  ℕ, zero, suc, ◌+◌, ◌-◌, ◌<◌, ◌≡◌, List, [], ◌∷◌, ◌++◌, Option, none, some, eqb, if◌then◌else◌,
}
use proxmox_k3s.Prelude.Text.{Text, ◌==◌}
use proxmox_k3s.Prelude.Dict.{Dict, lookup, insert}

-- The field maxClones, which NewProvider sets: the capacity of each channel.
abbrev pub max_clones : ℕ
max_clones = 2

-- The field cloneSem and the channels that have been made.
pub record Semaphores : Type 0 where
  pub table : Dict ℕ
  pub made : ℕ
  pub held : ℕ → ℕ

unfoldable pub put_at : ℕ → ℕ → (ℕ → ℕ) → ℕ → ℕ
put_at id n held other = if eqb id other then n else held other

-- `make(chan struct{}, p.maxClones)` under the host's name, unless there is one.
unfoldable pub semaphore_or_new : Option ℕ → Text → Semaphores → ℕ × Semaphores
unfolding put_at
semaphore_or_new (some id) host s = (id, s)
semaphore_or_new none host s = (
  s.made,
  record { table = insert host s.made s.table; made = s.made + 1; held = put_at s.made 0 s.held },
)

-- cloneSemaphore, which a mutex makes one step.
unfoldable pub clone_semaphore : Text → Semaphores → ℕ × Semaphores
unfolding semaphore_or_new
clone_semaphore host s = semaphore_or_new (lookup host s.table) host s

-- A call of CreateNode on a host, with its channel: before its send, or between the send and the
-- deferred receive, where it clones and sets up the VM.
pub data Caller : Type 0 where
  waiting cloning : Text → ℕ → Caller

pub record Clones : Type 0 where
  pub sems : Semaphores
  pub callers : List Caller

-- NewProvider
abbrev pub no_clones : Clones
no_clones = record { sems = record { table = []; made = 0; held = λ id. 0 }; callers = [] }

abbrev pub with_held : ℕ → ℕ → Clones → Semaphores
with_held id n s = record s.sems { held = put_at id n s.sems.held }

-- The steps of the calls, in any order: a call gets its channel; its send goes through, which the
-- channel's capacity allows; it returns, however it ends, and its deferred receive takes a value.
pub data Step (s t : Clones) : Type 0 where
  entered :
      (host : Text)
      → t ≡ record {
        sems = (clone_semaphore host s.sems).1;
        callers = waiting host (clone_semaphore host s.sems).0 ∷ s.callers;
      }
      → Step s t
  sent :
      (before after : List Caller) (host : Text) (id : ℕ)
      → s.callers ≡ before ++ (waiting host id ∷ after)
      → s.sems.held id < max_clones
      → t ≡ record {
        sems = with_held id (s.sems.held id + 1) s;
        callers = before ++ (cloning host id ∷ after);
      }
      → Step s t
  left :
      (before after : List Caller) (host : Text) (id : ℕ)
      → s.callers ≡ before ++ (cloning host id ∷ after)
      → 0 < s.sems.held id
      → t ≡ record { sems = with_held id (s.sems.held id - 1) s; callers = before ++ after }
      → Step s t

pub data Reached : Clones → Type 0 where
  fresh : Reached no_clones
  then_step : {s t : Clones} → Reached s → Step s t → Reached t

-- How many calls are cloning on a host.
unfoldable pub clones_on : Text → List Caller → ℕ
clones_on host [] = 0
clones_on host (waiting other id ∷ rest) = clones_on host rest
clones_on host (cloning other id ∷ rest) = (if other == host then 1 else 0) + clones_on host rest
