-- ===== src/Ssh.antt =====
-- internal/adapter/ssh: what the installers use of its Executor, over an unknown state of the hosts.
-- A context is part of the state. The two streams of Run are read by no caller but for stdout.
pub mod Retry
pub mod Dial
use proxmox_k3s.Prelude.{ℕ, Option}
use proxmox_k3s.Prelude.Text.{Text}

pub record Executor (S : Type 0) : Type 0 where
  -- The host and the command; stdout is there beside an error too.
  pub run : Text → Text → S → (Text × Option Text) × S
  -- What the writer makes of the output comes third.
  pub run_stream : Text → Text → (Text → Text) → S → Option Text × S
  -- The host, the path, the content and the mode.
  pub upload : Text → Text → Text → ℕ → S → Option Text × S
