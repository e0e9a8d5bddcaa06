-- ===== src/Proxmox/Client/Tasks/Wait.antt =====
-- How the loop of WaitTask in internal/adapter/proxmox/client/task.go ends.
use proxmox_k3s.Prelude.{ℕ, suc, ◌*◌, ◌≤◌, ◌≡◌, ◌≢◌, if◌then◌else◌, ◌++◌}
use proxmox_k3s.Prelude.Text.{Text, codes, ◌==◌}
use proxmox_k3s.Prelude.Result.{Result, ok, err}
use proxmox_k3s.Proxmox.Http.{Http, TaskStatus}
use proxmox_k3s.Proxmox.Client.{Client}
use proxmox_k3s.Proxmox.Client.Tasks.{polling_failed, deadline_exceeded, task_status}

-- The end of a task, as its exit status tells.
abbrev pub exit_result : Text → TaskStatus → Result Text Unit
exit_result upid t =
    if t.exit_status == codes "OK"
    then ok tt
    else err (codes "task " ++ (upid ++ (codes " failed: " ++ t.exit_status)))

module _ (c : Client) (H : Http) (node upid : Text) where
  open H use {State}

  -- So many questions in turn are answered with a status that is not `stopped`.
  pub data Running : State → ℕ → State → Type 0 where
    none_yet : {s : State} → Running s 0 s
    once_more :
        {s t u : State} {n : ℕ} {st : TaskStatus}
        → task_status c H node upid s ≡ (ok st, t)
        → st.status ≢ codes "stopped"
        → Running t n u
        → Running s (suc n) u

  -- The three ends of a wait, from the state after the last answer that was not `stopped`.
  pub data Ends (t : State) (r : Result Text Unit × State) : Type 0 where
    late : r ≡ (err deadline_exceeded, t) → Ends t r
    lost :
        (e : Text) (u : State)
        → task_status c H node upid t ≡ (err e, u)
        → r ≡ (err (polling_failed upid e), u)
        → Ends t r
    stopped :
        (st : TaskStatus) (u : State)
        → task_status c H node upid t ≡ (ok st, u)
        → st.status ≡ codes "stopped"
        → r ≡ (exit_result upid st, u)
        → Ends t r

  Waited : ℕ → State → Result Text Unit × State → Type 0
  Waited left s r = (n : ℕ) × (t : State) × Running s n t × (500 * n ≤ left) × Ends t r
