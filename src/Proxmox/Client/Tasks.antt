-- ===== src/Proxmox/Client/Tasks.antt =====
-- internal/adapter/proxmox/client/task.go: WaitTask, TaskStatus, Version and NextVMID. A context with
-- a deadline is the time that it has left, in milliseconds; a question takes no time.
pub mod Wait
use proxmox_k3s.Prelude.{
  ℕ, zero, suc, ◌+◌, ◌-◌, ◌*◌, List, [], ◌∷◌, ◌++◌, none, Bool, true, false, ◌&&◌, not, ltb,
  if◌then◌else◌,
}
use proxmox_k3s.Prelude.Int.{ℤ, pos, ltb_ℤ}
use proxmox_k3s.Prelude.Text.{Text, codes, ◌==◌}
use proxmox_k3s.Prelude.Decimal.{decimal_ℤ}
use proxmox_k3s.Prelude.Result.{Result, ok, err, map_err, bind, Exec, ◌>>=◌}
use proxmox_k3s.Proxmox.Http.{Http, TaskStatus}
use proxmox_k3s.Proxmox.Client.{Client, get_json}

-- `fmt.Errorf("polling task %s: %w", upid, err)`
abbrev pub polling_failed : Text → Text → Text
polling_failed upid e = codes "polling task " ++ (upid ++ (codes ": " ++ e))

-- What the loop makes of a status: nothing while the task runs.
pub data Verdict : Type 0 where
  running : Verdict
  finished : Result Text Unit → Verdict

unfoldable pub verdict : Text → TaskStatus → Verdict
verdict upid t =
    if t.status == codes "stopped"
    then finished (
        if t.exit_status == codes "OK"
        then ok tt
        else err (codes "task " ++ (upid ++ (codes " failed: " ++ t.exit_status))))
    else running

abbrev pub max_interval : ℕ
max_interval = 3000

-- The next interval: twice the last, up to the longest.
unfoldable pub next_interval : ℕ → ℕ
next_interval i =
    if ltb i max_interval then (if ltb max_interval (i * 2) then max_interval else i * 2) else i

abbrev pub deadline_exceeded : Text
deadline_exceeded = codes "context deadline exceeded"

module _ (c : Client) (H : Http) where
  open H use {State}

  unfoldable pub task_status : Text → Text → Exec State Text TaskStatus
  unfolding get_json
  task_status node upid =
      get_json c H
        (codes "/api2/json/nodes/" ++ (node ++ (codes "/tasks/" ++ (upid ++ codes "/status"))))
        H.as_task

  unfoldable pub version : Exec State Text Unit
  unfolding get_json
  version = get_json c H (codes "/api2/json/version") H.as_version

  nextid_path : ℤ → Text
  nextid_path min =
      if ltb_ℤ (pos 0) min
      then codes "/api2/json/cluster/nextid?vmid=" ++ decimal_ℤ min
      else codes "/api2/json/cluster/nextid"

  in_range : ℤ → ℤ → ℤ → Result Text ℤ
  in_range min max id =
      if ltb_ℤ (pos 0) max && ltb_ℤ max id
      then err (
          codes "next available VMID "
          ++ (decimal_ℤ id
              ++ (codes " is outside configured vmid_range ["
                  ++ (decimal_ℤ min ++ (codes ", " ++ (decimal_ℤ max ++ codes "]"))))))
      else ok id

  -- NextVMID
  unfoldable pub next_vmid : ℤ → ℤ → Exec State Text ℤ
  unfolding get_json nextid_path in_range
  next_vmid min max = do
    id ← get_json c H (nextid_path min) H.as_number
    λ s. (in_range min max id, s)

  -- What follows an answer, given how the loop goes on.
  unfoldable pub on_verdict : Verdict → Exec State Text Unit → Exec State Text Unit
  on_verdict (finished r) go s = (r, s)
  on_verdict running go s = go s

  unfoldable pub on_status :
      Text → Result Text TaskStatus → Exec State Text Unit → Exec State Text Unit
  unfolding on_verdict verdict
  on_status upid (err e) go s = (err (polling_failed upid e), s)
  on_status upid (ok t) go s = on_verdict (verdict upid t) go s

  -- The loop of WaitTask: rounds, the next interval, the time that is left. Where the deadline comes
  -- no later than the end of the interval, it wins.
  unfoldable pub poll : Text → Text → ℕ → ℕ → ℕ → Exec State Text Unit
  unfolding on_status task_status next_interval
  poll node upid zero interval left s = (err (codes "out of rounds"), s)
  poll node upid (suc rounds) interval left s =
      let go = poll node upid rounds (next_interval interval) (left - interval) in
      if ltb interval left
      then (let (r, s') = task_status node upid s in on_status upid r go s')
      else (err deadline_exceeded, s)

  -- WaitTask, with so much time left.
  unfoldable pub wait_task : ℕ → Text → Text → Exec State Text Unit
  unfolding poll
  wait_task left node upid = poll node upid (suc left) 500 left
