-- ===== src/Proxmox/FakeServer/Session.antt =====
-- The client of internal/adapter/proxmox/client against the server of
-- internal/adapter/proxmox/testserver: a call that starts a task, and the wait for the task.
use proxmox_k3s.Prelude.{ℕ, ◌≤◌, ◌<◌, ◌≡◌, refl, ◌∙◌, List, [], ◌∷◌, ◌++◌, All, none, true}
use proxmox_k3s.Prelude.Int.{pos}
use proxmox_k3s.Prelude.Text.{Text, codes, member, member_self, ◌==◌}
use proxmox_k3s.Prelude.Result.{Result, ok}
use proxmox_k3s.Proxmox.Vm.{CloneRequest, ResizeRequest}
use proxmox_k3s.Proxmox.Http.{post, put, delete}
use proxmox_k3s.Proxmox.Client.{Client, answered, check_status, post_json, put_json, delete_json}
use proxmox_k3s.Proxmox.Client.Tasks.{wait_task}
use proxmox_k3s.Proxmox.Client.Calls.{vm_path, clone, resize, start, stop, delete_vm}
use proxmox_k3s.Proxmox.FakeServer.{
  Server, injected, with_vms, put_vm, record_op, change_vm, remove_vm,
}
use proxmox_k3s.Proxmox.FakeServer.Upid.{new_upid, add_one}
use proxmox_k3s.Proxmox.FakeServer.Answer.{Platform, unless_injected, respond}
use proxmox_k3s.Proxmox.FakeServer.Handlers.{
  handle_clone, clone_for, respond_task, cloned_vm, handle_resize, handle_start, handle_stop,
  handle_delete, with_status,
}
use proxmox_k3s.Proxmox.FakeServer.Route.{max_int, handle}
use proxmox_k3s.Proxmox.FakeServer.Transport.{fake_http, body_or_nothing}
use proxmox_k3s.Proxmox.FakeServer.Exchange.{received, exchange_reaching}
use proxmox_k3s.Proxmox.FakeServer.Tasks.{upid-IsSegment, wait_finishes}
use proxmox_k3s.Proxmox.FakeServer.Segments.{
  IsPlain, IsSegment, Documented, slashes, all_segments, is_segment, all_plain, all_plain-IsPlain,
}
use proxmox_k3s.Proxmox.FakeServer.Routing.{
  vm_calls_reach, vm_calls-accepted, delete-accepted, purge,
}

module _ (c : Client) (P : Platform) (node : Text) (left : ℕ) where
  -- A call starts a task on the host, from the state in which the VMs are changed, and a wait for
  -- that task succeeds and changes nothing.
  pub record Started (op : Text) (before : Server) (r : Result Text Text × Server) : Type 0 where
    pub name : Text
    pub after : Server
    pub started : (name, after) ≡ new_upid P.stamp node op before
    pub answered : r ≡ (ok name, after)
    pub waited : wait_task c (fake_http P) left node name after ≡ (ok tt, after)

module _ (c : Client) (P : Platform) (docs : Documented P c.endpoint)
    (stamps : (seq : ℕ) → All IsPlain (P.stamp seq)) (node : Text) (n : ℕ) (h : IsSegment node)
    (small : n ≤ max_int) (left : ℕ) (late : 500 < left) (s : Server) where
  accepted_at :
      (rest : List Text)
      → all_segments rest ≡ true
      → P.url_error (c.endpoint ++ vm_path node (pos n) (slashes rest)) ≡ none
  accepted_at = vm_calls-accepted P c.endpoint docs node n h small

  starts :
      (op : Text) (before : Server) (r : Result Text Text × Server)
      → all_plain op ≡ true
      → r ≡ (ok (new_upid P.stamp node op before).0, (new_upid P.stamp node op before).1)
      → Started c P node left op before r
  unfolding new_upid add_one member
  starts op before r plain e = record {
    name = (new_upid P.stamp node op before).0;
    after = (new_upid P.stamp node op before).1;
    started = refl;
    answered = e;
    waited =
        wait_finishes c P docs node (new_upid P.stamp node op before).0 h
          (upid-IsSegment P.stamp node (add_one before.upid_seq) op
            (stamps (add_one before.upid_seq)) h.plain (all_plain-IsPlain op plain))
          (new_upid P.stamp node op before).1 left
          (member_self (new_upid P.stamp node op before).0 before.tasks) late;
  }

  -- The clone alone, where only its error has to be unset.
  pub clone_starts :
      (r : CloneRequest)
      → injected (codes "clone") s ≡ none
      → Started c P node left
          (codes "qmclone")
          (with_vms
            (put_vm (P.through_float r.new_id) (cloned_vm P node r) s.vms)
            (record_op (codes "clone") s))
          (clone c (fake_http P) node (pos n) r s)
  unfolding clone post_json handle handle_clone unless_injected clone_for respond_task respond
      received answered check_status body_or_nothing all_segments is_segment ◌==◌
  clone_starts r unset = starts (codes "qmclone") _ _ refl (
      exchange_reaching c P post (vm_path node (pos n) (codes "/clone")) _ _ _ s
        (accepted_at (codes "clone" ∷ []) refl) (vm_calls_reach P c.endpoint docs node n h small).1
      ∙ rw unset refl)

  module _ (unset : (op : Text) → injected op s ≡ none) (r : CloneRequest) (z : ResizeRequest) where
    -- Where no error is set, every call of the client that starts a task gets its name from the fake
    -- server, which has changed the VM as the call says and noted the call, and WaitTask, with more
    -- than half a second left, finds the task done without error: clone, resize, start, stop and
    -- delete, on a host whose name is a plain part of a path and a VM whose number is an int.
    pub tasks_finish :
        Started c P node left
          (codes "qmclone")
          (with_vms
            (put_vm (P.through_float r.new_id) (cloned_vm P node r) s.vms)
            (record_op (codes "clone") s))
          (clone c (fake_http P) node (pos n) r s)
        × Started c P node left
            (codes "qmresize")
            (record_op (codes "resize") s)
            (resize c (fake_http P) node (pos n) z s)
        × Started c P node left
            (codes "qmstart")
            (with_vms
              (change_vm (pos n) (with_status (codes "running")) s.vms)
              (record_op (codes "start") s))
            (start c (fake_http P) node (pos n) s)
        × Started c P node left
            (codes "qmstop")
            (with_vms
              (change_vm (pos n) (with_status (codes "stopped")) s.vms)
              (record_op (codes "stop") s))
            (stop c (fake_http P) node (pos n) s)
        × Started c P node left
            (codes "qmdestroy")
            (with_vms (remove_vm (pos n) s.vms) (record_op (codes "delete") s))
            (delete_vm c (fake_http P) node (pos n) s)
    unfolding clone resize start stop delete_vm post_json put_json delete_json handle handle_clone
        handle_resize handle_start handle_stop handle_delete unless_injected clone_for respond_task
        respond received answered check_status body_or_nothing all_segments is_segment ◌==◌
    tasks_finish =
        let (agent, clones, configs, resizes, starting, stopping, deletes) =
          vm_calls_reach P c.endpoint docs node n h small in
        (
          clone_starts r (unset (codes "clone")),
          starts (codes "qmresize") _ _ refl (
              exchange_reaching c P put (vm_path node (pos n) (codes "/resize")) _ _ _ s
                (accepted_at (codes "resize" ∷ []) refl) resizes),
          starts (codes "qmstart") _ _ refl (
              exchange_reaching c P post (vm_path node (pos n) (codes "/status/start")) _ _ _ s
                (accepted_at (codes "status" ∷ codes "start" ∷ []) refl) starting
              ∙ rw (unset (codes "start")) refl),
          starts (codes "qmstop") _ _ refl (
              exchange_reaching c P post (vm_path node (pos n) (codes "/status/stop")) _ _ _ s
                (accepted_at (codes "status" ∷ codes "stop" ∷ []) refl) stopping),
          starts (codes "qmdestroy") _ _ refl (
              exchange_reaching c P delete (vm_path node (pos n) purge) _ _ _ s
                (delete-accepted P c.endpoint docs node n h small) deletes
              ∙ rw (unset (codes "delete")) refl),
        )
