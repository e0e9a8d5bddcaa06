-- ===== src/EndToEnd/VmCalls.antt =====
-- The calls of internal/adapter/proxmox/client for a VM: what they return from
-- internal/adapter/proxmox/testserver and what they leave there, where no error is set.
use proxmox_k3s.Prelude.{some, ℕ, ◌≤◌, ◌<◌, ◌≡◌, refl, ap, subst, ◌∙◌, [], ◌∷◌}
use proxmox_k3s.Prelude.Int.{ℤ, pos}
use proxmox_k3s.Prelude.Text.{Text, codes, ◌==◌}
use proxmox_k3s.Prelude.Result.{Result, ok}
use proxmox_k3s.Proxmox.Vm.{CloneRequest, ConfigRequest, ResizeRequest}
use proxmox_k3s.Proxmox.Http.{get, post}
use proxmox_k3s.Proxmox.Client.{Client, get_json, post_json, answered, check_status}
use proxmox_k3s.Proxmox.Client.Tasks.{wait_task}
use proxmox_k3s.Proxmox.Client.Calls.{
  agent_interfaces, vm_path, clone, configure, resize, start, stop, delete_vm,
}
use proxmox_k3s.Proxmox.FakeServer.{
  FakeVm, vm_at, Server, with_vms, put_vm, record_op, change_vm, remove_vm,
}
use proxmox_k3s.Proxmox.FakeServer.Upid.{upid, new_upid}
use proxmox_k3s.Proxmox.FakeServer.Answer.{Platform, unless_injected, respond, config_body}
use proxmox_k3s.Proxmox.FakeServer.Handlers.{
  handle_agent, agent_answer, eth0, vm_ip, handle_config, configured, cloned_vm, with_status,
}
use proxmox_k3s.Proxmox.FakeServer.Route.{max_int, handle}
use proxmox_k3s.Proxmox.FakeServer.Transport.{fake_http, body_or_nothing}
use proxmox_k3s.Proxmox.FakeServer.Exchange.{received, exchange_reaching}
use proxmox_k3s.Proxmox.FakeServer.Segments.{IsSegment, all_segments, is_segment}
use proxmox_k3s.Proxmox.FakeServer.Routing.{vm_calls_reach, vm_calls-accepted}
use proxmox_k3s.Proxmox.FakeServer.Session.{Started, tasks_finish}
use proxmox_k3s.EndToEnd.Calls.{Surroundings, NothingSet}

-- Any clone and any resize, where a statement about other calls wants one.
abbrev no_clone : CloneRequest
no_clone = record { new_id = pos 0; name = []; full = pos 0; storage = []; target_node = [] }

abbrev no_resize : ResizeRequest
no_resize = record { disk = []; size = [] }

abbrev tail : Text → Text
tail [] = []
tail (c ∷ s) = s

module _ (P : Platform) where
  -- The server when it has started a task on a host.
  unfoldable pub tasked : Text → Text → Server → Server
  unfolding new_upid
  tasked node op s = (new_upid P.stamp node op s).1

  abbrev pub cloned : Text → CloneRequest → Server → Server
  cloned node r s =
      with_vms (put_vm (P.through_float r.new_id) (cloned_vm P node r) s.vms)
        (record_op (codes "clone") s)

  abbrev pub configured_at : ℤ → ConfigRequest → Server → Server
  configured_at vmid r s =
      with_vms (change_vm vmid (configured P (config_body r)) s.vms) (record_op (codes "config") s)

abbrev pub status_set : ℤ → Text → Text → Server → Server
status_set vmid status op s = with_vms (change_vm vmid (with_status status) s.vms) (record_op op s)

abbrev pub removed : ℤ → Server → Server
removed vmid s = with_vms (remove_vm vmid s.vms) (record_op (codes "delete") s)

module _ (c : Client) (P : Platform) (around : Surroundings c P) (node : Text) (n : ℕ)
    (h : IsSegment node) (small : n ≤ max_int) where
  pub configure_lem :
      (r : ConfigRequest) (s : Server)
      → NothingSet s
      → configure c (fake_http P) node (pos n) r s ≡ (ok [], configured_at P (pos n) r s)
  unfolding configure post_json handle handle_config unless_injected respond received answered
      check_status body_or_nothing all_segments is_segment ◌==◌
  configure_lem r s unset =
      exchange_reaching c P post (vm_path node (pos n) (codes "/config")) _ _ _ s
        (vm_calls-accepted P c.endpoint around.docs node n h small (codes "config" ∷ []) refl)
        (vm_calls_reach P c.endpoint around.docs node n h small).2
      ∙ rw (unset (codes "config")) refl

  pub agent_lem :
      (s : Server) (vm : FakeVm)
      → NothingSet s
      → vm_at (pos n) s.vms ≡ some vm
      → agent_interfaces c (fake_http P) node (pos n) s ≡ (ok (eth0 (vm_ip vm.name) ∷ []), s)
  unfolding agent_interfaces get_json handle handle_agent agent_answer unless_injected respond
      received answered check_status all_segments is_segment ◌==◌
  agent_lem s vm unset e =
      exchange_reaching c P get (vm_path node (pos n) (codes "/agent/network-get-interfaces")) _ _ _
        s
        (vm_calls-accepted P c.endpoint around.docs node n h small
          (codes "agent" ∷ codes "network-get-interfaces" ∷ []) refl)
        (vm_calls_reach P c.endpoint around.docs node n h small).0
      ∙ rw (unset (codes "agent"), e) refl

  -- A call that starts a task, and the wait for it.
  pub record Ran (left : ℕ) (op : Text) (before : Server) (r : Result Text Text × Server)
      : Type 0 where
    pub rest : Text
    pub answered : r ≡ (ok (b'U' ∷ rest), tasked P node op before)
    pub waited :
        wait_task c (fake_http P) left node (b'U' ∷ rest) (tasked P node op before)
        ≡ (ok tt, tasked P node op before)

  pub ran :
      (left : ℕ) (op : Text) (before : Server) (r : Result Text Text × Server)
      → Started c P node left op before r
      → Ran left op before r
  unfolding tasked new_upid upid
  ran left op before r st = record {
    rest = tail (new_upid P.stamp node op before).0;
    answered = st.answered ∙ ap (λ p. (ok p.0, p.1)) st.started;
    waited =
        subst (λ p. wait_task c (fake_http P) left node p.0 p.1 ≡ (ok tt, p.1)) st.started
          st.waited;
  }

  module _ (left : ℕ) (late : 500 < left) (s : Server) (unset : NothingSet s) where
    pub clone-Ran :
        (r : CloneRequest)
        → Ran left (codes "qmclone") (cloned P node r s) (clone c (fake_http P) node (pos n) r s)
    clone-Ran r =
        ran left _ _ _
          (tasks_finish c P around.docs around.stamps node n h small left late s unset r
            no_resize).0

    pub resize-Ran :
        (z : ResizeRequest)
        → Ran left
            (codes "qmresize")
            (record_op (codes "resize") s)
            (resize c (fake_http P) node (pos n) z s)
    resize-Ran z =
        ran left _ _ _
          (tasks_finish c P around.docs around.stamps node n h small left late s unset no_clone z).1

    pub start-Ran :
        Ran left
          (codes "qmstart")
          (status_set (pos n) (codes "running") (codes "start") s)
          (start c (fake_http P) node (pos n) s)
    start-Ran =
        ran left _ _ _
          (tasks_finish c P around.docs around.stamps node n h small left late s unset no_clone
            no_resize).2

    pub stop-Ran :
        Ran left
          (codes "qmstop")
          (status_set (pos n) (codes "stopped") (codes "stop") s)
          (stop c (fake_http P) node (pos n) s)
    stop-Ran =
        ran left _ _ _
          (tasks_finish c P around.docs around.stamps node n h small left late s unset no_clone
            no_resize).3

    pub delete-Ran :
        Ran left (codes "qmdestroy") (removed (pos n) s) (delete_vm c (fake_http P) node (pos n) s)
    delete-Ran =
        ran left _ _ _
          (tasks_finish c P around.docs around.stamps node n h small left late s unset no_clone
            no_resize).4
