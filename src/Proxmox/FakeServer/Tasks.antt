-- ===== src/Proxmox/FakeServer/Tasks.antt =====
-- The tasks of internal/adapter/proxmox/testserver/server.go: their names are plain parts of a path,
-- and a wait of the client for one of them ends at once.
use proxmox_k3s.Prelude.{
  ℕ, zero, suc, ◌-◌, ◌/◌, ◌%◌, ◌<◌, ◌≡◌, refl, ap, ◌∙◌, arith, List, [], ◌∷◌, ◌++◌, append-nil, All,
  All-append, none, true, Bool-cases, inl, inr, ltb→lt, ltb, length, lt→ltb,
}
use proxmox_k3s.Prelude.Int.{ℤ, pos, negsuc}
use proxmox_k3s.Prelude.Text.{Text, codes, member, ◌==◌}
use proxmox_k3s.Prelude.Result.{ok}
use proxmox_k3s.Proxmox.Http.{get}
use proxmox_k3s.Proxmox.Client.{Client, get_json, answered, check_status}
use proxmox_k3s.Proxmox.Client.Tasks.{task_status, poll, wait_task, on_status, on_verdict, verdict}
use proxmox_k3s.Proxmox.FakeServer.{Server}
use proxmox_k3s.Proxmox.FakeServer.Upid.{upid, hex, hex4, zeros, emit_hex, hex_digit, int32}
use proxmox_k3s.Proxmox.FakeServer.Answer.{Platform, respond}
use proxmox_k3s.Proxmox.FakeServer.Handlers.{done_task, handle_task_status}
use proxmox_k3s.Proxmox.FakeServer.Route.{route, node_route, task_route, to_task, handle}
use proxmox_k3s.Proxmox.FakeServer.Transport.{fake_http}
use proxmox_k3s.Proxmox.FakeServer.Exchange.{received, exchange_reaching}
use proxmox_k3s.Proxmox.FakeServer.Segments.{
  IsPlain, IsSegment, all_plain-IsPlain, is_segment, segment, slashes, Documented,
}
use proxmox_k3s.Proxmox.FakeServer.Routing.{route_dynamic}

hex_digit-IsPlain : (d : ℕ) → d < 16 → IsPlain (hex_digit d)
unfolding hex_digit
hex_digit-IsPlain d h = ground arith

emit_hex-IsPlain : (fuel n : ℕ) (out : Text) → All IsPlain out → All IsPlain (emit_hex fuel n out)
unfolding emit_hex
emit_hex-IsPlain zero n out h = h
emit_hex-IsPlain (suc fuel) n out h = elim (Bool-cases (ltb n 16)) [
  | inl e ↦ rw (e, emit_hex) (hex_digit-IsPlain n (ltb→lt n 16 e), h)
  | inr e ↦
      rw (e, emit_hex)
        (emit_hex-IsPlain fuel (n / 16) (hex_digit (n % 16) ∷ out)
          (hex_digit-IsPlain (n % 16) (omega arith), h))
]

zeros-IsPlain : (n : ℕ) (s : Text) → All IsPlain s → All IsPlain (zeros n s)
unfolding zeros
zeros-IsPlain zero s h = h
zeros-IsPlain (suc n) s h = ((all_plain-IsPlain (codes "0") refl).0, zeros-IsPlain n s h)

hex-IsPlain : (n : ℕ) → All IsPlain (hex n)
unfolding hex
hex-IsPlain n = emit_hex-IsPlain (suc n) n [] tt

hex4-IsPlain : (i : ℤ) → All IsPlain (hex4 i)
unfolding hex4
hex4-IsPlain (pos n) = zeros-IsPlain (4 - length (hex n)) (hex n) (hex-IsPlain n)
hex4-IsPlain (negsuc n) = (
  (all_plain-IsPlain (codes "-") refl).0,
  zeros-IsPlain (3 - length (hex (suc n))) (hex (suc n)) (hex-IsPlain (suc n)),
)

append-IsPlain : (s t : Text) → All IsPlain s → All IsPlain t → All IsPlain (s ++ t)
append-IsPlain s t hs ht = All-append IsPlain s t hs ht

pub upid-IsSegment :
    (stamp : ℕ → Text) (node : Text) (seq : ℕ) (op : Text)
    → All IsPlain (stamp seq)
    → All IsPlain node
    → All IsPlain op
    → IsSegment (upid stamp node seq op)
unfolding upid
upid-IsSegment stamp node seq op hs hn ho = record {
  non_empty = refl;
  plain = append-IsPlain (codes "UPID:") _ (all_plain-IsPlain (codes "UPID:") refl) (
      append-IsPlain node _ hn (
        append-IsPlain (codes ":00") _ (all_plain-IsPlain (codes ":00") refl) (
          append-IsPlain (hex4 (int32 seq)) _ (hex4-IsPlain (int32 seq)) (
            append-IsPlain (codes ":00000001:") _ (all_plain-IsPlain (codes ":00000001:") refl) (
              append-IsPlain (stamp seq) _ hs (
                append-IsPlain (codes ":") _ (all_plain-IsPlain (codes ":") refl)
                  (append-IsPlain op _ ho (all_plain-IsPlain (codes "::root@pam:") refl))))))));
  not_here = λ e. cc;
  not_up = λ e. cc;
}

module _ (c : Client) (P : Platform) (docs : Documented P c.endpoint) (node task : Text) where
  task_parts : List Text
  task_parts =
      codes "api2"
      ∷ codes "json"
      ∷ codes "nodes"
      ∷ node
      ∷ codes "tasks"
      ∷ task
      ∷ codes "status"
      ∷ []

  task_path : Text
  task_path = codes "/api2/json/nodes/" ++ (node ++ (codes "/tasks/" ++ (task ++ codes "/status")))

  task_path_parts : task_path ≡ slashes task_parts ++ []
  unfolding task_path task_parts
  task_path_parts = rw (append-nil (slashes task_parts)) refl

  module _ (h : IsSegment node) (ht : IsSegment task) where
    task_parts-IsSegment : All IsSegment task_parts
    unfolding task_parts is_segment ◌==◌
    task_parts-IsSegment = (
      segment (codes "api2") refl,
      (
        segment (codes "json") refl,
        (
          segment (codes "nodes") refl,
          (h, (segment (codes "tasks") refl, (ht, (segment (codes "status") refl, tt)))),
        ),
      ),
    )

    task_reaches : route get (P.path_of (c.endpoint ++ task_path)) ≡ to_task node task
    unfolding task_parts node_route task_route ◌==◌
    task_reaches =
        ap (λ p. route get (P.path_of (c.endpoint ++ p))) task_path_parts
        ∙ (ap (route get) (docs.path task_parts [] task_parts-IsSegment tt)
            ∙ (route_dynamic get node (codes "tasks") task (codes "status" ∷ [])
                  task_parts-IsSegment.1.1.1
                ∙ rw (h.non_empty, ht.non_empty) refl))

    pub task_status_done :
        (s : Server)
        → member task s.tasks ≡ true
        → task_status c (fake_http P) node task s ≡ (ok (done_task task), s)
    unfolding task_status get_json handle handle_task_status respond received answered check_status
        task_path
    task_status_done s e =
        exchange_reaching c P get task_path none _ _ s
          (ap (λ p. P.url_error (c.endpoint ++ p)) task_path_parts
            ∙ docs.accepted task_parts [] task_parts-IsSegment tt)
          task_reaches
        ∙ rw e refl

    -- A wait for a task that the server has started.
    pub wait_finishes :
        (s : Server) (left : ℕ)
        → member task s.tasks ≡ true
        → 500 < left
        → wait_task c (fake_http P) left node task s ≡ (ok tt, s)
    unfolding wait_task poll on_status on_verdict verdict ◌==◌
    wait_finishes s left e late = rw (lt→ltb 500 left late, task_status_done s e) refl
