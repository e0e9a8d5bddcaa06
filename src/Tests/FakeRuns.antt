-- ===== src/Tests/FakeRuns.antt =====
-- Runs of the client against the fake Proxmox server.
use proxmox_k3s.Prelude.{
  ◌≡◌, refl, ap, ◌∙◌, arith, List, [], ◌∷◌, ◌++◌, append-nil, All, none, some, eqb, if◌then◌else◌,
  ◌↔◌,
}
use proxmox_k3s.Prelude.Int.{pos}
use proxmox_k3s.Prelude.Text.{Text, codes, ◌==◌, trim_prefix, trim_prefix-append}
use proxmox_k3s.Prelude.Text.Split.{Lacks}
use proxmox_k3s.Prelude.Dict.{lookup}
use proxmox_k3s.Prelude.Result.{ok}
use proxmox_k3s.Proxmox.Vm.{CloneRequest, ResizeRequest}
use proxmox_k3s.Proxmox.Http.{get, post, Request}
use proxmox_k3s.Proxmox.Client.{Client, exchange}
use proxmox_k3s.Proxmox.Client.Answers.{exchange_iff, Answers}
use proxmox_k3s.Proxmox.Client.Calls.{clone, resize, start, stop, delete_vm}
use proxmox_k3s.Proxmox.FakeServer.{
  VmMap, new_server, injected, put_vm, record_op, with_vms, change_vm, remove_vm,
}
use proxmox_k3s.Proxmox.FakeServer.Answer.{Payload, Platform, clone_body}
use proxmox_k3s.Proxmox.FakeServer.Handlers.{cloned_vm, with_status}
use proxmox_k3s.Proxmox.FakeServer.Route.{to_clone, handle}
use proxmox_k3s.Proxmox.FakeServer.Transport.{fake_http, serve}
use proxmox_k3s.Proxmox.FakeServer.Segments.{
  IsPlain, IsSegment, IsQuery, Documented, slashes, segment, is_segment, all_plain-IsPlain,
}
use proxmox_k3s.Proxmox.FakeServer.Session.{Started, tasks_finish}
use proxmox_k3s.Proxmox.FakeServer.Meaning.{view, meaning}
use proxmox_k3s.Proxmox.FakeServer.Effect.{view-handle}
use proxmox_k3s.Proxmox.FakeServer.Coherent.{IsCoherent}
use proxmox_k3s.Proxmox.FakeServer.Reached.{fresh, then_step, request, Reached-IsCoherent}

abbrev pub base : Text
base = codes "http://127.0.0.1:8006"

-- A URL up to its query.
abbrev pub before_query : Text → Text
before_query [] = []
before_query (c ∷ s) = let rest = before_query s in if eqb c b'?' then [] else c ∷ rest

-- The value of the only parameter of a query.
abbrev pub after_equals : Text → Text
after_equals [] = []
after_equals (c ∷ s) = if eqb c b'=' then s else after_equals s

-- The first two entries of a map in the other order.
abbrev pub flipped : VmMap → VmMap
flipped [] = []
flipped (a ∷ []) = a ∷ []
flipped (a ∷ b ∷ m) = b ∷ a ∷ m

abbrev pub platform : Platform
platform = record {
  stamp = λ seq. codes "6740AAAA";
  through_float = λ n. n;
  range_of = λ s. flipped s.vms;
  hung_up = codes "EOF";
  path_of = λ url. before_query (trim_prefix url base);
  type_of = λ url. after_equals url;
  url_error = λ url. none;
  mismatch = codes "json: cannot unmarshal";
  print = λ p. codes "{}";
}

before_query_plain : (s t : Text) → Lacks b'?' s → before_query (s ++ t) ≡ s ++ before_query t
before_query_plain [] t h = refl
before_query_plain (c ∷ s) t (hc, h) = ground (arith, before_query_plain s t h)

plain-Lacks : (s : Text) → All IsPlain s → Lacks b'?' s
plain-Lacks [] h = tt
plain-Lacks (c ∷ s) ((lo, hi, slash, mark, r1, r2), h) = (mark, plain-Lacks s h)

append-Lacks : (s t : Text) → Lacks b'?' s → Lacks b'?' t → Lacks b'?' (s ++ t)
append-Lacks [] t hs ht = ht
append-Lacks (c ∷ s) t (h, hs) ht = (h, append-Lacks s t hs ht)

slashes-Lacks : (segments : List Text) → All IsSegment segments → Lacks b'?' (slashes segments)
slashes-Lacks [] h = tt
slashes-Lacks (s ∷ ss) (h, hs) =
    (λ e. omega arith, append-Lacks s (slashes ss) (plain-Lacks s h.plain) (slashes-Lacks ss hs))

query_gone : (q : Text) → IsQuery q → before_query q ≡ []
query_gone [] h = refl
query_gone (c ∷ q) (h, hs) = rw h refl

path_documented :
    (segments : List Text) (query : Text)
    → All IsSegment segments
    → IsQuery query
    → before_query (trim_prefix (base ++ (slashes segments ++ query)) base) ≡ slashes segments
path_documented segments query hs hq =
    ap before_query (trim_prefix-append base (slashes segments ++ query))
    ∙ (before_query_plain (slashes segments) query (slashes-Lacks segments hs)
        ∙ (ap (λ t. slashes segments ++ t) (query_gone query hq) ∙ append-nil (slashes segments)))

pub documented : Documented platform base
documented = record { path = path_documented; accepted = λ segments query hs hq. refl }

abbrev pub client : Client
client = record { endpoint = base; token_id = codes "root@pam!k3s"; token_secret = codes "s3cret" }

abbrev clone_it : CloneRequest
clone_it = record {
  new_id = pos 101;
  name = codes "lab-master-0";
  full = pos 1;
  storage = codes "local";
  target_node = codes "pve1";
}

abbrev resize_it : ResizeRequest
resize_it = record { disk = codes "scsi0"; size = codes "20G" }

abbrev pub pve1 : Text
pve1 = codes "pve1"

pub pve1-IsSegment : IsSegment pve1
unfolding is_segment ◌==◌
pve1-IsSegment = segment pve1 refl

-- A clone that is asked for, as the client sends it.
abbrev clone_request : Request Payload
clone_request = record {
  method = post;
  url = base ++ codes "/api2/json/nodes/pve1/qemu/9000/clone";
  body = some (clone_body clone_it);
  authorization = codes "PVEAPIToken=root@pam!k3s=s3cret";
}

pub nothing_set : (op : Text) → injected op new_server ≡ none
unfolding injected lookup
nothing_set op = refl

tasks_finish_example :
    Started client platform pve1 1000
      (codes "qmclone")
      (with_vms
        (put_vm (pos 101) (cloned_vm platform pve1 clone_it) new_server.vms)
        (record_op (codes "clone") new_server))
      (clone client (fake_http platform) pve1 (pos 9000) clone_it new_server)
    × Started client platform pve1 1000
        (codes "qmresize")
        (record_op (codes "resize") new_server)
        (resize client (fake_http platform) pve1 (pos 9000) resize_it new_server)
    × Started client platform pve1 1000
        (codes "qmstart")
        (with_vms
          (change_vm (pos 9000) (with_status (codes "running")) new_server.vms)
          (record_op (codes "start") new_server))
        (start client (fake_http platform) pve1 (pos 9000) new_server)
    × Started client platform pve1 1000
        (codes "qmstop")
        (with_vms
          (change_vm (pos 9000) (with_status (codes "stopped")) new_server.vms)
          (record_op (codes "stop") new_server))
        (stop client (fake_http platform) pve1 (pos 9000) new_server)
    × Started client platform pve1 1000
        (codes "qmdestroy")
        (with_vms (remove_vm (pos 9000) new_server.vms) (record_op (codes "delete") new_server))
        (delete_vm client (fake_http platform) pve1 (pos 9000) new_server)
tasks_finish_example =
    tasks_finish client platform documented (λ seq. all_plain-IsPlain (codes "6740AAAA") refl) pve1
      9000 pve1-IsSegment (omega arith) 1000 (omega arith) new_server nothing_set clone_it resize_it

view-handle_example :
    view
      (handle platform (to_clone pve1 (pos 9000)) [] (clone_body clone_it) new_server).1
      (pos 101)
    ≡ meaning platform
        (to_clone pve1 (pos 9000))
        (clone_body clone_it)
        (λ op. injected op new_server)
        (view new_server)
        (pos 101)
view-handle_example =
    view-handle platform new_server (pos 101) (to_clone pve1 (pos 9000)) [] (clone_body clone_it)

Reached-IsCoherent_example : IsCoherent (serve platform clone_request new_server).1.vms
Reached-IsCoherent_example =
    Reached-IsCoherent platform (serve platform clone_request new_server).1
      (then_step fresh (request clone_request))

exchange_iff_example :
    (exchange client
        (fake_http platform)
        get
        (codes "/api2/json/version")
        none
        (fake_http platform).as_version
        new_server
      ≡ (ok tt, new_server))
    ↔ Answers client
        (fake_http platform)
        get
        (codes "/api2/json/version")
        none
        (fake_http platform).as_version
        new_server
        new_server
        tt
exchange_iff_example =
    exchange_iff client (fake_http platform) get (codes "/api2/json/version") none
      (fake_http platform).as_version new_server new_server tt
