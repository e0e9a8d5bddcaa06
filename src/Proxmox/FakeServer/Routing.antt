-- ===== src/Proxmox/FakeServer/Routing.antt =====
-- Which handler of internal/adapter/proxmox/testserver/server.go the calls of vm.Manager reach.
use proxmox_k3s.Prelude.{
  ℕ, ◌≤◌, ◌≡◌, refl, sym, ap, ◌∙◌, arith, List, [], ◌∷◌, ◌++◌, append_assoc, append-nil, All, none,
  true,
}
use proxmox_k3s.Prelude.Int.{pos}
use proxmox_k3s.Prelude.Text.{Text, codes, ◌==◌}
use proxmox_k3s.Prelude.Text.Split.{split, onto}
use proxmox_k3s.Prelude.Decimal.{
  decimal, decimal_ℤ, value-decimal, all_digits-decimal, leading_digits-decimal, decimal-non-empty,
}
use proxmox_k3s.Proxmox.Http.{Method, get, post, put, delete}
use proxmox_k3s.Proxmox.Client.Calls.{vm_path}
use proxmox_k3s.Proxmox.FakeServer.Answer.{Platform}
use proxmox_k3s.Proxmox.FakeServer.Route.{
  Route, to_agent, to_clone, to_config, to_resize, to_start, to_stop, to_delete, max_int, must_int,
  operation, vm_route, qemu_route, node_route, dynamic_route, route,
}
use proxmox_k3s.Proxmox.FakeServer.Segments.{
  IsSegment, is_segment, all_plain-IsPlain, segment, all_segments, segments, slashes, IsQuery,
  Documented, split-slashes, decimal-IsSegment,
}

must_int-decimal : (n : ℕ) → n ≤ max_int → must_int (decimal n) ≡ pos n
unfolding must_int
must_int-decimal n h = rw (value-decimal n) ground arith

abbrev pub vm_parts : Text → ℕ → List Text → List Text
vm_parts node n rest =
    codes "api2" ∷ codes "json" ∷ codes "nodes" ∷ node ∷ codes "qemu" ∷ decimal n ∷ rest

pub route_dynamic :
    (m : Method) (node kind name : Text) (rest : List Text)
    → All IsSegment (node ∷ kind ∷ name ∷ rest)
    → route m (slashes (codes "api2" ∷ codes "json" ∷ codes "nodes" ∷ node ∷ kind ∷ name ∷ rest))
      ≡ node_route m node kind name rest
unfolding route dynamic_route split onto ◌==◌
route_dynamic m node kind name rest h = rw (split-slashes node (kind ∷ name ∷ rest) h) refl

pub route_vm :
    (m : Method) (node : Text) (n : ℕ) (rest : List Text)
    → IsSegment node
    → All IsSegment rest
    → route m (slashes (vm_parts node n rest)) ≡ vm_route m (operation rest) node (decimal n)
unfolding node_route qemu_route ◌==◌ is_segment
route_vm m node n rest h hs =
    route_dynamic m node (codes "qemu") (decimal n) rest
      (h, (segment (codes "qemu") refl, (decimal-IsSegment n, hs)))
    ∙ rw (h.non_empty, all_digits-decimal n, decimal-non-empty n) refl

vm_path_parts :
    (node : Text) (n : ℕ) (rest : List Text) (query : Text)
    → vm_path node (pos n) (slashes rest ++ query) ≡ slashes (vm_parts node n rest) ++ query
unfolding vm_path decimal_ℤ
vm_path_parts node n rest query =
    rw (append_assoc node _ query, append_assoc (decimal n) (slashes rest) query) refl

vm_parts-IsSegment :
    (node : Text) (n : ℕ) (rest : List Text)
    → IsSegment node
    → All IsSegment rest
    → All IsSegment (vm_parts node n rest)
unfolding is_segment ◌==◌
vm_parts-IsSegment node n rest h hs = (
  segment (codes "api2") refl,
  (
    segment (codes "json") refl,
    (segment (codes "nodes") refl, (h, (segment (codes "qemu") refl, (decimal-IsSegment n, hs)))),
  ),
)

abbrev pub purge_options : Text
purge_options = codes "purge=1&destroy-unreferenced-disks=1"

abbrev pub purge : Text
purge = b'?' ∷ purge_options

module _ (P : Platform) (base : Text) (docs : Documented P base) (node : Text) (n : ℕ) where
  -- The route of a request to a VM, with what follows the VM's number in the URL.
  abbrev pub reached : Method → Text → Route
  reached m rest = route m (P.path_of (base ++ vm_path node (pos n) rest))

  reaches :
      (m : Method) (rest : List Text) (query : Text)
      → IsSegment node
      → All IsSegment rest
      → IsQuery query
      → reached m (slashes rest ++ query) ≡ vm_route m (operation rest) node (decimal n)
  reaches m rest query h hs hq =
      ap (λ p. route m (P.path_of (base ++ p))) (vm_path_parts node n rest query)
      ∙ (ap (route m)
            (docs.path (vm_parts node n rest) query (vm_parts-IsSegment node n rest h hs) hq)
          ∙ route_vm m node n rest h hs)

  pub vm_path-accepted :
      (rest : List Text) (query : Text)
      → IsSegment node
      → All IsSegment rest
      → IsQuery query
      → P.url_error (base ++ vm_path node (pos n) (slashes rest ++ query)) ≡ none
  vm_path-accepted rest query h hs hq =
      ap (λ p. P.url_error (base ++ p)) (vm_path_parts node n rest query)
      ∙ docs.accepted (vm_parts node n rest) query (vm_parts-IsSegment node n rest h hs) hq

  module _ (h : IsSegment node) (small : n ≤ max_int) where
    sends :
        (m : Method) (rest : List Text)
        → all_segments rest ≡ true
        → reached m (slashes rest) ≡ vm_route m (operation rest) node (decimal n)
    sends m rest e =
        ap (reached m) (sym (append-nil (slashes rest))) ∙ reaches m rest [] h (segments rest e) tt

    number : must_int (decimal n) ≡ pos n
    number = must_int-decimal n small

    -- The URLs of the calls are accepted.
    pub vm_calls-accepted :
        (rest : List Text)
        → all_segments rest ≡ true
        → P.url_error (base ++ vm_path node (pos n) (slashes rest)) ≡ none
    vm_calls-accepted rest e =
        ap (λ p. P.url_error (base ++ vm_path node (pos n) p)) (sym (append-nil (slashes rest)))
        ∙ vm_path-accepted rest [] h (segments rest e) tt

    pub delete-accepted : P.url_error (base ++ vm_path node (pos n) purge) ≡ none
    delete-accepted = vm_path-accepted [] purge h tt (refl, all_plain-IsPlain purge_options refl)

    -- At what the client sends to for a VM, the fake server runs the handler of that call, with the
    -- same host and the same number of the VM, if the name of the host is a plain part of a path and
    -- the number is an int: the agent, clone, config, resize, start, stop and delete calls.
    pub vm_calls_reach :
        (reached get (codes "/agent/network-get-interfaces") ≡ to_agent node (pos n))
        × (reached post (codes "/clone") ≡ to_clone node (pos n))
        × (reached post (codes "/config") ≡ to_config node (pos n))
        × (reached put (codes "/resize") ≡ to_resize node (pos n))
        × (reached post (codes "/status/start") ≡ to_start node (pos n))
        × (reached post (codes "/status/stop") ≡ to_stop node (pos n))
        × (reached delete (codes "?purge=1&destroy-unreferenced-disks=1") ≡ to_delete node (pos n))
    unfolding vm_route operation is_segment all_segments ◌==◌
    vm_calls_reach = (
      sends get (codes "agent" ∷ codes "network-get-interfaces" ∷ []) refl ∙ rw number refl,
      sends post (codes "clone" ∷ []) refl ∙ rw number refl,
      sends post (codes "config" ∷ []) refl ∙ rw number refl,
      sends put (codes "resize" ∷ []) refl ∙ rw number refl,
      sends post (codes "status" ∷ codes "start" ∷ []) refl ∙ rw number refl,
      sends post (codes "status" ∷ codes "stop" ∷ []) refl ∙ rw number refl,
      reaches delete [] purge h tt (refl, all_plain-IsPlain purge_options refl)
          ∙ rw (leading_digits-decimal n, decimal-non-empty n, number) refl,
    )
