-- ===== src/EndToEnd/Refused.antt =====
-- CreateNode of internal/adapter/proxmox/provider.go on the fake server, which refuses to configure the
-- VM that it has cloned.
use proxmox_k3s.Prelude.{
  some, ℕ, ◌+◌, ◌^◌, ◌≤◌, ◌<◌, ◌≡◌, ◌≢◌, refl, ◌∙◌, arith, [], ◌∷◌, ◌++◌, none, true, map,
}
use proxmox_k3s.Prelude.Int.{pos}
use proxmox_k3s.Prelude.Text.{Text, codes, ◌==◌, is_empty}
use proxmox_k3s.Prelude.Result.{ok, err}
use proxmox_k3s.Domain.Error.{wrap, api}
use proxmox_k3s.Domain.Model.{NodeSpec}
use proxmox_k3s.Proxmox.Vm.{ConfigRequest, on_vmid}
use proxmox_k3s.Proxmox.Placement.{Floats, Strategy, pick, filter_online}
use proxmox_k3s.Proxmox.Placement.Fair.{Offers}
use proxmox_k3s.Proxmox.Http.{post}
use proxmox_k3s.Proxmox.Provider.{create_node, clone_request, config_request}
use proxmox_k3s.Proxmox.Client.{Client, post_json, answered, check_status}
use proxmox_k3s.Proxmox.Client.Calls.{client_api, vm_path, configure}
use proxmox_k3s.Proxmox.FakeServer.{Server, injected, record_op}
use proxmox_k3s.Proxmox.FakeServer.Answer.{failure, Platform, unless_injected, respond_error}
use proxmox_k3s.Proxmox.FakeServer.Handlers.{listed_node, handle_config}
use proxmox_k3s.Proxmox.FakeServer.Route.{max_int, handle}
use proxmox_k3s.Proxmox.FakeServer.Transport.{fake_http, body_or_nothing}
use proxmox_k3s.Proxmox.FakeServer.Exchange.{received, exchange_reaching}
use proxmox_k3s.Proxmox.FakeServer.Segments.{IsSegment, all_segments, is_segment}
use proxmox_k3s.Proxmox.FakeServer.Routing.{vm_calls_reach, vm_calls-accepted}
use proxmox_k3s.Proxmox.FakeServer.Session.{clone_starts}
use proxmox_k3s.EndToEnd.Fresh.{IsFree}
use proxmox_k3s.EndToEnd.Calls.{
  Surroundings, counted, list_pve_nodes_lem, list_resources_lem, next_vmid_lem,
}
use proxmox_k3s.EndToEnd.VmCalls.{tasked, ran}
use proxmox_k3s.EndToEnd.Templates.{HasTemplate, HasTemplate-Found}
use proxmox_k3s.EndToEnd.Created.{after_clone}

-- A server that can clone a VM and refuses to configure one.
pub record CannotConfigure (template source : Text) (s : Server) : Type 0 where
  pub refusal : Text
  pub refused : injected (codes "config") s ≡ some refusal
  pub cloning : injected (codes "clone") s ≡ none
  pub has : HasTemplate template source s
  pub online : filter_online (map listed_node s.nodes) [] ≢ []
  pub named : (name : Text) → Offers (map listed_node s.nodes) [] name → IsSegment name
  pub room : s.next_vmid + 1 < 2 ^ 31
  pub free : IsFree (pos (s.next_vmid + 1)) s.vms

abbrev refusal_text : Platform → Text → Text
refusal_text P refusal =
    codes "proxmox internal error (HTTP 500): " ++ (fake_http P).text_of (failure refusal)

same_injected : (op : Text) (s t : Server) → t.errors ≡ s.errors → injected op t ≡ injected op s
unfolding injected
same_injected op s t e = rw e refl

cloned-errors :
    (P : Platform) (storage source host : Text) (spec : NodeSpec) (n : ℕ) (s : Server)
    → (after_clone P storage source host spec (pos n) s).errors ≡ s.errors
unfolding after_clone tasked
cloned-errors P storage source host spec n s = refl

module _ (c : Client) (P : Platform) (around : Surroundings c P) where
  configure_refused :
      (node : Text) (n : ℕ) (refusal : Text) (r : ConfigRequest) (s : Server)
      → IsSegment node
      → n ≤ max_int
      → injected (codes "config") s ≡ some refusal
      → configure c (fake_http P) node (pos n) r s
        ≡ (err (refusal_text P refusal), record_op (codes "config") s)
  unfolding configure post_json handle handle_config unless_injected respond_error received answered
      check_status body_or_nothing all_segments is_segment ◌==◌
  configure_refused node n refusal r s h small e =
      exchange_reaching c P post (vm_path node (pos n) (codes "/config")) _ _ _ s
        (vm_calls-accepted P c.endpoint around.docs node n h small (codes "config" ∷ []) refl)
        (vm_calls_reach P c.endpoint around.docs node n h small).2
      ∙ rw e refl

module _ (floats : Floats) (c : Client) (P : Platform) (around : Surroundings c P) (left : ℕ)
    (late : 500 < left) (template storage : Text) where
  pub create_node_refused :
      (spec : NodeSpec) (source host : Text) (s : Server) (strategy next : Strategy)
      (can : CannotConfigure template source s)
      → is_empty spec.host_node ≡ true
      → pick floats strategy (map listed_node s.nodes) [] ≡ (ok host, next)
      → IsSegment host
      → create_node floats (client_api c (fake_http P) left) template storage spec (s, strategy) ≡ (
        err (
            wrap (codes "configuring " ++ spec.name) (
              api (
                on_vmid (codes "configure") (pos (s.next_vmid + 1)) (refusal_text P can.refusal)))),
        (
          record_op
              (codes "config")
              (after_clone P storage source host spec (pos (s.next_vmid + 1)) (counted s)),
          next,
        ),
      )
  unfolding create_node after_clone
  create_node_refused spec source host s strategy next can anywhere picked hosted =
      let found = HasTemplate-Found c P around template source s can.has in
      let n = s.next_vmid + 1 in
      let s1 = counted s in
      let s2 = after_clone P storage source host spec (pos n) s1 in
      let request = clone_request storage host (pos n) spec in
      let cl = ran c P around source found.vmid found.placed found.small left _ _ _ (
        clone_starts c P around.docs around.stamps source found.vmid found.placed found.small left
          late s1 request (same_injected (codes "clone") s s1 refl ∙ can.cloning)) in
      rw
        (
          list_pve_nodes_lem c P around s,
          anywhere,
          picked,
          list_resources_lem c P around s,
          found.found,
          next_vmid_lem c P around s can.room,
          found.numbered,
          found.at,
          cl.answered,
          cl.waited,
          configure_refused c P around host n can.refusal (config_request spec) s2 hosted
              (omega (arith, can.room))
              (same_injected (codes "config") s s2 (cloned-errors P storage source host spec n s1)
                ∙ can.refused),
        )
        refl
