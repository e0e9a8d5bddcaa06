-- ===== src/EndToEnd/Calls.antt =====
-- The calls of internal/adapter/proxmox/client without a VM: what they return from
-- internal/adapter/proxmox/testserver and what they leave there, where no error is set.
use proxmox_k3s.Prelude.{
  ℕ, ◌+◌, ◌^◌, ◌≤◌, ◌<◌, ◌≡◌, refl, ap, ◌∙◌, arith, List, [], ◌∷◌, ◌++◌, All, map, none, true,
  lt→ltb,
}
use proxmox_k3s.Prelude.Int.{pos}
use proxmox_k3s.Prelude.Perm.{Permᴰ}
use proxmox_k3s.Prelude.Text.{Text, codes, ◌==◌}
use proxmox_k3s.Prelude.Result.{ok}
use proxmox_k3s.Proxmox.Http.{get}
use proxmox_k3s.Proxmox.Client.{Client, get_json, answered, check_status}
use proxmox_k3s.Proxmox.Client.Tasks.{version, next_vmid}
use proxmox_k3s.Proxmox.Client.Calls.{resources_path, list_pve_nodes, list_resources}
use proxmox_k3s.Proxmox.FakeServer.{Server, injected}
use proxmox_k3s.Proxmox.FakeServer.Upid.{int32, add_one}
use proxmox_k3s.Proxmox.FakeServer.Answer.{Platform, respond}
use proxmox_k3s.Proxmox.FakeServer.Handlers.{
  handle_version, handle_nodes, handle_cluster_resources, handle_next_id, listed_node, vm_resource,
  listed_resources,
}
use proxmox_k3s.Proxmox.FakeServer.Route.{
  to_version, handle, Route, route, to_nodes, to_resources, to_next_id,
}
use proxmox_k3s.Proxmox.FakeServer.Transport.{fake_http}
use proxmox_k3s.Proxmox.FakeServer.Exchange.{received, exchange_reaching}
use proxmox_k3s.Proxmox.FakeServer.Segments.{
  IsPlain, Documented, slashes, all_segments, is_segment, segments, IsQuery, all_plain-IsPlain,
}

-- What the client and the fake server rely on: the documented behaviour of URLs and of their query, a
-- stamp of plain characters, a float64 that is exact on small integers, and a range over a map that
-- comes to each entry once.
pub record Surroundings (c : Client) (P : Platform) : Type 0 where
  pub docs : Documented P c.endpoint
  pub stamps : (seq : ℕ) → All IsPlain (P.stamp seq)
  pub exact : (n : ℕ) → n ≤ 2 ^ 53 → P.through_float (pos n) ≡ pos n
  pub ranged : (s : Server) → Permᴰ (P.range_of s) s.vms
  pub queried : P.type_of (c.endpoint ++ codes "/api2/json/cluster/resources?type=vm") ≡ codes "vm"

-- No error of the injector is set.
abbrev pub NothingSet : Server → Type 0
NothingSet s = (op : Text) → injected op s ≡ none

-- The server when one more number has been given away.
abbrev pub counted : Server → Server
counted s = record s { next_vmid = s.next_vmid + 1 }

module _ (c : Client) (P : Platform) (around : Surroundings c P) where
  api_parts : List Text → List Text
  api_parts rest = codes "api2" ∷ codes "json" ∷ rest

  fixed_route :
      (rest : List Text) (query : Text) (r : Route)
      → all_segments (api_parts rest) ≡ true
      → IsQuery query
      → route get (slashes (api_parts rest)) ≡ r
      → route get (P.path_of (c.endpoint ++ (slashes (api_parts rest) ++ query))) ≡ r
  fixed_route rest query r e hq h =
      ap (route get) (around.docs.path (api_parts rest) query (segments (api_parts rest) e) hq) ∙ h

  fixed_accepted :
      (rest : List Text) (query : Text)
      → all_segments (api_parts rest) ≡ true
      → IsQuery query
      → P.url_error (c.endpoint ++ (slashes (api_parts rest) ++ query)) ≡ none
  fixed_accepted rest query e hq =
      around.docs.accepted (api_parts rest) query (segments (api_parts rest) e) hq

  pub version_lem : (s : Server) → version c (fake_http P) s ≡ (ok tt, s)
  unfolding version get_json api_parts all_segments is_segment ◌==◌ route handle handle_version
      respond received answered check_status
  version_lem s =
      exchange_reaching c P get (codes "/api2/json/version") none _ to_version s
        (fixed_accepted (codes "version" ∷ []) [] refl tt)
        (fixed_route (codes "version" ∷ []) [] to_version refl tt refl)

  pub list_pve_nodes_lem :
      (s : Server) → list_pve_nodes c (fake_http P) s ≡ (ok (map listed_node s.nodes), s)
  unfolding list_pve_nodes get_json api_parts all_segments is_segment ◌==◌ route handle handle_nodes
      respond received answered check_status
  list_pve_nodes_lem s =
      exchange_reaching c P get (codes "/api2/json/nodes") none _ to_nodes s
        (fixed_accepted (codes "nodes" ∷ []) [] refl tt)
        (fixed_route (codes "nodes" ∷ []) [] to_nodes refl tt refl)

  pub list_resources_lem :
      (s : Server)
      → list_resources c (fake_http P) (codes "vm") s ≡ (ok (map vm_resource (P.range_of s)), s)
  unfolding list_resources get_json api_parts all_segments is_segment ◌==◌ route handle
      handle_cluster_resources listed_resources respond received answered check_status
      resources_path
  list_resources_lem s =
      exchange_reaching c P get (codes "/api2/json/cluster/resources?type=vm") none _ to_resources s
        (fixed_accepted (codes "cluster" ∷ codes "resources" ∷ []) (codes "?type=vm") refl
          (refl, all_plain-IsPlain (codes "type=vm") refl))
        (fixed_route (codes "cluster" ∷ codes "resources" ∷ []) (codes "?type=vm") to_resources refl
          (refl, all_plain-IsPlain (codes "type=vm") refl) refl)
      ∙ rw around.queried refl

  bumped : (n : ℕ) → n + 1 < 2 ^ 31 → add_one n ≡ n + 1
  unfolding add_one
  bumped n h = omega arith

  small_int32 : (n : ℕ) → n < 2 ^ 31 → int32 n ≡ pos n
  unfolding int32
  small_int32 n h = rw (lt→ltb n (2 ^ 31) h) refl

  pub next_vmid_lem :
      (s : Server)
      → s.next_vmid + 1 < 2 ^ 31
      → next_vmid c (fake_http P) (pos 0) (pos 0) s ≡ (ok (pos (s.next_vmid + 1)), counted s)
  unfolding next_vmid get_json api_parts all_segments is_segment ◌==◌ route handle handle_next_id
      respond received answered check_status
  next_vmid_lem s h =
      rw
        (
          exchange_reaching c P get (codes "/api2/json/cluster/nextid") none _ to_next_id s
              (fixed_accepted (codes "cluster" ∷ codes "nextid" ∷ []) [] refl tt)
              (fixed_route (codes "cluster" ∷ codes "nextid" ∷ []) [] to_next_id refl tt refl),
          bumped s.next_vmid h,
          small_int32 (s.next_vmid + 1) h,
        )
        refl
