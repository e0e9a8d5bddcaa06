-- ===== src/Proxmox/FakeServer/Route.antt =====
-- The mux, the patterns reClone … reAgent and handleDynamic of
-- internal/adapter/proxmox/testserver/server.go.
use proxmox_k3s.Prelude.{ℕ, List, [], ◌∷◌, Option, none, some, ◌&&◌, not, ltb, if◌then◌else◌}
use proxmox_k3s.Prelude.Int.{ℤ, pos}
use proxmox_k3s.Prelude.Text.{Text, codes, ◌==◌, is_empty}
use proxmox_k3s.Prelude.Text.Split.{split}
use proxmox_k3s.Prelude.Decimal.{value, all_digits, leading_digits}
use proxmox_k3s.Proxmox.Http.{Method, get, post, put, delete}
use proxmox_k3s.Proxmox.FakeServer.Answer.{Payload, Platform, Handler, not_found}
use proxmox_k3s.Proxmox.FakeServer.Handlers.{
  handle_version, handle_nodes, handle_cluster_resources, handle_next_id, handle_task_status,
  handle_agent, handle_clone, handle_config, handle_resize, handle_start, handle_stop,
  handle_delete,
}

-- What a request asks for, of which VM on which host.
pub data Route : Type 0 where
  to_version to_nodes to_resources to_next_id nowhere : Route
  to_task : Text → Text → Route
  to_agent to_clone to_config to_resize to_start to_stop to_delete : Text → ℤ → Route

abbrev pub max_int : ℕ
max_int = 9223372036854775807

-- mustInt on digits: strconv.Atoi gives the largest int for a number that is out of range.
unfoldable pub must_int : Text → ℤ
must_int digits = let n = value 0 digits in pos (if ltb max_int n then max_int else n)

-- What the patterns say of the path behind `/qemu/<vmid>`.
pub data Operation : Type 0 where
  agent clone config resize start stop : Operation

one_word : Text → Option Operation
one_word a =
    if a == codes "clone"
    then some clone
    else if a == codes "config"
    then some config
    else if a == codes "resize"
    then some resize
    else none

two_words : Text → Text → Option Operation
two_words a b =
    if a == codes "agent" && b == codes "network-get-interfaces"
    then some agent
    else if a == codes "status" && b == codes "start"
    then some start
    else if a == codes "status" && b == codes "stop"
    then some stop
    else none

unfoldable pub operation : List Text → Option Operation
unfolding one_word two_words
operation (a ∷ []) = one_word a
operation (a ∷ b ∷ []) = two_words a b
operation [] = none
operation (a ∷ b ∷ c ∷ rest) = none

-- reDelete, which has no `$`: it matches where a digit is the first character.
delete_route : Method → Text → Text → Route
unfolding must_int
delete_route delete node v =
    if is_empty (leading_digits v) then nowhere else to_delete node (must_int (leading_digits v))
delete_route get node v = nowhere
delete_route post node v = nowhere
delete_route put node v = nowhere

-- The branches of handleDynamic on a VM whose number is all digits.
unfoldable pub vm_route : Method → Option Operation → Text → Text → Route
unfolding delete_route must_int
vm_route m (some agent) node v = to_agent node (must_int v)
vm_route post (some clone) node v = to_clone node (must_int v)
vm_route post (some config) node v = to_config node (must_int v)
vm_route put (some resize) node v = to_resize node (must_int v)
vm_route post (some start) node v = to_start node (must_int v)
vm_route post (some stop) node v = to_stop node (must_int v)
vm_route m op node v = delete_route m node v

unfoldable pub qemu_route : Method → Text → Text → List Text → Route
unfolding vm_route delete_route operation
qemu_route m node v rest =
    if all_digits v && not (is_empty v)
    then vm_route m (operation rest) node v
    else delete_route m node v

unfoldable pub task_route : Text → Text → List Text → Route
task_route node upid (word ∷ []) =
    if word == codes "status" && not (is_empty upid) then to_task node upid else nowhere
task_route node upid [] = nowhere
task_route node upid (word ∷ next ∷ rest) = nowhere

unfoldable pub node_route : Method → Text → Text → Text → List Text → Route
unfolding task_route qemu_route
node_route m node kind name rest =
    if is_empty node
    then nowhere
    else if kind == codes "tasks"
    then task_route node name rest
    else if kind == codes "qemu"
    then qemu_route m node name rest
    else nowhere

-- handleDynamic, on the parts of the path between the slashes.
unfoldable pub dynamic_route : Method → List Text → Route
unfolding node_route
dynamic_route m (first ∷ api ∷ json ∷ nodes ∷ node ∷ kind ∷ name ∷ rest) =
    if is_empty first && (api == codes "api2" && (json == codes "json" && nodes == codes "nodes"))
    then node_route m node kind name rest
    else nowhere
dynamic_route m parts = nowhere

-- The mux prefers the four patterns without parameters.
unfoldable pub route : Method → Text → Route
unfolding dynamic_route
route m path =
    if path == codes "/api2/json/version"
    then to_version
    else if path == codes "/api2/json/nodes"
    then to_nodes
    else if path == codes "/api2/json/cluster/resources"
    then to_resources
    else if path == codes "/api2/json/cluster/nextid"
    then to_next_id
    else dynamic_route m (split path b'/')

module _ (P : Platform) where
  unfoldable pub handle : Route → Text → Payload → Handler
  unfolding handle_version handle_nodes handle_cluster_resources handle_next_id handle_task_status
      handle_agent handle_clone handle_config handle_resize handle_start handle_stop handle_delete
      not_found
  handle to_version kind body = handle_version
  handle to_nodes kind body = handle_nodes
  handle to_resources kind body = handle_cluster_resources P kind
  handle to_next_id kind body = handle_next_id
  handle nowhere kind body = not_found
  handle (to_task node upid) kind body = handle_task_status node upid
  handle (to_agent node vmid) kind body = handle_agent node vmid
  handle (to_clone node vmid) kind body = handle_clone P node vmid body
  handle (to_config node vmid) kind body = handle_config P node vmid body
  handle (to_resize node vmid) kind body = handle_resize P node vmid
  handle (to_start node vmid) kind body = handle_start P node vmid
  handle (to_stop node vmid) kind body = handle_stop P node vmid
  handle (to_delete node vmid) kind body = handle_delete P node vmid
