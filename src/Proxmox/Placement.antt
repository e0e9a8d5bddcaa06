-- ===== src/Proxmox/Placement.antt =====
-- internal/adapter/proxmox/placement/placement.go: on which host a new VM goes.
pub mod Fair
use proxmox_k3s.Prelude.{
  ℕ, suc, ◌+◌, ◌%◌, List, [], ◌∷◌, Option, none, some, Bool, true, false, not, ◌&&◌, ◌≡◌, keep,
  length, get_elem?, if◌then◌else◌, eqb,
}
use proxmox_k3s.Prelude.Int.{ℤ, is_zero}
use proxmox_k3s.Prelude.Text.{Text, codes, ◌==◌, member, is_empty}
use proxmox_k3s.Prelude.Result.{Result, ok, err}
use proxmox_k3s.Domain.Error.{Error, no_nodes_available}
use proxmox_k3s.Proxmox.Node.{PveNode}

-- The float64 arithmetic of LeastLoaded: the quotient of two integers, the constant 2.0, and `<`.
pub record Floats : Type 1 where
  pub Float : Type 0
  pub ratio : ℤ → ℤ → Float
  pub two : Float
  pub lt : Float → Float → Bool

-- RoundRobin with its counter, which counts picks and stays far below 2^63, or LeastLoaded.
pub data Strategy : Type 0 where
  round_robin : ℕ → Strategy
  least_loaded : Strategy

-- NewStrategy
unfoldable pub new_strategy : Text → Strategy
new_strategy name = if name == codes "least-loaded" then least_loaded else round_robin 0

is_available : List Text → PveNode → Bool
is_available exclude n = n.status == codes "online" && not (member n.name exclude)

unfoldable pub filter_online : List PveNode → List Text → List PveNode
unfolding is_available keep
filter_online nodes exclude = keep (is_available exclude) nodes

abbrev pub named : Option PveNode → Result Error Text
named none = err no_nodes_available
named (some n) = ok n.name

-- RoundRobin.Pick on the available hosts: an error leaves the counter alone.
rotate : ℕ → List PveNode → Result Error Text × Strategy
rotate counter [] = (err no_nodes_available, round_robin counter)
rotate counter (n ∷ ns) =
    (named (get_elem? (n ∷ ns) (counter % length (n ∷ ns))), round_robin (counter + 1))

module _ (floats : Floats) where
  -- The loop of LeastLoaded.Pick over the best host so far and its ratio.
  lightest : List PveNode → Option PveNode → floats.Float → Option PveNode
  lightest [] best best_ratio = best
  lightest (n ∷ ns) best best_ratio = elim (is_zero n.max_mem) [
    | true ↦ lightest ns best best_ratio
    | false ↦ elim (floats.lt (floats.ratio n.mem n.max_mem) best_ratio) [
      | true ↦ lightest ns (some n) (floats.ratio n.mem n.max_mem)
      | false ↦ lightest ns best best_ratio
    ]
  ]

  -- `best` starts as the zero struct, and its empty name means that none was found.
  or_first : PveNode → Option PveNode → Text
  or_first first none = first.name
  or_first first (some best) = if is_empty best.name then first.name else best.name

  -- LeastLoaded.Pick on the available hosts
  pick_lightest : List PveNode → Result Error Text
  unfolding lightest or_first
  pick_lightest [] = err no_nodes_available
  pick_lightest (n ∷ ns) = ok (or_first n (lightest (n ∷ ns) none floats.two))

  unfoldable pub pick : Strategy → List PveNode → List Text → Result Error Text × Strategy
  unfolding rotate pick_lightest filter_online
  pick (round_robin counter) nodes exclude = rotate counter (filter_online nodes exclude)
  pick least_loaded nodes exclude = (pick_lightest (filter_online nodes exclude), least_loaded)
