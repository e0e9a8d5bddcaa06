-- ===== src/Tests/PoolRuns.antt =====
-- Runs of the address pool and of the sizes.
use proxmox_k3s.Prelude.{ℕ, ◌+◌, ◌<◌, ◌≡◌, refl, arith, get_elem?}
use proxmox_k3s.Net.{IsIp}
use proxmox_k3s.Ipam.Pool.{pool_of, size, increment_ip, address_space}
use proxmox_k3s.Ipam.Pool.Increment.{ip_value, Succeeds, increment_ip-Succeeds}
use proxmox_k3s.Ipam.Pool.Range.{distance, IsAt, pool_of_size, pool_of_address}
use proxmox_k3s.Tests.Fixtures.{at}

at-IsIp : (n : ℕ) → n < 256 → IsIp (at n)
at-IsIp n h = record { bytes = omega arith; sixteen = refl }

increment_ip-Succeeds_example :
    Succeeds address_space (ip_value (at 255)) (ip_value (increment_ip (at 255)))
increment_ip-Succeeds_example = increment_ip-Succeeds (at 255) (at-IsIp 255 (omega arith))

-- A range whose end comes first goes around.
pool_of_size_example :
    (size (pool_of (at 9) (at 8)) ≡ distance (ip_value (at 9)) (ip_value (at 8)) + 1)
    × ((pool_of (at 9) (at 8)).start ≡ at 8)
pool_of_size_example =
    pool_of_size (at 9) (at 8) (at-IsIp 9 (omega arith)) (at-IsIp 8 (omega arith))

pool_of_address_example : IsAt (ip_value (at 10) + 3) (get_elem? (pool_of (at 10) (at 14)).ips 3)
unfolding ip_value
pool_of_address_example =
    pool_of_address (at 10) (at 14) 3 (at-IsIp 10 (omega arith)) (at-IsIp 14 (omega arith))
      (omega arith)
