-- ===== src/Ipam/Pool/Range.antt =====
-- The addresses that the loop of ParsePool in internal/adapter/ipam/static.go collects.
use proxmox_k3s.Prelude.{
  ℕ, zero, suc, ◌+◌, ◌-◌, ◌<◌, ◌≤◌, List, [], ◌∷◌, ◌++◌, append-nil, append_assoc, ◌≡◌, ◌≢◌, ◌⊎◌,
  inl, inr, refl, ap, ◌∙◌, arith, Option, some, Bool-cases, false, get_elem?, length, length-append,
  leb, if◌then◌else◌,
}
use proxmox_k3s.Prelude.Text.{◌==◌, eq_iff, eq_refl}
use proxmox_k3s.Net.{Ip, IsIp}
use proxmox_k3s.Ipam.Pool.{increment_ip, collect, pool_of, size, address_space}
use proxmox_k3s.Ipam.Pool.Increment.{
  ip_value, increment_ip-IsIp, increment_ip-Succeeds, ip_value-injective, ip_value-lt, Succeeds,
}

-- How often the first address is incremented until it is the second, around the end if need be.
abbrev pub distance : ℕ → ℕ → ℕ
distance x y = if leb x y then y - x else y + address_space - x

abbrev Apart : ℕ → ℕ → ℕ → ℕ → Type 0
Apart m d x y = (d < m) × ((x + d ≡ y) ⊎ (x + d ≡ y + m))

-- So many addresses from one on.
addresses : ℕ → Ip → List Ip
addresses zero ip = []
addresses (suc d) ip = ip ∷ addresses d (increment_ip ip)

Apart-step : (m d x w y : ℕ) → x < m → y < m → Succeeds m x w → Apart m (suc d) x y → Apart m d w y
Apart-step m d x w y hx hy s a = ground arith

Apart-ne : (m d x y : ℕ) → Apart m (suc d) x y → x ≢ y
Apart-ne m d x y a e = omega arith

collect_done : (rounds : ℕ) (ip : Ip) (ips : List Ip) → collect rounds ip ip ips ≡ (ips, ip)
unfolding collect
collect_done zero ip ips = refl
collect_done (suc rounds) ip ips = rw (eq_refl ip, collect) refl

collect_step :
    (rounds : ℕ) (ip last : Ip) (ips : List Ip)
    → (ip == last) ≡ false
    → collect (suc rounds) ip last ips ≡ collect rounds (increment_ip ip) last (ips ++ ip ∷ [])
unfolding collect
collect_step rounds ip last ips h = rw (h, collect) refl

not_last : (ip last : Ip) → ip_value ip ≢ ip_value last → (ip == last) ≡ false
not_last ip last h = elim (Bool-cases (ip == last)) [
  | inl e ↦ absurd (h (ap ip_value ((eq_iff ip last).0 e)))
  | inr e ↦ e
]

collect_lem :
    (rounds d : ℕ) (ip last : Ip) (ips : List Ip)
    → IsIp ip
    → IsIp last
    → d ≤ rounds
    → Apart address_space d (ip_value ip) (ip_value last)
    → collect rounds ip last ips ≡ (ips ++ addresses d ip, last)
unfolding addresses
collect_lem rounds zero ip last ips hi hl le a =
    rw
      (
        append-nil,
        ip_value-injective last ip hl hi (omega (arith, ip_value-lt ip hi, ip_value-lt last hl)),
      )
      (collect_done rounds ip ips)
collect_lem zero (suc d) ip last ips hi hl le a = absurd (omega arith)
collect_lem (suc rounds) (suc d) ip last ips hi hl le a =
    collect_step rounds ip last ips (not_last ip last (Apart-ne _ d _ _ a))
    ∙ (collect_lem rounds d (increment_ip ip) last (ips ++ ip ∷ []) (increment_ip-IsIp ip hi) hl
          (omega arith)
          (Apart-step _ d _ _ _ (ip_value-lt ip hi) (ip_value-lt last hl)
            (increment_ip-Succeeds ip hi) a)
        ∙ regroup)
  where
    regroup :
        ◌≡◌ {A = List Ip × Ip}
          ((ips ++ ip ∷ []) ++ addresses d (increment_ip ip), last)
          (ips ++ ip ∷ addresses d (increment_ip ip), last)
    regroup = rw append_assoc

length-addresses : (d : ℕ) (ip : Ip) → length (addresses d ip) ≡ d
unfolding addresses
length-addresses zero ip = refl
length-addresses (suc d) ip = ap suc (length-addresses d (increment_ip ip))

-- The option holds the address with that number.
abbrev pub IsAt : ℕ → Option Ip → Type 0
IsAt v o = (x : Ip) × (o ≡ some x) × IsIp x × (ip_value x ≡ v)

addresses-IsAt :
    (d i : ℕ) (ip last : Ip)
    → IsIp ip
    → IsIp last
    → ip_value ip + d ≡ ip_value last
    → i ≤ d
    → IsAt (ip_value ip + i) (get_elem? (addresses d ip ++ last ∷ []) i)
unfolding addresses
addresses-IsAt zero zero ip last hi hl e le = (last, refl, hl, omega arith)
addresses-IsAt zero (suc i) ip last hi hl e le = absurd (omega arith)
addresses-IsAt (suc d) zero ip last hi hl e le = (ip, refl, hi, omega arith)
addresses-IsAt (suc d) (suc i) ip last hi hl e le = shift (
    addresses-IsAt d i (increment_ip ip) last (increment_ip-IsIp ip hi) hl (omega (arith, step))
      (omega arith))
  where
    step : ip_value (increment_ip ip) ≡ ip_value ip + 1
    step = omega (arith, increment_ip-Succeeds ip hi, ip_value-lt last hl)

    shift :
        IsAt
          (ip_value (increment_ip ip) + i)
          (get_elem? (addresses d (increment_ip ip) ++ last ∷ []) i)
        → IsAt (ip_value ip + suc i) (get_elem? (addresses d (increment_ip ip) ++ last ∷ []) i)
    shift (x, found, ok, at) = (x, found, ok, omega (arith, step))

pool_of-ips :
    (start last : Ip)
    → IsIp start
    → IsIp last
    → pool_of start last ≡ record {
      start = last;
      end = last;
      ips = addresses (distance (ip_value start) (ip_value last)) start ++ last ∷ [];
    }
unfolding pool_of
pool_of-ips start last hs hl =
    ap (λ (r : List Ip × Ip). record { start = r.1; end = last; ips = r.0 ++ last ∷ [] })
      (collect_lem address_space (distance (ip_value start) (ip_value last)) start last [] hs hl
        (ground (arith, ip_value-lt start hs, ip_value-lt last hl))
        (ground (arith, ip_value-lt start hs, ip_value-lt last hl)))

-- For any two addresses the rounds are enough for the loop to end by its own test: the pool has one
-- address more than the distance from the first to the last, which is counted around the whole
-- space of 2^128 addresses where the last is below the first. The field `start` has become the last
-- address.
pub pool_of_size :
    (start last : Ip)
    → IsIp start
    → IsIp last
    → (size (pool_of start last) ≡ distance (ip_value start) (ip_value last) + 1)
      × ((pool_of start last).start ≡ last)
unfolding size
pool_of_size start last hs hl = rw (pool_of-ips start last hs hl) (
  omega (
    arith,
    length-append (addresses (distance (ip_value start) (ip_value last)) start) (last ∷ []),
    length-addresses (distance (ip_value start) (ip_value last)) start,
  ),
  refl,
)

-- Where the first address is not above the last, the pool's addresses are the consecutive ones from
-- the first to the last: at place `i` stands the first address plus `i`.
pub pool_of_address :
    (start last : Ip) (i : ℕ)
    → IsIp start
    → IsIp last
    → ip_value start + i ≤ ip_value last
    → IsAt (ip_value start + i) (get_elem? (pool_of start last).ips i)
pool_of_address start last i hs hl le = rw (pool_of-ips start last hs hl) (
    addresses-IsAt (distance (ip_value start) (ip_value last)) i start last hs hl (ground arith)
      (ground arith))
