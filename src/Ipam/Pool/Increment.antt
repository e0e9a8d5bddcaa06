-- ===== src/Ipam/Pool/Increment.antt =====
-- incrementIP of internal/adapter/ipam/static.go on the numbers that addresses spell.
use mathlib.Core.List.{reverse, reverse-append, reverse-reverse}
use proxmox_k3s.Prelude.{
  ℕ, zero, suc, ◌+◌, ◌*◌, ◌<◌, List, [], ◌∷◌, ◌≡◌, ◌⊎◌, refl, sym, ap, ◌∙◌, arith, All, All-reverse,
  length, length-append,
}
use proxmox_k3s.Net.{Ip, IsIp}
use proxmox_k3s.Ipam.Pool.{bump, increment_ip, address_space}

-- The number that bytes spell, the first the least significant.
abbrev le_value : List ℕ → ℕ
le_value [] = 0
le_value (b ∷ bs) = b + 256 * le_value bs

-- The number of an address: its bytes in network order.
unfoldable pub ip_value : Ip → ℕ
ip_value ip = le_value (reverse ip)

-- How many texts of so many bytes there are.
abbrev span : ℕ → ℕ
span zero = 1
span (suc n) = 256 * span n

abbrev IsBytes : List ℕ → Type 0
IsBytes = All (λ b. b < 256)

le_value-lt : (bs : List ℕ) → IsBytes bs → le_value bs < span (length bs)
le_value-lt [] h = omega arith
le_value-lt (b ∷ bs) (hb, hbs) = omega (arith, le_value-lt bs hbs)

-- `w` comes next after `v` among the numbers below `m`, where 0 follows the last.
abbrev pub Succeeds : ℕ → ℕ → ℕ → Type 0
Succeeds m v w = ((suc v < m) × (w ≡ suc v)) ⊎ ((suc v ≡ m) × (w ≡ 0))

bump-Succeeds :
    (bs : List ℕ) → IsBytes bs → Succeeds (span (length bs)) (le_value bs) (le_value (bump bs))
unfolding bump
bump-Succeeds [] h = ground arith
bump-Succeeds (b ∷ bs) (hb, hbs) = ground (arith, bump-Succeeds bs hbs, le_value-lt bs hbs)

bump-IsBytes : (bs : List ℕ) → IsBytes bs → IsBytes (bump bs)
unfolding bump
bump-IsBytes [] h = tt
bump-IsBytes (b ∷ bs) (hb, hbs) = ground (arith, bump-IsBytes bs hbs)

length-bump : (bs : List ℕ) → length (bump bs) ≡ length bs
unfolding bump
length-bump [] = refl
length-bump (b ∷ bs) = ground (arith, length-bump bs)

length-reverse : (bs : List ℕ) → length (reverse bs) ≡ length bs
length-reverse [] = refl
length-reverse (b ∷ bs) =
    rw (reverse-append (b ∷ []) bs)
      (omega (arith, length-append (reverse bs) (b ∷ []), length-reverse bs))

reverse-IsBytes : (bs : List ℕ) → IsBytes bs → IsBytes (reverse bs)
reverse-IsBytes = All-reverse (λ c. c < 256)

pub increment_ip-IsIp : (ip : Ip) → IsIp ip → IsIp (increment_ip ip)
unfolding increment_ip
increment_ip-IsIp ip h = record {
  bytes = reverse-IsBytes _ (bump-IsBytes _ (reverse-IsBytes ip h.bytes));
  sixteen =
      length-reverse (bump (reverse ip))
      ∙ (length-bump (reverse ip) ∙ (length-reverse ip ∙ h.sixteen));
}

pub ip_value-lt : (ip : Ip) → IsIp ip → ip_value ip < address_space
unfolding ip_value
ip_value-lt ip h =
    rw (ap span (length-reverse ip ∙ h.sixteen)) at
      (le_value-lt (reverse ip) (reverse-IsBytes ip h.bytes))

-- incrementIP makes the next address; the last of the 2^128 addresses is followed by the first.
pub increment_ip-Succeeds :
    (ip : Ip) → IsIp ip → Succeeds address_space (ip_value ip) (ip_value (increment_ip ip))
unfolding increment_ip ip_value
increment_ip-Succeeds ip h =
    rw reverse-reverse (rw size at (bump-Succeeds (reverse ip) (reverse-IsBytes ip h.bytes)))
  where
    size : span (length (reverse ip)) ≡ address_space
    size = ap span (length-reverse ip ∙ h.sixteen)

le_value-injective :
    (bs cs : List ℕ)
    → IsBytes bs
    → IsBytes cs
    → length bs ≡ length cs
    → le_value bs ≡ le_value cs
    → bs ≡ cs
le_value-injective [] [] hb hc l e = refl
le_value-injective [] (c ∷ cs) hb hc l e = absurd (omega arith)
le_value-injective (b ∷ bs) [] hb hc l e = absurd (omega arith)
le_value-injective (b ∷ bs) (c ∷ cs) (hb, hbs) (hc, hcs) l e =
    cc (le_value-injective bs cs hbs hcs (omega arith) (omega arith), same)
  where
    same : b ≡ c
    same = omega arith

pub ip_value-injective : (x y : Ip) → IsIp x → IsIp y → ip_value x ≡ ip_value y → x ≡ y
unfolding ip_value
ip_value-injective x y hx hy e =
    sym (reverse-reverse x)
    ∙ (ap reverse (
          le_value-injective (reverse x) (reverse y) (reverse-IsBytes x hx.bytes)
            (reverse-IsBytes y hy.bytes)
            (length-reverse x ∙ (hx.sixteen ∙ sym (length-reverse y ∙ hy.sixteen))) e)
        ∙ reverse-reverse y)
