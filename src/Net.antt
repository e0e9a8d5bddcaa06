-- ===== src/Net.antt =====
-- What the program uses of Go's package `net`: ParseIP, IP.String, ParseCIDR. An address is its 16
-- bytes, as ParseIP returns it also for IPv4. The IPv6 syntax is a parameter.
pub mod Parsed
use proxmox_k3s.Prelude.{
  ℕ, suc, ◌+◌, ◌-◌, ◌*◌, ◌<◌, ◌≤◌, List, [], ◌∷◌, ◌++◌, Option, none, some, Bool, true, false, ◌≡◌,
  ◌&&◌, ltb, leb, eqb, length, All, if◌then◌else◌,
}
use proxmox_k3s.Prelude.Text.{Text, codes, is_empty}
use proxmox_k3s.Prelude.Text.Split.{split}
use proxmox_k3s.Prelude.Text.Find.{cut}
use proxmox_k3s.Prelude.Decimal.{decimal}

abbrev pub Ip : Type 0
Ip = List ℕ

pub record IsIp (ip : Ip) : Type 0 where
  pub bytes : All (λ b. b < 256) ip
  pub sixteen : length ip ≡ 16

-- The IPv6 syntax. Its parser gives 16 bytes, as the documentation of `net.IP` says.
pub record Ipv6 : Type 0 where
  pub parse : Text → Option Ip
  pub print : Ip → Text
  pub parse-IsIp : (s : Text) {ip : Ip} → parse s ≡ some ip → IsIp ip

-- The ten zero bytes and two 0xff of an IPv4 address in IPv6 form.
abbrev v4_prefix : Ip
v4_prefix = 0 ∷ 0 ∷ 0 ∷ 0 ∷ 0 ∷ 0 ∷ 0 ∷ 0 ∷ 0 ∷ 0 ∷ 255 ∷ 255 ∷ []

is_digit : ℕ → Bool
is_digit c = leb 48 c && leb c 57

-- The value of a decimal field behind `n`, refused above the limit.
field_from : ℕ → ℕ → Text → Option ℕ
unfolding is_digit
field_from limit n [] = some n
field_from limit n (c ∷ s) =
    let n' = n * 10 + (c - 48) in
    let rest = field_from limit n' s in if is_digit c && leb n' limit then rest else none

-- One field of a dotted address: digits, no leading zero, at most 255.
field : Text → Option ℕ
unfolding field_from
field [] = none
field (c ∷ []) = field_from 255 0 (c ∷ [])
field (c ∷ d ∷ s) = if eqb c 48 then none else field_from 255 0 (c ∷ d ∷ s)

abbrev four : Option ℕ → Option ℕ → Option ℕ → Option ℕ → Option Ip
four (some a) (some b) (some c) (some d) = some (v4_prefix ++ a ∷ b ∷ c ∷ d ∷ [])
four _ _ _ _ = none

four_fields : List Text → Option Ip
unfolding field
four_fields (a ∷ b ∷ c ∷ d ∷ []) = four (field a) (field b) (field c) (field d)
four_fields _ = none

parse_ipv4 : Text → Option Ip
unfolding four_fields split
parse_ipv4 s = four_fields (split s b'.')

-- The first dot, colon or percent sign decides the syntax.
pub data Syntax : Type 0 where
  v4 v6 neither : Syntax

syntax : Text → Syntax
syntax [] = neither
syntax (c ∷ s) =
    let rest = syntax s in
    if eqb c b'.' then v4 else if eqb c b':' then v6 else if eqb c b'%' then neither else rest

dotted : ℕ → ℕ → ℕ → ℕ → Text
dotted a b c d = decimal a ++ (b'.' ∷ decimal b ++ (b'.' ∷ decimal c ++ (b'.' ∷ decimal d)))

bits : Syntax → ℕ
bits v4 = 32
bits v6 = 128
bits neither = 0

-- The mask length behind the slash: digits, at most the address's number of bits.
mask_length : Text → Text → Option ℕ
unfolding bits field_from syntax
mask_length addr [] = none
mask_length addr (c ∷ s) = field_from (bits (syntax addr)) 0 (c ∷ s)

if_parsed : Option Ip → Option ℕ → Option ℕ
if_parsed none n = none
if_parsed (some ip) n = n

module _ (v6_syntax : Ipv6) where
  by_syntax : Syntax → Text → Option Ip
  unfolding parse_ipv4
  by_syntax v4 s = parse_ipv4 s
  by_syntax v6 s = v6_syntax.parse s
  by_syntax neither s = none

  -- net.ParseIP
  unfoldable pub parse_ip : Text → Option Ip
  unfolding by_syntax syntax
  parse_ip s = by_syntax (syntax s) s

  -- IP.String on 16 bytes: dotted for an IPv4 address.
  unfoldable pub ip_string : Ip → Text
  unfolding dotted decimal
  ip_string (x0 ∷ x1 ∷ x2 ∷ x3 ∷ x4 ∷ x5 ∷ x6 ∷ x7 ∷ x8 ∷ x9 ∷ x10 ∷ x11 ∷ a ∷ b ∷ c ∷ d ∷ []) =
      if eqb (x0 + x1 + x2 + x3 + x4 + x5 + x6 + x7 + x8 + x9) 0 && eqb x10 255 && eqb x11 255
      then dotted a b c d
      else v6_syntax.print
          (x0 ∷ x1 ∷ x2 ∷ x3 ∷ x4 ∷ x5 ∷ x6 ∷ x7 ∷ x8 ∷ x9 ∷ x10 ∷ x11 ∷ a ∷ b ∷ c ∷ d ∷ [])
  ip_string ip = v6_syntax.print ip

  prefix_of : Option (Text × Text) → Option ℕ
  unfolding if_parsed parse_ip mask_length
  prefix_of none = none
  prefix_of (some (addr, mask)) = if_parsed (parse_ip addr) (mask_length addr mask)

  -- net.ParseCIDR, as far as the mask's number of ones; `none` is its error.
  unfoldable pub parse_cidr : Text → Option ℕ
  unfolding prefix_of cut
  parse_cidr s = prefix_of (cut s b'/')
