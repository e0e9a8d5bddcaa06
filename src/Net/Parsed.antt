-- ===== src/Net/Parsed.antt =====
-- The length of the addresses that ParseIP gives.
use proxmox_k3s.Prelude.{
  ℕ, ◌+◌, ◌-◌, ◌*◌, ◌<◌, ◌≤◌, List, [], ◌∷◌, Option, none, some, ◌≡◌, arith, refl,
}
use proxmox_k3s.Prelude.Text.{Text}
use proxmox_k3s.Prelude.Text.Split.{split}
use proxmox_k3s.Net.{
  Ip, IsIp, Ipv6, field_from, field, four, four_fields, parse_ipv4, Syntax, v4, v6, neither, syntax,
  by_syntax, parse_ip,
}

field_from-le :
    (limit n : ℕ) (s : Text) (v : ℕ) → n ≤ limit → field_from limit n s ≡ some v → v ≤ limit
unfolding field_from
field_from-le limit n [] v h e = ground arith
field_from-le limit n (c ∷ s) v h e = ground (arith, field_from-le limit (n * 10 + (c - 48)) s v)

field-lt : (s : Text) (v : ℕ) → field s ≡ some v → v < 256
unfolding field
field-lt [] v e = cc
field-lt (c ∷ []) v e = omega (arith, field_from-le 255 0 (c ∷ []) v (omega arith) e)
field-lt (c ∷ d ∷ s) v e = ground (arith, field_from-le 255 0 (c ∷ d ∷ s) v)

four-IsIp :
    (a b c d : Option ℕ) (ip : Ip)
    → ((v : ℕ) → a ≡ some v → v < 256)
    → ((v : ℕ) → b ≡ some v → v < 256)
    → ((v : ℕ) → c ≡ some v → v < 256)
    → ((v : ℕ) → d ≡ some v → v < 256)
    → four a b c d ≡ some ip
    → IsIp ip
four-IsIp (some a) (some b) (some c) (some d) ip ha hb hc hd e =
    ground (arith, ha a refl, hb b refl, hc c refl, hd d refl)
four-IsIp none b c d ip ha hb hc hd e = cc
four-IsIp (some a) none c d ip ha hb hc hd e = cc
four-IsIp (some a) (some b) none d ip ha hb hc hd e = cc
four-IsIp (some a) (some b) (some c) none ip ha hb hc hd e = cc

four_fields-IsIp : (fs : List Text) (ip : Ip) → four_fields fs ≡ some ip → IsIp ip
unfolding four_fields
four_fields-IsIp (a ∷ b ∷ c ∷ d ∷ []) ip e =
    four-IsIp (field a) (field b) (field c) (field d) ip (field-lt a) (field-lt b) (field-lt c)
      (field-lt d) e
four_fields-IsIp _ ip e = cc

module _ (v6_syntax : Ipv6) where
  by_syntax-IsIp : (k : Syntax) (s : Text) (ip : Ip) → by_syntax v6_syntax k s ≡ some ip → IsIp ip
  unfolding by_syntax parse_ipv4
  by_syntax-IsIp v4 s ip e = four_fields-IsIp (split s b'.') ip e
  by_syntax-IsIp v6 s ip e = v6_syntax.parse-IsIp s e
  by_syntax-IsIp neither s ip e = cc

  pub parse_ip-IsIp : (s : Text) (ip : Ip) → parse_ip v6_syntax s ≡ some ip → IsIp ip
  unfolding parse_ip
  parse_ip-IsIp s ip e = by_syntax-IsIp (syntax s) s ip e
