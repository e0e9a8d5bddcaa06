-- ===== src/Proxmox/FakeServer/Upid.antt =====
-- newUPID and handleNextID of internal/adapter/proxmox/testserver/server.go, with the int32 counters.
use proxmox_k3s.Prelude.{
  ℕ, zero, suc, ◌+◌, ◌-◌, ◌/◌, ◌%◌, ◌^◌, ltb, true, false, [], ◌∷◌, ◌++◌, if◌then◌else◌, length,
}
use proxmox_k3s.Prelude.Int.{ℤ, pos, negsuc}
use proxmox_k3s.Prelude.Text.{Text, codes}
use proxmox_k3s.Proxmox.FakeServer.{Server}

-- The int32 that 32 bits stand for.
unfoldable pub int32 : ℕ → ℤ
int32 bits = if ltb bits (2 ^ 31) then pos bits else negsuc (2 ^ 32 - 1 - bits)

-- `atomic.AddInt32(&x, 1)`
unfoldable pub add_one : ℕ → ℕ
add_one bits = (bits + 1) % 2 ^ 32

unfoldable pub hex_digit : ℕ → ℕ
hex_digit d = if ltb d 10 then 48 + d else 55 + d

unfoldable pub emit_hex : ℕ → ℕ → Text → Text
unfolding hex_digit
emit_hex zero n out = out
emit_hex (suc fuel) n out = elim (ltb n 16) [
  | true ↦ hex_digit n ∷ out
  | false ↦ emit_hex fuel (n / 16) (hex_digit (n % 16) ∷ out)
]

-- The verb %X, whose rounds are as many as a number has digits at most.
unfoldable pub hex : ℕ → Text
unfolding emit_hex
hex n = emit_hex (suc n) n []

unfoldable pub zeros : ℕ → Text → Text
zeros zero s = s
zeros (suc n) s = b'0' ∷ zeros n s

-- The verb %04X: zeros fill four places, one of which a minus sign takes.
unfoldable pub hex4 : ℤ → Text
unfolding hex zeros
hex4 (pos n) = zeros (4 - length (hex n)) (hex n)
hex4 (negsuc n) = b'-' ∷ zeros (3 - length (hex (suc n))) (hex (suc n))

-- `stamp` is the Unix time, in hexadecimal digits, when so many tasks have been started.
unfoldable pub upid : (ℕ → Text) → Text → ℕ → Text → Text
unfolding hex4 int32
upid stamp node seq op =
    codes "UPID:"
    ++ (node
        ++ (codes ":00"
            ++ (hex4 (int32 seq)
                ++ (codes ":00000001:" ++ (stamp seq ++ (b':' ∷ (op ++ codes "::root@pam:")))))))

-- newUPID
unfoldable pub new_upid : (ℕ → Text) → Text → Text → Server → Text × Server
unfolding upid add_one
new_upid stamp node op s =
    let seq = add_one s.upid_seq in
    let name = upid stamp node seq op in (name, record s { upid_seq = seq; tasks = name ∷ s.tasks })

-- handleNextID
unfoldable pub next_id : Server → ℤ × Server
unfolding add_one int32
next_id s = let next = add_one s.next_vmid in (int32 next, record s { next_vmid = next })
