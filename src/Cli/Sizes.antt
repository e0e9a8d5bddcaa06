-- ===== src/Cli/Sizes.antt =====
-- internal/cli/sizes.go: what `sizes` and `version` print.
use proxmox_k3s.Prelude.{
  ℕ, zero, suc, ◌-◌, List, length, Option, none, some, [], ◌∷◌, ◌/◌, ◌++◌, leb, if◌then◌else◌,
}
use proxmox_k3s.Prelude.Int.{ℤ, pos, negsuc}
use proxmox_k3s.Prelude.Text.{Text, codes}
use proxmox_k3s.Prelude.Dict.{Dict, lookup}
use proxmox_k3s.Prelude.Decimal.{decimal, decimal_ℤ}
use proxmox_k3s.Domain.Size.{VmSize, all_sizes}

abbrev notes : Dict Text
notes =
    (codes "cp-small", codes "Control plane, clusters pequenos (< 20 nós)")
    ∷ (codes "cp-medium", codes "Control plane, uso geral (recomendado)")
    ∷ (codes "cp-large", codes "Control plane, clusters grandes")
    ∷ (codes "standard-2", codes "Worker mínimo viável")
    ∷ (codes "standard-4", codes "Worker, uso geral (recomendado)")
    ∷ (codes "standard-8", codes "Worker de alta capacidade")
    ∷ (codes "memory-4", codes "Banco de dados, cache (Redis, Postgres)")
    ∷ (codes "memory-8", codes "Banco de dados, cache intensivo")
    ∷ (codes "cpu-8", codes "Build, CI, processamento batch")
    ∷ []

note_of : Option Text → Text
note_of none = []
note_of (some note) = note

-- formatMem
unfoldable pub format_mem : ℤ → Text
format_mem (pos mb) =
    if leb 1024 mb then decimal (mb / 1024) ++ codes " GB" else decimal mb ++ codes " MB"
format_mem (negsuc n) = decimal_ℤ (negsuc n) ++ codes " MB"

-- sizeNote
unfoldable pub size_note : Text → Text
unfolding note_of
size_note name = note_of (lookup name notes)

-- The width of a verb of fmt counts code points.
spaces : ℕ → Text
spaces zero = []
spaces (suc n) = b' ' ∷ spaces n

-- `%5s`
pad_left : ℕ → Text → Text
unfolding spaces
pad_left w t = spaces (w - length t) ++ t

-- `%-14s`
pad_right : ℕ → Text → Text
unfolding spaces
pad_right w t = t ++ spaces (w - length t)

abbrev gap : Text
gap = codes "  "

abbrev heading : Text
heading =
    pad_right 14 (codes "NOME")
    ++ gap
    ++ pad_left 5 (codes "vCPU")
    ++ gap
    ++ pad_left 8 (codes "MEMÓRIA")
    ++ gap
    ++ pad_left 7 (codes "DISCO")
    ++ gap
    ++ codes "USO TÍPICO\n"
    ++ codes "──────────────────────────────────────────────────────────────────\n"

-- A row of the table.
unfoldable pub size_row : VmSize → Text
unfolding pad_left pad_right format_mem size_note
size_row s =
    pad_right 14 s.name
    ++ gap
    ++ pad_left 5 (decimal_ℤ s.cpu)
    ++ gap
    ++ pad_left 8 (format_mem s.memory_mb)
    ++ gap
    ++ pad_left 5 (decimal_ℤ s.disk_gb)
    ++ codes "GB  "
    ++ size_note s.name
    ++ codes "\n"

rows_of : List VmSize → Text
unfolding size_row
rows_of [] = []
rows_of (s ∷ ss) = size_row s ++ rows_of ss

abbrev footing : Text
footing =
    codes "\nMínimos absolutos (preflight falha se abaixo desses valores):\n"
    ++ codes "  Masters:  2 vCPU  /  4 GB  /  20 GB\n"
    ++ codes "  Workers:  2 vCPU  /  2 GB  /  20 GB\n"
    ++ codes "\nPara ver o consumo total de um cluster, use:\n"
    ++ codes "  proxmox-k3s validate -c cluster.yaml --skip-remote\n"

-- What the command sizes prints.
unfoldable pub sizes_output : Text
unfolding rows_of pad_left pad_right
sizes_output = heading ++ rows_of all_sizes ++ footing

abbrev version : Text
version = codes "v0.0.1-pre-alpha"

-- What the command version prints.
unfoldable pub version_output : Text
version_output = codes "proxmox-k3s " ++ version ++ codes "\n"
