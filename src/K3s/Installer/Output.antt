-- ===== src/K3s/Installer/Output.antt =====
-- prefixWriter of internal/adapter/k3s/installer.go: the output of a script, line by line.
use proxmox_k3s.Prelude.{
  ◌≡◌, ◌≢◌, All, All-append, refl, ap, ◌∙◌, sym, arith, List, [], ◌∷◌, ◌++◌, append_assoc, not,
  if◌then◌else◌, keep, map,
}
use proxmox_k3s.Prelude.Text.{Text, codes, is_empty}
use proxmox_k3s.Prelude.Text.Split.{split, Lacks, split_part, split-Lacks}

-- The loop over the lines.
with_prefix : Text → List Text → Text
with_prefix prefix [] = []
with_prefix prefix (line ∷ lines) =
    let rest = with_prefix prefix lines in
    if is_empty line then rest else prefix ++ (line ++ b'\n' ∷ rest)

abbrev pub prefix_of : Text → Text
prefix_of host = codes "[" ++ (host ++ codes "] ")

-- What Write passes on of a chunk, for the writer of a host.
unfoldable pub write_prefixed : Text → Text → Text
unfolding with_prefix
write_prefixed host chunk = with_prefix (prefix_of host) (split chunk b'\n')

with_prefix-split :
    (prefix : Text) (lines : List Text)
    → Lacks b'\n' prefix
    → All (Lacks b'\n') lines
    → split (with_prefix prefix lines) b'\n'
      ≡ map (λ line. prefix ++ line) (keep (λ line. not (is_empty line)) lines) ++ [] ∷ []
unfolding with_prefix split keep
with_prefix-split prefix [] h hs = refl
with_prefix-split prefix ([] ∷ lines) h (hl, hs) = with_prefix-split prefix lines h hs
with_prefix-split prefix ((c ∷ s) ∷ lines) h (hl, hs) =
    ap (λ t. split t b'\n') (sym (append_assoc prefix (c ∷ s) (b'\n' ∷ with_prefix prefix lines)))
    ∙ (split_part (prefix ++ (c ∷ s)) (with_prefix prefix lines) b'\n'
          (All-append (λ x. x ≢ b'\n') prefix (c ∷ s) h hl)
        ∙ ap (λ r. (prefix ++ (c ∷ s)) ∷ r) (with_prefix-split prefix lines h hs))

-- What the writer of a host passes on of a chunk is its lines that are not empty, in order, each
-- behind the host in brackets and with an end of line, if the name of the host has none.
pub write_prefixed-lines :
    (host chunk : Text)
    → Lacks b'\n' host
    → split (write_prefixed host chunk) b'\n'
      ≡ map
          (λ line. prefix_of host ++ line)
          (keep (λ line. not (is_empty line)) (split chunk b'\n'))
        ++ [] ∷ []
unfolding write_prefixed
write_prefixed-lines host chunk h =
    with_prefix-split (prefix_of host) (split chunk b'\n')
      (
        λ e. omega arith,
        All-append (λ x. x ≢ b'\n') host (codes "] ") h (λ e. omega arith, (λ e. omega arith, tt)),
      )
      (split-Lacks chunk b'\n')
