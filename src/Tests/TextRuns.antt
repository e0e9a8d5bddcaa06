-- ===== src/Tests/TextRuns.antt =====
-- The texts that the program makes, at concrete inputs.
use proxmox_k3s.Prelude.{◌≡◌, refl}
use proxmox_k3s.Prelude.Text.{codes, ◌==◌}
use proxmox_k3s.Prelude.Dict.{lookup}
use proxmox_k3s.Prelude.Text.Split.{split, onto}
use proxmox_k3s.Prelude.Text.Find.{starts}
use proxmox_k3s.Prelude.Decimal.{decimal, decimal_ℤ}
use proxmox_k3s.Proxmox.FakeServer.Handlers.{vm_ip}
use proxmox_k3s.Proxmox.FakeServer.Upid.{upid}
use proxmox_k3s.Ssh.Dial.{scp_input}
use proxmox_k3s.Config.Load.{expand_env, reference, value_or_match}
use proxmox_k3s.K3s.Installer.Output.{write_prefixed}
use proxmox_k3s.Prelude.Int.{pos}
use proxmox_k3s.Cli.Sizes.{size_row, format_mem, size_note}
use proxmox_k3s.Addons.MetalLb.{replace_all}

ip_of_first_master : vm_ip (codes "lab-master-1") ≡ codes "192.168.20.99"
unfolding vm_ip decimal split onto
ip_of_first_master = refl

upid_of_task :
    upid (λ n. codes "67") (codes "pve1") 300 (codes "qmclone")
    ≡ codes "UPID:pve1:00012C:00000001:67:qmclone::root@pam:"
unfolding upid
upid_of_task = refl

scp_of_manifest : scp_input 420 (codes "hi") (codes "a.yaml") ≡ codes "C0644 2 a.yaml\nhi\0"
unfolding scp_input decimal
scp_of_manifest = refl

expanded : expand_env (λ n. codes "v") (codes "a$${A_1}b${x}${B}") ≡ codes "a$vb${x}v"
unfolding expand_env reference value_or_match
expanded = refl

prefixed : write_prefixed (codes "h") (codes "a\n\nb") ≡ codes "[h] a\n[h] b\n"
unfolding write_prefixed split onto
prefixed = refl

replaced : replace_all (codes "a{}{b{}") (codes "{}") (codes "xy") ≡ codes "axy{bxy"
unfolding replace_all starts
replaced = refl

row_of_standard_2 :
    size_row
      (record { name = codes "standard-2"; cpu = pos 2; memory_mb = pos 4096; disk_gb = pos 60 })
    ≡ codes "standard-2          2      4 GB     60GB  Worker mínimo viável\n"
unfolding size_row format_mem size_note decimal_ℤ lookup ◌==◌
row_of_standard_2 = refl
