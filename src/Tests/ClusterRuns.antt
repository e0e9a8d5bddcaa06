-- ===== src/Tests/ClusterRuns.antt =====
-- Runs of the phases on the hosts, where K3s is up already or not.
use proxmox_k3s.Prelude.{
  ◌≤◌, ◌≢◌, ◌⊎◌, inl, arith, ltb, Option, some, ◌+◌, ℕ, suc, ◌≡◌, ◌↔◌, refl, List, [], ◌∷◌, ◌++◌,
  none, if◌then◌else◌,
}
use proxmox_k3s.Prelude.Int.{◌+ℤ◌}
use proxmox_k3s.Prelude.Decimal.{decimal}
use proxmox_k3s.Prelude.Text.{Text, codes, ◌==◌, has_prefix, member, trim_space}
use proxmox_k3s.Prelude.Text.Split.{onto}
use proxmox_k3s.Prelude.Result.{Exec, err, ok}
use proxmox_k3s.Domain.Model.{Node}
use proxmox_k3s.Net.{parse_ip}
use proxmox_k3s.Ipam.Pool.{total_ips, size, get, ip_config_for_index, parse_pool}
use proxmox_k3s.Ssh.{Executor}
use proxmox_k3s.Ssh.Retry.{Clock, retry}
use proxmox_k3s.Ssh.Retry.Outcome.{Failing, Ends, retry_outcome}
use proxmox_k3s.Ssh.Dial.{connect_failed}
use proxmox_k3s.K3s.Version.{Channel, Releases, resolve, is_exact_version, channel_of}
use proxmox_k3s.K3s.Version.Resolved.{Resolved, resolve_iff}
use proxmox_k3s.K3s.Installer.{Scripts}
use proxmox_k3s.K3s.Kubeconfig.{KubeConfig}
use proxmox_k3s.K3s.Kubeconfig.File.{Files, missing}
use proxmox_k3s.Config.Load.{expand_env}
use proxmox_k3s.Config.Load.Expanded.{IsNameChar, expand_env_reference}
use proxmox_k3s.Create.Names.{node_name}
use proxmox_k3s.Create.Plan.{total_needed}
use proxmox_k3s.Create.Provision.{spec_of}
use proxmox_k3s.Create.Phases.{ready_nodes}
use proxmox_k3s.Create.ControlPlane.{says_active, is_active, bootstrap_control_plane, join_workers}
use proxmox_k3s.Create.ControlPlane.Running.{IsRunning, running_cluster}
use proxmox_k3s.Create.Run.{Tools, run}
use proxmox_k3s.Tests.Fixtures.{only_v4, lab, node, small_provider}

-- Every unit is active; the state is the number of uploads.
abbrev pub all_active : Executor ℕ
all_active = record {
  run = λ host cmd s. ((codes "active\n", none), s);
  run_stream = λ host cmd out s. (none, suc s);
  upload = λ host path content mode s. (none, suc s);
}

-- No unit is active, and the token is one line.
abbrev not_active : Executor ℕ
not_active = record {
  run = λ host cmd s.
      ((if has_prefix cmd (codes "systemctl") then codes "inactive\n" else codes "K10\n", none), s);
  run_stream = λ host cmd out s. (none, suc s);
  upload = λ host path content mode s. (none, suc s);
}

abbrev pub scripts : Scripts
scripts = record {
  masters = record { parse_error = λ t. none; execute = λ t d. ok t };
  workers = record { parse_error = λ t. none; execute = λ t d. ok t };
  master_first = codes "first";
  master_join = codes "join";
  worker_join = codes "worker";
}

abbrev pub releases : Releases ℕ
releases = record {
  Body = List Channel;
  url_error = λ url. none;
  fetch =
      λ url s. (ok (200, record { id = codes "stable"; latest = codes "v1.31.4+k3s1" } ∷ []), s);
  channels = λ body. ok body;
  quote = λ t. t;
}

abbrev pub empty_document : KubeConfig Text
empty_document = record {
  api_version = [];
  kind = [];
  clusters = [];
  contexts = [];
  users = [];
  current_context = [];
}

abbrev pub files : Files ℕ
files = record {
  User = Text;
  home = ok (codes "/root");
  config_in = λ home. home ++ codes "/.kube/config";
  dir = λ path. codes "/root/.kube";
  make_dir = λ path s. (none, s);
  read = λ path s. (missing, s);
  write = λ path content s. (none, suc s);
  parse = λ t. ok empty_document;
  print = λ kc. ok (codes "{}");
  fold = ◌==◌;
}

abbrev pub tools : Tools ℕ
tools = record {
  new_executor = λ path user port s. (ok all_active, s);
  releases = releases;
  scripts = scripts;
  kube_vip = record { parse_error = λ t. none; execute = λ t d. ok (codes "manifest") };
  files = files;
}

active_anywhere :
    (unit : Text) (n : Node) → IsRunning all_active (λ s. s) (λ host cmd s. refl) unit n
unfolding is_active says_active ◌==◌
active_anywhere unit n s = refl

abbrev m1 : Node
m1 = node (codes "lab-master-1")

abbrev m2 : Node
m2 = node (codes "lab-master-2")

running_cluster_example :
    ((bootstrap_control_plane all_active scripts lab m1 (m2 ∷ []) 7).1 ≡ 7)
    × (join_workers all_active scripts lab (codes "K10") (node (codes "lab-w-1") ∷ []) 7 ≡ 7)
running_cluster_example =
    running_cluster all_active (λ s. s) (λ host cmd s. refl) scripts lab m1 (m2 ∷ [])
      (node (codes "lab-w-1") ∷ []) (codes "K10") 7
      (active_anywhere (codes "k3s") m1, (active_anywhere (codes "k3s") m2, tt))
      (active_anywhere (codes "k3s-agent") (node (codes "lab-w-1")), tt)

resolve_iff_example :
    (resolve releases [] 0 ≡ (ok (codes "v1.31.4+k3s1"), 0))
    ↔ Resolved releases [] (codes "v1.31.4+k3s1") 0 0
resolve_iff_example = resolve_iff releases [] (codes "v1.31.4+k3s1") 0 0

-- HOME is set, and nothing else.
abbrev only_home : Text → Text
only_home name = if name == codes "HOME" then codes "/root" else []

capital : (c : ℕ) → b'A' ≤ c → c ≤ b'Z' → IsNameChar c
capital c h k = inl (h, k)

expand_env_reference_example :
    ((only_home (codes "HOME") ≢ [])
      × (expand_env only_home
            (codes "key: " ++ (codes "${" ++ (codes "HOME" ++ (codes "}" ++ codes "/k3s"))))
          ≡ codes "key: " ++ (only_home (codes "HOME") ++ expand_env only_home (codes "/k3s"))))
    ⊎ ((only_home (codes "HOME") ≡ [])
        × (expand_env only_home
              (codes "key: " ++ (codes "${" ++ (codes "HOME" ++ (codes "}" ++ codes "/k3s"))))
            ≡ codes "key: "
              ++ ((codes "${" ++ (codes "HOME" ++ codes "}"))
                  ++ expand_env only_home (codes "/k3s"))))
expand_env_reference_example =
    expand_env_reference only_home (codes "key: ") (codes "HOME") (codes "/k3s")
      (λ e. cc, (λ e. cc, (λ e. cc, (λ e. cc, (λ e. cc, tt)))))
      (
        λ e. cc,
        (
          capital b'H' (omega arith) (omega arith),
          (
            capital b'O' (omega arith) (omega arith),
            (
              capital b'M' (omega arith) (omega arith),
              (capital b'E' (omega arith) (omega arith), tt),
            ),
          ),
        ),
      )

-- The nodes that the provider has and makes, in order.
abbrev all_nodes : List Node
all_nodes =
    node (codes "lab-w-1")
    ∷ node (codes "lab-master-1")
    ∷ node (codes "lab-master-2")
    ∷ node (codes "lab-master-3")
    ∷ node (codes "lab-w-2")
    ∷ []

abbrev vms_before : List Text
vms_before = codes "lab-w-1" ∷ []

abbrev vms_after : List Text
vms_after =
    codes "lab-w-2"
    ∷ codes "lab-master-3"
    ∷ codes "lab-master-2"
    ∷ codes "lab-master-1"
    ∷ codes "lab-w-1"
    ∷ []

finished_lab : run tools only_v4 (small_provider 5) lab (vms_before, 0) ≡ (ok tt, (vms_after, 6))
unfolding run ready_nodes ◌==◌ parse_pool parse_ip trim_space onto total_ips size total_needed ◌+ℤ◌
    ip_config_for_index get member node_name decimal spec_of is_exact_version has_prefix channel_of
    is_active
finished_lab = refl

-- Both masters are installed, with an upload and a script each.
bootstrapped_lab :
    bootstrap_control_plane not_active scripts lab m1 (m2 ∷ []) 0 ≡ (ok (codes "K10"), 4)
unfolding bootstrap_control_plane is_active ◌==◌ has_prefix
bootstrapped_lab = refl

-- A host that answers from the second attempt on, and a context of three pauses.
abbrev ticks : Clock ℕ
ticks = record {
  context_error = λ s. if ltb s 3 then none else some (codes "context deadline exceeded");
  pause = λ seconds s. (none, suc s);
}

abbrev second_time : Exec ℕ Text Text
second_time s = if ltb s 1 then (err (codes "refused"), s) else (ok (codes "connected"), s)

retry_outcome_example :
    (n : ℕ) × (left : ℕ) × (end : Option Text) × (t : ℕ) × (n + left ≡ 5)
    × Failing ticks second_time (connect_failed (codes "h")) none 0 n end t
    × Ends ticks second_time
        (connect_failed (codes "h"))
        left
        end
        t
        (retry ticks second_time (connect_failed (codes "h")) 5 none 0)
retry_outcome_example = retry_outcome ticks second_time (connect_failed (codes "h")) 5 none 0
