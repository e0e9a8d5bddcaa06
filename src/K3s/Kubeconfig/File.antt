-- ===== src/K3s/Kubeconfig/File.antt =====
-- MergeKubeconfig of internal/adapter/k3s/kubeconfig.go, and the reading and writing round
-- RewriteKubeconfig. Packages os, path/filepath and yaml are parameters.
use proxmox_k3s.Prelude.{Option, none, some, Bool, if◌then◌else◌}
use proxmox_k3s.Prelude.Text.{Text, codes, is_empty}
use proxmox_k3s.Prelude.Result.{Result, ok, err, map_err, bind, Exec}
use proxmox_k3s.Domain.Error.{Error, api, wrap}
use proxmox_k3s.K3s.Kubeconfig.{KubeConfig, rewrite_kubeconfig, merge_configs}

-- os.ReadFile
pub data Content : Type 0 where
  content : Text → Content
  missing : Content
  unreadable : Text → Content

pub record Files (S : Type 0) : Type 1 where
  -- What a user entry holds.
  pub User : Type 0
  -- os.UserHomeDir, filepath.Join(home, ".kube", "config") and filepath.Dir
  pub home : Result Text Text
  pub config_in : Text → Text
  pub dir : Text → Text
  -- os.MkdirAll with mode 0700, os.ReadFile, and os.WriteFile with mode 0600
  pub make_dir : Text → S → Option Text × S
  pub read : Text → S → Content × S
  pub write : Text → Text → S → Option Text × S
  -- yaml.Unmarshal, yaml.Marshal and strings.EqualFold
  pub parse : Text → Result Text (KubeConfig User)
  pub print : KubeConfig User → Result Text Text
  pub fold : Text → Text → Bool

module _ {S : Type 0} (F : Files S) where
  -- RewriteKubeconfig
  unfoldable pub rewrite_text : Text → Text → Text → Result Error Text
  unfolding rewrite_kubeconfig
  rewrite_text raw cluster vip =
      bind (map_err (λ e. wrap (codes "parsing kubeconfig") (api e)) (F.parse raw))
        (λ kc. map_err api (F.print (rewrite_kubeconfig kc cluster vip)))

  written : Option Text → Result Error Unit
  written none = ok tt
  written (some e) = err (api e)

  write_file : Text → Text → Exec S Error Unit
  unfolding written
  write_file path data_ s = let (e, s') = F.write path data_ s in (written e, s')

  -- What is written where the file has a content.
  unfoldable pub merged_text : Text → Text → Result Error Text
  unfolding merge_configs
  merged_text existing new =
      bind (map_err (λ e. wrap (codes "parsing existing kubeconfig") (api e)) (F.parse existing))
        (λ base.
          bind (map_err (λ e. wrap (codes "parsing new kubeconfig") (api e)) (F.parse new))
            (λ extra.
              map_err (λ e. wrap (codes "marshaling merged kubeconfig") (api e))
                (F.print (merge_configs F.fold base extra))))

  write_result : Text → Result Error Text → Exec S Error Unit
  unfolding write_file
  write_result path (ok text) s = write_file path text s
  write_result path (err e) s = (err e, s)

  on_content : Text → Text → Content → Exec S Error Unit
  unfolding write_file write_result merged_text
  on_content path new missing s = write_file path new s
  on_content path new (unreadable e) s =
      (err (wrap (codes "reading existing kubeconfig") (api e)), s)
  on_content path new (content existing) s =
      if is_empty existing
      then write_file path new s
      else write_result path (merged_text existing new) s

  on_dir : Text → Text → Option Text → Exec S Error Unit
  unfolding on_content
  on_dir path new (some e) s = (err (api e), s)
  on_dir path new none s = let (r, s') = F.read path s in on_content path new r s'

  merge_at : Text → Text → Exec S Error Unit
  unfolding on_dir
  merge_at path new s = let (e, s') = F.make_dir (F.dir path) s in on_dir path new e s'

  at_target : Text → Result Text Text → Exec S Error Unit
  unfolding merge_at
  at_target new (ok home) s = merge_at (F.config_in home) new s
  at_target new (err e) s = (err (api e), s)

  -- MergeKubeconfig
  unfoldable pub merge_kubeconfig : Text → Text → Exec S Error Unit
  unfolding at_target merge_at
  merge_kubeconfig new path s =
      if is_empty path then at_target new F.home s else merge_at path new s
