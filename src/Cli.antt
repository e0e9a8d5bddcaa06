-- ===== src/Cli.antt =====
-- internal/cli: what the commands create, delete and validate run, in which order. Flags, signals and
-- what is printed are left out. The provider stands for the one that the configuration describes.
pub mod Created
pub mod Sizes
use proxmox_k3s.Prelude.{
  List, [], ◌∷◌, ◌++◌, Option, none, some, Bool, true, false, ◌||◌, if◌then◌else◌,
}
use proxmox_k3s.Prelude.Text.{Text, codes, ◌==◌}
use proxmox_k3s.Prelude.Result.{Result, ok, err, map_err, bind, Exec, lift, wrapping, ◌>>=◌, ◌>>◌}
use proxmox_k3s.Domain.Error.{Error, wrap}
use proxmox_k3s.Domain.Model.{Cluster, ProxmoxConfig}
use proxmox_k3s.Net.{Ipv6}
use proxmox_k3s.Infra.{InfraProvider}
use proxmox_k3s.Config.Schema.{Config}
use proxmox_k3s.Config.Load.{Source, load}
use proxmox_k3s.Config.ToModel.{to_model}
use proxmox_k3s.Config.Validate.{ValidationError, cluster}
use proxmox_k3s.Proxmox.Provider.New.{new_provider}
use proxmox_k3s.Create.Run.{Tools, Stop, run}
use proxmox_k3s.Delete

-- What a command ends with.
pub data Failure : Type 0 where
  loading : Text → Failure
  invalid : List ValidationError → Failure
  converting : Error → Failure
  no_provider : Text → Failure
  stopped : Stop → Failure
  failing : Error → Failure

-- The files and packages behind the commands.
pub record Host : Type 0 where
  pub source : Source
  pub v6 : Ipv6
  -- os.ReadFile for the keys and certificates
  pub read_file : Text → Result Text Text
  pub has_certificate : Text → Bool

module _ (H : Host) where
  -- The error of NewProvider, if it has one.
  unfoldable pub check_provider : ProxmoxConfig → Result Failure Unit
  unfolding new_provider
  check_provider p =
      bind (map_err no_provider (new_provider H.read_file H.has_certificate p)) (λ made. ok tt)

  -- config.Load and validate.Cluster
  unfoldable pub valid_config : Text → Result Failure Config
  unfolding load cluster
  valid_config path =
      bind (map_err loading (load H.source path))
        (λ c. bind (map_err invalid (cluster H.v6 H.read_file c)) (λ u. ok c))

  -- The cluster of the configuration, if its provider can be made.
  unfoldable pub model_of : Config → Result Failure Cluster
  unfolding to_model
  model_of c =
      bind (map_err converting (to_model H.read_file c))
        (λ m. bind (check_provider m.proxmox) (λ u. ok m))

  module _ (I : InfraProvider) where
    open I use {State}

    -- The command create.
    unfoldable pub create_command : {S : Type 0} → Tools S → Text → Exec (State × S) Failure Unit
    unfolding run
    create_command W path = do
      c ← lift (valid_config path)
      m ← lift (model_of c)
      wrapping stopped (run W H.v6 I m)

    -- The command validate, which does not need the provider with --skip-remote.
    unfoldable pub validate_command : Bool → Text → Exec State Failure Unit
    validate_command skip_remote path = do
      c ← lift (valid_config path)
      λ s.
          if skip_remote
          then (ok tt, s)
          else (do
            m ← lift (model_of c)
            wrapping (λ e. failing (wrap (codes "preflight failed") e)) (I.preflight m))
              s

    -- The command delete, with what is typed at the question unless --force is given.
    unfoldable pub delete_command : Bool → Text → Text → Exec State Failure Unit
    unfolding Delete.run
    delete_command force answer path = do
      c ← lift (valid_config path)
      m ← lift (map_err converting (to_model H.read_file c))
      λ s.
          if force || (answer == codes "y" || answer == codes "Y")
          then (do lift (check_provider m.proxmox); wrapping failing (Delete.run I m)) s
          else (ok tt, s)
