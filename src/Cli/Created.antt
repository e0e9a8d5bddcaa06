-- ===== src/Cli/Created.antt =====
-- When the command create of internal/cli/create.go succeeds.
use proxmox_k3s.Prelude.{◌≡◌, List}
use proxmox_k3s.Prelude.Text.{Text}
use proxmox_k3s.Prelude.Result.{Result, ok}
use proxmox_k3s.Domain.Model.{Cluster, Node}
use proxmox_k3s.Infra.{InfraProvider}
use proxmox_k3s.Config.Schema.{Config}
use proxmox_k3s.Config.Load.{load}
use proxmox_k3s.Config.ToModel.{to_model}
use proxmox_k3s.Config.Validate.Accepted.{IsValid}
use proxmox_k3s.Config.Validate.Modelled.{IsReady}
use proxmox_k3s.Create.Phases.{ready_nodes}
use proxmox_k3s.Create.Run.{Tools}
use proxmox_k3s.Create.Run.Finished.{Installed}
use proxmox_k3s.Cli.{Host, check_provider}

module _ (H : Host) where
  -- The configuration has this model, and its provider can be made.
  abbrev pub Modelled : Config → Cluster → Type 0
  Modelled c m = (to_model H.read_file c ≡ ok m) × (check_provider H m.proxmox ≡ ok tt)

  module _ {S : Type 0} (W : Tools S) (I : InfraProvider) where
    open I use {State}

    pub record Created (path : Text) (p p' : State) (s t : S) : Type 0 where
      pub config : Config
      pub model : Cluster
      pub masters : List Node
      pub workers : List Node
      pub loaded : load H.source path ≡ ok config
      pub valid : IsValid H.v6 H.read_file config
      pub modelled : Modelled config model
      pub ready : IsReady H.v6 H.read_file config model
      pub machines : ready_nodes H.v6 I model p ≡ (ok (masters, workers), p')
      pub installed : Installed W model masters workers s t
