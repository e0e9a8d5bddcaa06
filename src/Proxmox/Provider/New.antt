-- ===== src/Proxmox/Provider/New.antt =====
-- NewProvider of internal/adapter/proxmox/provider.go. The managers of VMs and nodes hold the client
-- and nothing else; the semaphores start as Proxmox/Clones says.
use proxmox_k3s.Prelude.{Bool, ◌++◌}
use proxmox_k3s.Prelude.Text.{Text, codes}
use proxmox_k3s.Prelude.Result.{Result, ok, bind, map_err}
use proxmox_k3s.Domain.Model.{ProxmoxConfig}
use proxmox_k3s.Proxmox.Placement.{Strategy, new_strategy}
use proxmox_k3s.Proxmox.Client.{Client}
use proxmox_k3s.Proxmox.Client.New.{Options, TlsConfig, new_client}

-- What a provider is made of.
pub record Provider : Type 0 where
  pub client : Client
  pub tls : TlsConfig
  pub strategy : Strategy
  pub template_name : Text
  pub storage_name : Text

unfoldable pub options_of : ProxmoxConfig → Options
options_of p = record {
  endpoint = p.endpoint;
  token_id = p.token_id;
  token_secret = p.token_secret;
  insecure_skip_tls = p.insecure_skip_tls;
  ca_file = p.ca_file;
}

-- NewProvider, given the file system and x509.
unfoldable pub new_provider :
    (Text → Result Text Text) → (Text → Bool) → ProxmoxConfig → Result Text Provider
unfolding options_of new_client new_strategy
new_provider read_file has_certificate p =
    bind
      (map_err (λ e. codes "creating Proxmox client: " ++ e)
        (new_client read_file has_certificate (options_of p)))
      (λ made. ok (record {
        client = made.0;
        tls = made.1;
        strategy = new_strategy p.placement_strategy;
        template_name = p.template;
        storage_name = p.storage;
      }))
