-- ===== src/Proxmox/Client/New.antt =====
-- New of internal/adapter/proxmox/client/client.go. The file with the certificates and what
-- crypto/x509 makes of it are parameters.
use proxmox_k3s.Prelude.{Option, none, some, Bool, if◌then◌else◌, ◌++◌}
use proxmox_k3s.Prelude.Text.{Text, codes, is_empty}
use proxmox_k3s.Prelude.Result.{Result, ok, err, map_err, bind}
use proxmox_k3s.Proxmox.Client.{Client}

pub record Options : Type 0 where
  pub endpoint : Text
  pub token_id : Text
  pub token_secret : Text
  pub insecure_skip_tls : Bool
  pub ca_file : Text

-- What the TLS configuration of the transport is given: the certificates replace those of the host.
pub record TlsConfig : Type 0 where
  pub insecure_skip_verify : Bool
  pub root_cas : Option Text

client_of : Options → Client
client_of o = record { endpoint = o.endpoint; token_id = o.token_id; token_secret = o.token_secret }

module _ (read_file : Text → Result Text Text) (has_certificate : Text → Bool) where
  -- The certificates of the file, if one is given.
  root_cas_of : Options → Result Text (Option Text)
  root_cas_of o =
      if is_empty o.ca_file
      then ok none
      else bind (map_err (λ e. codes "reading CA file: " ++ e) (read_file o.ca_file)) (λ pem.
        if has_certificate pem
        then ok (some pem)
        else err (codes "parsing CA file: no valid certificates found"))

  -- New
  unfoldable pub new_client : Options → Result Text (Client × TlsConfig)
  unfolding root_cas_of client_of
  new_client o = bind (root_cas_of o) (λ cas.
      ok (client_of o, record { insecure_skip_verify = o.insecure_skip_tls; root_cas = cas }))
