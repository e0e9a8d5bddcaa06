-- ===== src/Domain/Error.antt =====
-- internal/domain/errors.go and the other errors that the modelled code makes: one constructor for
-- each place that makes one, with the values that its message prints. `wrap` is
-- `fmt.Errorf("<text>: %w", err)`. An error of the HTTP layer is known by its text only.
use proxmox_k3s.Prelude.{List}
use proxmox_k3s.Prelude.Int.{ℤ}
use proxmox_k3s.Prelude.Text.{Text, codes}

pub data Error : Type 0 where
  template_not_found : Text → Error
  template_not_template : Text → Error
  storage_not_found : Text → Error
  storage_no_images : Text → Error
  snippet_storage_not_found : Text → Error
  node_not_found : Text → Error
  vmid_in_use : ℤ → Error
  insufficient_resources : Text → Text → ℤ → ℤ → Error
  permission_denied : Text → Error
  size_below_minimum : Text → Text → Text → ℤ → ℤ → Error
  ip_pool_exhausted : Text → Error
  ip_conflict : Text → Error
  vip_conflict : Text → Error
  odd_master_count : ℤ → Error
  cluster_not_found : Text → Error
  ssh_connect : Text → Error → Error
  k3s_install : Text → Error → Error
  -- catalog.go
  size_unspecified : Error
  unknown_size : Text → Error
  -- ipam
  invalid_range invalid_start_ip invalid_end_ip : Text → Error
  index_out_of_range : ℤ → ℤ → Error
  -- placement and node
  no_nodes_available : Error
  no_such_template : Text → Error
  -- usecase/delete
  failed_to_delete : List Text → Error
  -- the client, and wrapping
  api : Text → Error
  wrap : Text → Error → Error

-- The field `Code` that `newError` is given.
unfoldable pub error_code : Error → Text
error_code (template_not_found _) = codes "TEMPLATE_NOT_FOUND"
error_code (template_not_template _) = codes "NOT_A_TEMPLATE"
error_code (storage_not_found _) = codes "STORAGE_NOT_FOUND"
error_code (storage_no_images _) = codes "STORAGE_NO_IMAGES"
error_code (snippet_storage_not_found _) = codes "SNIPPET_STORAGE_NOT_FOUND"
error_code (node_not_found _) = codes "PVE_NODE_NOT_FOUND"
error_code (vmid_in_use _) = codes "VMID_IN_USE"
error_code (insufficient_resources _ _ _ _) = codes "INSUFFICIENT_RESOURCES"
error_code (permission_denied _) = codes "PERMISSION_DENIED"
error_code (size_below_minimum _ _ _ _ _) = codes "SIZE_BELOW_MINIMUM"
error_code (ip_pool_exhausted _) = codes "IP_POOL_EXHAUSTED"
error_code (ip_conflict _) = codes "IP_CONFLICT"
error_code (vip_conflict _) = codes "VIP_CONFLICT"
error_code (odd_master_count _) = codes "ODD_MASTER_COUNT"
error_code (cluster_not_found _) = codes "CLUSTER_NOT_FOUND"
error_code (ssh_connect _ _) = codes "SSH_CONNECT_FAILED"
error_code (k3s_install _ _) = codes "K3S_INSTALL_FAILED"
error_code _ = codes ""
