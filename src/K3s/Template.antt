-- ===== src/K3s/Template.antt =====
-- What internal/adapter/k3s/installer.go and internal/adapter/kubernetes/software/kubevip.go use of
-- text/template, and renderTemplate.
use proxmox_k3s.Prelude.{Option, none, some}
use proxmox_k3s.Prelude.Text.{Text}
use proxmox_k3s.Prelude.Result.{Result, err}

-- text/template on data of a type: the error of Parse on a text, and what Execute writes, or its error.
pub record Engine (D : Type 0) : Type 0 where
  pub parse_error : Text → Option Text
  pub execute : Text → D → Result Text Text

unless_malformed : Option Text → Result Text Text → Result Text Text
unless_malformed none rendered = rendered
unless_malformed (some e) rendered = err e

-- renderTemplate
unfoldable pub render_template : {D : Type 0} → Engine D → Text → D → Result Text Text
unfolding unless_malformed
render_template T tmpl value = unless_malformed (T.parse_error tmpl) (T.execute tmpl value)
