-- ===== src/Prelude/Dict.antt =====
-- Go's maps from texts, as association lists. The code never looks at their order.
use proxmox_k3s.Prelude.Tests.{if◌then◌else◌}
use mathlib.Core.Path.{◌≡◌, refl}
use mathlib.Core.List.{List, [], ◌∷◌}
use mathlib.Core.Option.{Option, none, some}
use native.Mathlib.Omega.{arith}
use proxmox_k3s.Prelude.Text.{Text, ◌==◌, eq_iff}

abbrev pub Dict {ℓ} : Type ℓ → Type ℓ
Dict Value = List (Text × Value)

module _ {ℓ} {Value : Type ℓ} where
  -- `m[name]`
  unfoldable pub lookup : Text → Dict Value → Option Value
  lookup name [] = none
  lookup name ((other, found) ∷ rest) = if other == name then some found else lookup name rest

  -- `m[name] = value`: a value that is there already is replaced.
  unfoldable pub insert : Text → Value → Dict Value → Dict Value
  insert name value [] = (name, value) ∷ []
  insert name value ((other, old) ∷ rest) =
      if other == name then (other, value) ∷ rest else (other, old) ∷ insert name value rest

  pub lookup-insert :
      (name asked : Text) (value : Value) (dict : Dict Value)
      → lookup asked (insert name value dict)
        ≡ (if name == asked then some value else lookup asked dict)
  unfolding lookup insert
  lookup-insert name asked value [] = refl
  lookup-insert name asked value ((other, old) ∷ rest) =
      let later = lookup-insert name asked value rest in
      ground (arith, later, eq_iff other asked, eq_iff other name, eq_iff name asked)
