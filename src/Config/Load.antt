-- ===== src/Config/Load.antt =====
-- Load and expandEnv of internal/config/loader.go. The environment, the file and the YAML decoder are
-- parameters.
pub mod Expanded
use proxmox_k3s.Prelude.{
  ℕ, zero, suc, ◌+◌, List, [], ◌∷◌, ◌++◌, Option, none, some, Bool, true, false, not, ◌&&◌, ◌||◌,
  leb, eqb, if◌then◌else◌, length,
}
use proxmox_k3s.Prelude.Text.{Text, codes, is_empty}
use proxmox_k3s.Prelude.Result.{Result, ok, err, map_err, bind}
use proxmox_k3s.Config.Schema.{Config}
use proxmox_k3s.Config.Defaults.{apply_defaults}

-- The class [A-Z0-9_]
abbrev pub is_name_char : ℕ → Bool
is_name_char c = (leb b'A' c && leb c b'Z') || ((leb b'0' c && leb c b'9') || eqb c b'_')

-- `([A-Z0-9_]+)\}` at the start of a text, behind the name so far, of which there is one character at
-- least.
name_from : Text → Text → Option Text
name_from name [] = none
name_from name (c ∷ s) = elim (is_name_char c) [
  | true ↦ name_from (name ++ (c ∷ [])) s
  | false ↦ if eqb c b'}' && not (is_empty name) then some name else none
]

-- The name that envPattern finds at the start of a text.
unfoldable pub reference : Text → Option Text
unfolding name_from
reference [] = none
reference (c ∷ []) = none
reference (c ∷ d ∷ s) = if eqb c b'$' && eqb d b'{' then name_from [] s else none

-- The replacement of a match: an empty value leaves it.
unfoldable pub value_or_match : (Text → Text) → Text → Text
value_or_match env name =
    if is_empty (env name) then codes "${" ++ (name ++ codes "}") else env name

-- The text from here on, so many characters of a match first.
unfoldable pub expand_from : (Text → Text) → ℕ → Text → Text
expand_from env skip [] = []
expand_from env (suc skip) (c ∷ s) = expand_from env skip s
expand_from env zero (c ∷ s) = elim (reference (c ∷ s)) [
  | none ↦ c ∷ expand_from env zero s
  | some name ↦ value_or_match env name ++ expand_from env (length name + 2) s
]

-- expandEnv
unfoldable pub expand_env : (Text → Text) → Text → Text
unfolding expand_from
expand_env env s = expand_from env zero s

-- What Load takes from packages os and yaml, and the verb %q.
pub record Source : Type 0 where
  pub env : Text → Text
  pub home : Text
  pub read : Text → Result Text Text
  pub decode : Text → Result Text Config
  pub quote : Text → Text

-- Load
unfoldable pub load : Source → Text → Result Text Config
unfolding expand_env apply_defaults
load S path =
    bind
      (map_err (λ e. codes "reading config " ++ (S.quote path ++ (codes ": " ++ e))) (S.read path))
      (λ data_.
        bind
          (map_err (λ e. codes "parsing config " ++ (S.quote path ++ (codes ": " ++ e)))
            (S.decode (expand_env S.env data_)))
          (λ cfg. ok (apply_defaults S.home cfg)))
