-- ===== src/K3s/Version.antt =====
-- internal/adapter/k3s/version.go: the version that a channel stands for. The HTTP call and the
-- decoding of its answer are parameters.
pub mod Resolved
use proxmox_k3s.Prelude.{
  ℕ, List, [], ◌∷◌, ◌++◌, Option, none, some, Bool, ◌&&◌, not, eqb, if◌then◌else◌,
}
use proxmox_k3s.Prelude.Text.{Text, codes, ◌==◌, is_empty, has_prefix}
use proxmox_k3s.Prelude.Text.Find.{contains}
use proxmox_k3s.Prelude.Decimal.{decimal}
use proxmox_k3s.Prelude.Result.{Result, ok, err, map_err, Exec, ◌>>=◌, wrapping, lift}

pub record Channel : Type 0 where
  pub id : Text
  pub latest : Text

-- The client of the resolver: the request, and json.Decoder on the field `data` of the answer. `quote`
-- is the verb %q.
pub record Releases (S : Type 0) : Type 1 where
  pub Body : Type 0
  pub url_error : Text → Option Text
  pub fetch : Text → Exec S Text (ℕ × Body)
  pub channels : Body → Result Text (List Channel)
  pub quote : Text → Text

-- isExactVersion
unfoldable pub is_exact_version : Text → Bool
is_exact_version v = has_prefix v (codes "v") && contains v (codes "+k3s")

unfoldable pub channel_of : Text → Text
channel_of v = if is_empty v then codes "stable" else v

unfoldable pub channel_url : Text → Text
channel_url channel = codes "https://update.k3s.io/v1-release/channels/" ++ channel

-- The loop over the channels.
unfoldable pub latest_of : Text → List Channel → Option Text
latest_of channel [] = none
latest_of channel (ch ∷ chs) =
    let rest = latest_of channel chs in if ch.id == channel then some ch.latest else rest

module _ {S : Type 0} (R : Releases S) where
  open R use {Body}

  abbrev pub resolving : Text → Text → Text
  resolving channel e = codes "resolving K3s channel " ++ (R.quote channel ++ (codes ": " ++ e))

  unfoldable pub found : Text → Option Text → Result Text Text
  found channel (some v) = ok v
  found channel none =
      err (codes "channel " ++ (R.quote channel ++ codes " not found in K3s release channels"))

  unfoldable pub in_channels : Text → Result Text (List Channel) → Result Text Text
  unfolding found latest_of
  in_channels channel (ok chs) = found channel (latest_of channel chs)
  in_channels channel (err e) = err (codes "parsing K3s channel response: " ++ e)

  unfoldable pub of_answer : Text → Result Text (ℕ × Body) → Result Text Text
  unfolding in_channels
  of_answer channel (err e) = err (resolving channel e)
  of_answer channel (ok (status, body)) =
      if eqb status 200
      then in_channels channel (R.channels body)
      else err (resolving channel (codes "HTTP " ++ decimal status))

  unfoldable pub asked : Text → Option Text → Exec S Text Text
  unfolding of_answer channel_url
  asked channel (some e) s = (err e, s)
  asked channel none s = let (r, s') = R.fetch (channel_url channel) s in (of_answer channel r, s')

  -- Resolver.Resolve
  unfoldable pub resolve : Text → Exec S Text Text
  unfolding asked
  resolve v s =
      if is_exact_version v
      then (ok v, s)
      else asked (channel_of v) (R.url_error (channel_url (channel_of v))) s
