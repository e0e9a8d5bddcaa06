-- ===== src/Proxmox/Client.antt =====
-- internal/adapter/proxmox/client/client.go, and the calls that node.go and vm.go send with it.
pub mod Tasks
pub mod Calls
pub mod Answers
pub mod New
use proxmox_k3s.Prelude.{
  ℕ, ◌+◌, List, [], ◌∷◌, ◌++◌, Option, none, some, Bool, true, false, ◌&&◌, ◌||◌, leb, ltb, eqb,
  if◌then◌else◌,
}
use proxmox_k3s.Prelude.Text.{Text, codes}
use proxmox_k3s.Prelude.Decimal.{decimal}
use proxmox_k3s.Prelude.Result.{Result, ok, err, map_err, bind, Exec}
use proxmox_k3s.Proxmox.Http.{Http, Method, get, post, put, delete, method_text, Request, Response}

-- Client, without its transport.
pub record Client : Type 0 where
  pub endpoint : Text
  pub token_id : Text
  pub token_secret : Text

-- addAuth
unfoldable pub authorization : Client → Text
authorization c = codes "PVEAPIToken=" ++ (c.token_id ++ (b'=' ∷ c.token_secret))

-- checkStatus, given the text of the body.
unfoldable pub check_status : ℕ → Text → Result Text Unit
check_status status body =
    if leb 200 status && ltb status 300
    then ok tt
    else if eqb status 401 || eqb status 403
    then err (
        codes "permission denied (HTTP "
        ++ (decimal status ++ codes "): check API token privileges"))
    else if eqb status 404
    then err (codes "not found (HTTP 404): " ++ body)
    else if eqb status 500
    then err (codes "proxmox internal error (HTTP 500): " ++ body)
    else err (codes "unexpected status " ++ (decimal status ++ (codes ": " ++ body)))

module _ (c : Client) (H : Http) where
  open H use {State, Body}

  -- `%s %s: %w` with the method and the path
  abbrev pub send_failed : Method → Text → Text → Text
  send_failed m path e = method_text m ++ (b' ' ∷ (path ++ (codes ": " ++ e)))

  -- What is made of an answer.
  unfoldable pub answered :
      {T : Type 0} → Text → (Body → Result Text T) → Response Body → Result Text T
  unfolding check_status
  answered path decode r = bind (check_status r.status (H.text_of r.body)) (λ u.
      map_err (λ e. codes "decoding response from " ++ (path ++ (codes ": " ++ e))) (decode r.body))

  unfoldable pub request_for : Method → Text → Option Body → Request Body
  unfolding authorization
  request_for m path body = record {
    method = m;
    url = c.endpoint ++ path;
    body = body;
    authorization = authorization c;
  }

  -- The request is sent unless its URL is refused.
  unfoldable pub unless_refused :
      {T : Type 0}
      → Option Text
      → Method
      → Text
      → Option Body
      → (Body → Result Text T)
      → Exec State Text T
  unfolding answered request_for
  unless_refused (some e) m path body decode s = (err e, s)
  unless_refused none m path body decode s =
      let (r, s') = H.send (request_for m path body) s in
      (bind (map_err (send_failed m path) r) (answered path decode), s')

  -- get, post, put and delete, which differ in the method and the body.
  unfoldable pub exchange :
      {T : Type 0} → Method → Text → Option Body → (Body → Result Text T) → Exec State Text T
  unfolding unless_refused
  exchange m path body decode = unless_refused (H.url_error (c.endpoint ++ path)) m path body decode

  unfoldable pub get_json : {T : Type 0} → Text → (Body → Result Text T) → Exec State Text T
  unfolding exchange
  get_json path decode = exchange get path none decode

  unfoldable pub post_json : {T : Type 0} → Text → Body → (Body → Result Text T) → Exec State Text T
  unfolding exchange
  post_json path body decode = exchange post path (some body) decode

  unfoldable pub put_json : {T : Type 0} → Text → Body → (Body → Result Text T) → Exec State Text T
  unfolding exchange
  put_json path body decode = exchange put path (some body) decode

  unfoldable pub delete_json : Text → Exec State Text Text
  unfolding exchange
  delete_json path = exchange delete path none H.as_text
