-- ===== src/Proxmox/Client/Answers.antt =====
-- When a call of internal/adapter/proxmox/client/client.go returns a value.
use proxmox_k3s.Prelude.{ℕ, ◌<◌, ◌≤◌, Option, none, some, ◌≡◌, ◌↔◌, refl, sym, ap, ◌∙◌, arith, ◌++◌}
use proxmox_k3s.Prelude.Text.{Text, codes}
use proxmox_k3s.Prelude.Result.{Result, ok, err, map_err, bind, bind-eq-ok, map_err-eq-ok}
use proxmox_k3s.Proxmox.Http.{Http, Method, Request, Response}
use proxmox_k3s.Proxmox.Client.{
  Client, authorization, check_status, answered, request_for, unless_refused, exchange, send_failed,
}

-- The status is one of success.
abbrev pub IsSuccess : ℕ → Type 0
IsSuccess status = (200 ≤ status) × (status < 300)

check_status_iff :
    (status : ℕ) (body : Text) → (check_status status body ≡ ok tt) ↔ IsSuccess status
unfolding check_status
check_status_iff status body = ground arith

module _ (c : Client) (H : Http) where
  -- The request that carries the token.
  abbrev pub authorized : Method → Text → Option H.Body → Request H.Body
  authorized m path body = record {
    method = m;
    url = c.endpoint ++ path;
    body = body;
    authorization = codes "PVEAPIToken=" ++ (c.token_id ++ (codes "=" ++ c.token_secret));
  }

  request_for-authorized :
      (m : Method) (path : Text) (body : Option H.Body)
      → request_for c H m path body ≡ authorized m path body
  unfolding request_for authorization
  request_for-authorized m path body = refl

module _ (c : Client) (H : Http) {T : Type 0} where
  open H use {State, Body}

  -- The request is sent, and answered with a status of success and a body that decodes.
  pub record Answers (m : Method) (path : Text) (body : Option Body) (decode : Body → Result Text T)
      (s t : State) (x : T) : Type 0 where
    pub accepted : H.url_error (c.endpoint ++ path) ≡ none
    pub response : Response Body
    pub arrives : H.send (authorized c H m path body) s ≡ (ok response, t)
    pub success : IsSuccess response.status
    pub decoded : decode response.body ≡ ok x

  module _ (m : Method) (path : Text) (body : Option Body) (decode : Body → Result Text T) where
    answered-eq-ok :
        (r : Response Body) (x : T)
        → answered c H path decode r ≡ ok x
        → IsSuccess r.status × (decode r.body ≡ ok x)
    unfolding answered
    answered-eq-ok r x e =
        let (u, checked, rest) =
          bind-eq-ok (check_status r.status (H.text_of r.body))
            (λ u.
              map_err (λ e. codes "decoding response from " ++ (path ++ (codes ": " ++ e)))
                (decode r.body))
            e in
        (
          (check_status_iff r.status (H.text_of r.body)).0 checked,
          map_err-eq-ok _ (decode r.body) x rest,
        )

    answered_ok :
        (r : Response Body) (x : T)
        → IsSuccess r.status
        → decode r.body ≡ ok x
        → answered c H path decode r ≡ ok x
    unfolding answered
    answered_ok r x h e = rw ((check_status_iff r.status (H.text_of r.body)).1 h, e) refl

    after_send :
        (s t u : State) (x : T) (r : Result Text (Response Body))
        → H.url_error (c.endpoint ++ path) ≡ none
        → H.send (request_for c H m path body) s ≡ (r, u)
        → ◌≡◌ {A = Result Text T × State}
            (bind (map_err (send_failed c H m path) r) (answered c H path decode), u)
            (ok x, t)
        → Answers m path body decode s t x
    after_send s t u x (ok r) h sent e =
        let (good, out) = answered-eq-ok r x cc in
        record {
          accepted = h;
          response = r;
          arrives = ap (λ q. H.send q s) (sym (request_for-authorized c H m path body)) ∙ cc;
          success = good;
          decoded = out;
        }
    after_send s t u x (err why) h sent e = cc

    unless_refused-eq-ok :
        (s t : State) (x : T) (refused : Option Text)
        → H.url_error (c.endpoint ++ path) ≡ refused
        → unless_refused c H refused m path body decode s ≡ (ok x, t)
        → Answers m path body decode s t x
    unfolding unless_refused
    unless_refused-eq-ok s t x none h e =
        after_send s t (H.send (request_for c H m path body) s).1 x
          (H.send (request_for c H m path body) s).0 h refl e
    unless_refused-eq-ok s t x (some why) h e = cc

    -- A call of the client returns a value exactly when its URL is
    -- accepted, the request, whose header has the identifier of the token and its secret, is answered,
    -- the status is in [200, 300), and the body decodes to that value; the state is then the one that
    -- the answer has left.
    pub exchange_iff :
        (s t : State) (x : T)
        → (exchange c H m path body decode s ≡ (ok x, t)) ↔ Answers m path body decode s t x
    unfolding exchange unless_refused
    exchange_iff s t x = (
      λ e. unless_refused-eq-ok s t x (H.url_error (c.endpoint ++ path)) refl e,
      λ a.
          rw
            (
              a.accepted,
              request_for-authorized c H m path body,
              a.arrives,
              answered_ok a.response x a.success a.decoded,
            )
            refl,
    )
