-- ===== src/K3s/Version/Resolved.antt =====
-- When Resolver.Resolve of internal/adapter/k3s/version.go returns a version.
use proxmox_k3s.Prelude.{
  ℕ, ◌≡◌, ◌≢◌, ◌↔◌, ◌⊎◌, inl, inr, refl, sym, ap, ◌∙◌, arith, List, [], ◌∷◌, ◌++◌, All, Option,
  none, some, Bool, true, false, Bool-cases, eqb, eqb_iff, if◌then◌else◌,
}
use proxmox_k3s.Prelude.Text.{Text, codes, ◌==◌, eq_iff, has_prefix_iff}
use proxmox_k3s.Prelude.Text.Find.{contains_iff}
use proxmox_k3s.Prelude.Decimal.{decimal}
use proxmox_k3s.Prelude.Result.{Result, ok, err, ok-injective}
use proxmox_k3s.K3s.Version.{
  Channel, Releases, is_exact_version, channel_of, channel_url, latest_of, found, in_channels,
  of_answer, asked, resolve, resolving,
}

-- The first entry of the channel has the version.
pub record First (channel : Text) (chs : List Channel) (version : Text) : Type 0 where
  pub before : List Channel
  pub entry : Channel
  pub after : List Channel
  pub whole : chs ≡ before ++ entry ∷ after
  pub others : All (λ (ch : Channel). ch.id ≢ channel) before
  pub own : entry.id ≡ channel
  pub latest : entry.latest ≡ version

-- An exact version: it begins with v and has +k3s somewhere.
abbrev pub IsExact : Text → Type 0
IsExact v = ((t : Text) × (v ≡ b'v' ∷ t)) × ((a : Text) × (b : Text) × (v ≡ a ++ codes "+k3s" ++ b))

-- What is asked for: the stable channel where nothing is given.
abbrev pub IsChannel : Text → Text → Type 0
IsChannel v channel = ((v ≡ []) × (channel ≡ codes "stable")) ⊎ ((v ≢ []) × (channel ≡ v))

abbrev pub asked_at : Text → Text
asked_at channel = codes "https://update.k3s.io/v1-release/channels/" ++ channel

asked_at-channel_url : (channel : Text) → channel_url channel ≡ asked_at channel
unfolding channel_url
asked_at-channel_url channel = refl

is_exact_version_iff : (v : Text) → (is_exact_version v ≡ true) ↔ IsExact v
unfolding is_exact_version
is_exact_version_iff v = ground (arith, has_prefix_iff v (codes "v"), contains_iff v (codes "+k3s"))

inexact : (v : Text) → is_exact_version v ≡ false → ¬ IsExact v
inexact v e h = cc (e, (is_exact_version_iff v).1 h)

not_exact : (v : Text) → ¬ IsExact v → is_exact_version v ≡ false
not_exact v h = elim (Bool-cases (is_exact_version v)) [
  | inl e ↦ absurd (h ((is_exact_version_iff v).0 e))
  | inr e ↦ e
]

channel_of-IsChannel : (v : Text) → IsChannel v (channel_of v)
unfolding channel_of
channel_of-IsChannel [] = inl (refl, refl)
channel_of-IsChannel (c ∷ v) = inr (cc, refl)

IsChannel-channel_of : (v channel : Text) → IsChannel v channel → channel_of v ≡ channel
unfolding channel_of
IsChannel-channel_of v channel (inl (e, h)) = rw (e, h) refl
IsChannel-channel_of [] channel (inr (e, h)) = absurd (e refl)
IsChannel-channel_of (c ∷ v) channel (inr (e, h)) = sym h

latest_of-First :
    (channel : Text) (chs : List Channel) (version : Text)
    → latest_of channel chs ≡ some version
    → First channel chs version
unfolding latest_of
latest_of-First channel [] version e = cc
latest_of-First channel (ch ∷ chs) version e = elim (Bool-cases (ch.id == channel)) [
  | inl h ↦ record {
    before = [];
    entry = ch;
    after = chs;
    whole = refl;
    others = tt;
    own = (eq_iff ch.id channel).0 h;
    latest = ground (arith, e, h);
  }
  | inr h ↦
      let rest = latest_of-First channel chs version (ground (arith, e, h)) in
      record {
        before = ch ∷ rest.before;
        entry = rest.entry;
        after = rest.after;
        whole = ap (λ l. ch ∷ l) rest.whole;
        others = (λ q. cc (h, (eq_iff ch.id channel).1 q), rest.others);
        own = rest.own;
        latest = rest.latest;
      }
]

First_found :
    (channel : Text) (before : List Channel) (entry : Channel) (after : List Channel)
    → All (λ (ch : Channel). ch.id ≢ channel) before
    → entry.id ≡ channel
    → latest_of channel (before ++ entry ∷ after) ≡ some entry.latest
unfolding latest_of
First_found channel [] entry after h own = rw ((eq_iff entry.id channel).1 own) refl
First_found channel (ch ∷ before) entry after (apart, h) own =
    elim (Bool-cases (ch.id == channel)) [
      | inl e ↦ absurd (apart ((eq_iff ch.id channel).0 e))
      | inr e ↦ rw e (First_found channel before entry after h own)
    ]

module _ {S : Type 0} (R : Releases S) where
  -- The service is asked for the channel and knows it.
  pub record Known (channel version : Text) (s t : S) : Type 0 where
    pub body : R.Body
    pub channels : List Channel
    pub accepted : R.url_error (asked_at channel) ≡ none
    pub answered : R.fetch (asked_at channel) s ≡ (ok (200, body), t)
    pub decoded : R.channels body ≡ ok channels
    pub first : First channel channels version

  -- The version is exact already, and nothing is asked; or the service knows the channel.
  pub data Resolved (v version : Text) (s t : S) : Type 0 where
    exact : IsExact v → version ≡ v → t ≡ s → Resolved v version s t
    known :
        {channel : Text}
        → ¬ IsExact v
        → IsChannel v channel
        → Known channel version s t
        → Resolved v version s t

  found-eq-ok :
      (channel version : Text) (o : Option Text) → found R channel o ≡ ok version → o ≡ some version
  unfolding found
  found-eq-ok channel version none e = cc
  found-eq-ok channel version (some w) e = cc

  in_channels-eq-ok :
      (channel version : Text) (r : Result Text (List Channel))
      → in_channels R channel r ≡ ok version
      → (chs : List Channel) × (r ≡ ok chs) × First channel chs version
  unfolding in_channels
  in_channels-eq-ok channel version (ok chs) e = (
    chs,
    refl,
    latest_of-First channel chs version (found-eq-ok channel version (latest_of channel chs) e),
  )
  in_channels-eq-ok channel version (err why) e = cc

  status-Known :
      (channel version : Text) (s t u : S) (status : ℕ) (body : R.Body) (good : Bool)
      → R.url_error (channel_url channel) ≡ none
      → R.fetch (channel_url channel) s ≡ (ok (status, body), u)
      → eqb status 200 ≡ good
      → ◌≡◌ {A = Result Text Text × S}
          (
            if good
                then in_channels R channel (R.channels body)
                else err (resolving R channel (codes "HTTP " ++ decimal status)),
            u,
          )
          (ok version, t)
      → Known channel version s t
  status-Known channel version s t u status body true h f two e =
      let (chs, decoded, first) =
        in_channels-eq-ok channel version (R.channels body) (ap (λ r. r.0) e) in
      record {
        body = body;
        channels = chs;
        accepted = ap R.url_error (sym (asked_at-channel_url channel)) ∙ h;
        answered =
            ap (λ url. R.fetch url s) (sym (asked_at-channel_url channel))
            ∙ f
            ∙ (ap (λ n. (ok (n, body), u)) ((eqb_iff status 200).0 two)
                ∙ ap (λ (r : Result Text Text × S). (ok (200, body), r.1)) e);
        decoded = decoded;
        first = first;
      }
  status-Known channel version s t u status body false h f two e = cc

  answer-Known :
      (channel version : Text) (s t : S) (r : Result Text (ℕ × R.Body)) (u : S)
      → R.url_error (channel_url channel) ≡ none
      → R.fetch (channel_url channel) s ≡ (r, u)
      → ◌≡◌ {A = Result Text Text × S} (of_answer R channel r, u) (ok version, t)
      → Known channel version s t
  unfolding of_answer
  answer-Known channel version s t (err why) u h f e = cc
  answer-Known channel version s t (ok (status, body)) u h f e =
      status-Known channel version s t u status body (eqb status 200) h f refl e

  asked-Known :
      (channel version : Text) (s t : S) (refused : Option Text)
      → R.url_error (channel_url channel) ≡ refused
      → asked R channel refused s ≡ (ok version, t)
      → Known channel version s t
  unfolding asked
  asked-Known channel version s t none h e =
      answer-Known channel version s t (R.fetch (channel_url channel) s).0
        (R.fetch (channel_url channel) s).1 h refl e
  asked-Known channel version s t (some why) h e = cc

  Known-asked :
      (channel version : Text) (s t : S)
      → Known channel version s t
      → asked R channel (R.url_error (channel_url channel)) s ≡ (ok version, t)
  unfolding asked of_answer in_channels found
  Known-asked channel version s t k =
      rw
        (
          asked_at-channel_url channel,
          k.accepted,
          k.answered,
          k.decoded,
          k.first.whole,
          First_found channel k.first.before k.first.entry k.first.after k.first.others k.first.own,
          k.first.latest,
        )
        refl

  resolve-Resolved :
      (v version : Text) (s t : S) (exactly : Bool)
      → is_exact_version v ≡ exactly
      → ◌≡◌ {A = Result Text Text × S}
          (if exactly
            then (ok v, s)
            else asked R (channel_of v) (R.url_error (channel_url (channel_of v))) s)
          (ok version, t)
      → Resolved v version s t
  resolve-Resolved v version s t true h e =
      exact ((is_exact_version_iff v).0 h) (sym (ok-injective v version s t e))
        (sym (ap (λ (r : Result Text Text × S). r.1) e))
  resolve-Resolved v version s t false h e =
      known (inexact v h) (channel_of-IsChannel v) (asked-Known (channel_of v) version s t _ refl e)

  -- Resolve returns a version exactly when the text is an exact version (it begins with v and has +k3s
  -- in it), which it then returns without asking, or the service, asked for the channel (`stable` for the empty text), answers with status
  -- 200 and a list whose first entry for the channel has that version.
  pub resolve_iff :
      (v version : Text) (s t : S) → (resolve R v s ≡ (ok version, t)) ↔ Resolved v version s t
  unfolding resolve
  resolve_iff v version s t = (resolve-Resolved v version s t (is_exact_version v) refl, back)
    where
      back : Resolved v version s t → resolve R v s ≡ (ok version, t)
      back (exact h same kept) = rw ((is_exact_version_iff v).1 h, same, kept) refl
      back (known {channel = channel} h asks k) =
          rw (not_exact v h, IsChannel-channel_of v channel asks)
            (Known-asked channel version s t k)
