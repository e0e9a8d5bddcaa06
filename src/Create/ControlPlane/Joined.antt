-- ===== src/Create/ControlPlane/Joined.antt =====
-- When bootstrapControlPlane of internal/usecase/create/create.go succeeds.
use proxmox_k3s.Prelude.{
  ◌≡◌, ◌⊎◌, ◌↔◌, inl, inr, refl, ap, ◌∙◌, subst, List, [], ◌∷◌, ◌++◌, Bool, true, false,
  if◌then◌else◌, length,
}
use proxmox_k3s.Prelude.Text.{Text, codes}
use proxmox_k3s.Prelude.Result.{
  Result, ok, Exec, continue-eq-ok, wrapping, wrapping-eq-ok, continue_ok, wrapping_ok,
  ok-injective, unwrapped,
}
use proxmox_k3s.Domain.Error.{Error, wrap}
use proxmox_k3s.Domain.Model.{Cluster, Node}
use proxmox_k3s.Ssh.{Executor}
use proxmox_k3s.K3s.Installer.{
  Scripts, install_first_master, install_master, fetch_token, wait_nodes_ready,
}
use proxmox_k3s.Create.ControlPlane.{
  is_active, unless_active, join_masters, bootstrap_control_plane,
}

module _ {S : Type 0} (E : Executor S) where
  -- The unit runs already, or it does not and the installation succeeds.
  abbrev pub Up : Text → Node → Exec S Error Unit → S → S → Type 0
  Up unit n install s t =
      (is_active E unit n s ≡ (true, t))
      ⊎ ((u : S) × (is_active E unit n s ≡ (false, u)) × (install u ≡ (ok tt, t)))

  unless_active_cases :
      (unit : Text) (n : Node) (install : Exec S Error Unit) (s t u : S) (active : Bool)
      → is_active E unit n s ≡ (active, u)
      → ◌≡◌ {A = Result Error Unit × S} (if active then (ok tt, u) else install u) (ok tt, t)
      → Up unit n install s t
  unless_active_cases unit n install s t u true asked e = inl cc
  unless_active_cases unit n install s t u false asked e = inr (u, asked, e)

  pub unless_active_iff :
      (unit : Text) (n : Node) (install : Exec S Error Unit) (s t : S)
      → (unless_active E unit n install s ≡ (ok tt, t)) ↔ Up unit n install s t
  unfolding unless_active
  unless_active_iff unit n install s t = (there, back)
    where
      there : unless_active E unit n install s ≡ (ok tt, t) → Up unit n install s t
      there e =
          unless_active_cases unit n install s t (is_active E unit n s).1 (is_active E unit n s).0
            refl e

      back : Up unit n install s t → unless_active E unit n install s ≡ (ok tt, t)
      back (inl asked) = rw asked refl
      back (inr (u, asked, installed)) = rw asked installed

  module _ (T : Scripts) (c : Cluster) where
    -- Every master in turn runs K3s or joins with the token.
    pub data Joined (token : Text) : List Node → S → S → Type 0 where
      nobody : {s : S} → Joined token [] s s
      next :
          {n : Node} {ns : List Node} {s t u : S}
          → Up (codes "k3s") n (install_master E T c token n) s t
          → Joined token ns t u
          → Joined token (n ∷ ns) s u

    pub record Bootstrapped (first : Node) (others : List Node) (token : Text) (s t : S)
        : Type 0 where
      pub installed : S
      pub fetched : S
      pub joined : S
      pub first_up : Up (codes "k3s") first (install_first_master E T c first) s installed
      pub token_read : fetch_token E first installed ≡ (ok token, fetched)
      pub all_joined : Joined token others fetched joined
      pub all_ready : wait_nodes_ready E first (length (first ∷ others)) joined ≡ (ok tt, t)

    -- One installation, whose error would be wrapped.
    joining : Text → Node → Exec S Error Unit
    joining token n =
        wrapping (wrap (codes "joining master " ++ n.name)) (install_master E T c token n)

    Up-unwrapped :
        (token : Text) (n : Node) (s t : S)
        → Up (codes "k3s") n (joining token n) s t
          ↔ Up (codes "k3s") n (install_master E T c token n) s t
    unfolding joining
    Up-unwrapped token n s t = (there, back)
      where
        there :
            Up (codes "k3s") n (joining token n) s t
            → Up (codes "k3s") n (install_master E T c token n) s t
        there (inl asked) = inl asked
        there (inr (u, asked, e)) =
            inr (u, asked, unwrapped _ (install_master E T c token n) u t tt e)

        back :
            Up (codes "k3s") n (install_master E T c token n) s t
            → Up (codes "k3s") n (joining token n) s t
        back (inl asked) = inl asked
        back (inr (u, asked, e)) = inr (u, asked, rw e refl)

    join_masters-Joined :
        (token : Text) (ns : List Node) (s t : S)
        → join_masters E T c token ns s ≡ (ok tt, t)
        → Joined token ns s t
    unfolding join_masters joining
    join_masters-Joined token [] s t e = subst (λ u. Joined token [] s u) (ap (λ r. r.1) e) nobody
    join_masters-Joined token (n ∷ ns) s t e =
        let (x, mid, first, rest) =
          continue-eq-ok (unless_active E (codes "k3s") n (joining token n))
            (λ u. join_masters E T c token ns) s t e in
        next
          ((Up-unwrapped token n s mid).0
            ((unless_active_iff (codes "k3s") n (joining token n) s mid).0 first))
          (join_masters-Joined token ns mid t rest)

    Joined-join_masters :
        (token : Text) (ns : List Node) (s t : S)
        → Joined token ns s t
        → join_masters E T c token ns s ≡ (ok tt, t)
    unfolding join_masters joining
    Joined-join_masters token [] s _ nobody = refl
    Joined-join_masters token (n ∷ ns) s t (next {t = mid} up rest) =
        rw
          ((unless_active_iff (codes "k3s") n (joining token n) s mid).1
            ((Up-unwrapped token n s mid).1 up))
          (Joined-join_masters token ns mid t rest)

    module _ (first : Node) (others : List Node) where
      -- The four parts, with the token and the state that they end with.
      assembled :
          (token : Text) (s t installed fetched joined last : S) (read : Text)
          → unless_active E (codes "k3s") first (install_first_master E T c first) s
            ≡ (ok tt, installed)
          → fetch_token E first installed ≡ (ok read, fetched)
          → join_masters E T c read others fetched ≡ (ok tt, joined)
          → wait_nodes_ready E first (length (first ∷ others)) joined ≡ (ok tt, last)
          → ◌≡◌ {A = Result Error Text × S} (ok read, last) (ok token, t)
          → Bootstrapped first others token s t
      assembled token s t installed fetched joined last read up reads joins waits e = record {
        installed = installed;
        fetched = fetched;
        joined = joined;
        first_up =
            (unless_active_iff (codes "k3s") first (install_first_master E T c first) s installed).0
              up;
        token_read = reads ∙ ap (λ r. (ok r, fetched)) same;
        all_joined =
            subst (λ r. Joined r others fetched joined) same
              (join_masters-Joined read others fetched joined joins);
        all_ready = waits ∙ ap (λ (r : Result Error Text × S). (ok tt, r.1)) e;
      }
        where
          same : read ≡ token
          same = ok-injective read token last t e

      bootstrapped :
          (token : Text) (s t : S)
          → bootstrap_control_plane E T c first others s ≡ (ok token, t)
          → Bootstrapped first others token s t
      unfolding bootstrap_control_plane
      bootstrapped token s t e =
          let (u, installed, up, e1) =
            continue-eq-ok (unless_active E (codes "k3s") first (install_first_master E T c first))
              _ s t e in
          let (read, fetched, reads, e2) =
            wrapping-eq-ok (wrap (codes "fetching cluster token")) (fetch_token E first) _ installed
              t e1 in
          let (v, joined, joins, e3) =
            continue-eq-ok (join_masters E T c read others) _ fetched t e2 in
          let (w, last, waits, e4) =
            wrapping-eq-ok (wrap (codes "waiting for masters Ready"))
              (wait_nodes_ready E first (length (first ∷ others))) _ joined t e3 in
          assembled token s t installed fetched joined last read up reads joins waits e4

      pub bootstrap_iff :
          (token : Text) (s t : S)
          → (bootstrap_control_plane E T c first others s ≡ (ok token, t))
            ↔ Bootstrapped first others token s t
      unfolding bootstrap_control_plane
      bootstrap_iff token s t = (bootstrapped token s t, runs)
        where
          runs :
              Bootstrapped first others token s t
              → bootstrap_control_plane E T c first others s ≡ (ok token, t)
          runs b =
              continue_ok (unless_active E (codes "k3s") first (install_first_master E T c first)) _
                s b.installed tt
                ((unless_active_iff (codes "k3s") first (install_first_master E T c first) s
                    b.installed).1
                  b.first_up)
              ∙ (wrapping_ok (wrap (codes "fetching cluster token")) (fetch_token E first) _
                    b.installed b.fetched token b.token_read
                  ∙ (continue_ok (join_masters E T c token others) _ b.fetched b.joined tt
                        (Joined-join_masters token others b.fetched b.joined b.all_joined)
                      ∙ wrapping_ok (wrap (codes "waiting for masters Ready"))
                          (wait_nodes_ready E first (length (first ∷ others))) _ b.joined t tt
                          b.all_ready))
