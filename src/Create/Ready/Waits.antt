-- ===== src/Create/Ready/Waits.antt =====
-- The names of the nodes that waitAllReady returns.
use proxmox_k3s.Prelude.{
  List, [], ◌∷◌, All, ◌++◌, append_assoc, append-nil, map, map-append, ◌≡◌, refl, sym, ap, ◌∙◌,
}
use proxmox_k3s.Prelude.Text.{Text}
use proxmox_k3s.Prelude.Result.{Result, ok, err, ok-injective}
use proxmox_k3s.Domain.Error.{Error}
use proxmox_k3s.Domain.Model.{Node}
use proxmox_k3s.Infra.{InfraProvider}
use proxmox_k3s.Create.Ready.{after_wait, wait_from, wait_all_ready}

abbrev pub names : List Node → List Text
names = map (λ (n : Node). n.name)

module _ (I : InfraProvider) where
  open I use {State, wait_ready}

  -- A provider whose nodes keep their names while they become ready.
  pub record WaitsByName : Type 0 where
    pub waits : (n m : Node) (s t : State) → wait_ready n s ≡ (ok m, t) → m.name ≡ n.name

  module _ (law : WaitsByName) where
    wait_from-names :
        (ns ready rs : List Node) (s t : State)
        → wait_from I ns ready s ≡ (ok rs, t)
        → names rs ≡ names ready ++ names ns
    unfolding wait_from after_wait
    wait_from-names [] ready rs s t h = rw append-nil (sym (ap names (ok-injective ready rs s t h)))
    wait_from-names (n ∷ ns) ready rs s t h =
        step (wait_ready n s).0 (wait_ready n s).1 refl h
          (λ m u. wait_from-names ns (ready ++ m ∷ []) rs u t)
      where
        step :
            (r : Result Error Node) (u : State)
            → wait_ready n s ≡ (r, u)
            → after_wait I n ready (wait_from I ns) r u ≡ (ok rs, t)
            → ((m : Node) (u : State)
                → wait_from I ns (ready ++ m ∷ []) u ≡ (ok rs, t)
                → names rs ≡ names (ready ++ m ∷ []) ++ names ns)
            → names rs ≡ names ready ++ names (n ∷ ns)
        step (ok m) u e h ih = ih m u h ∙ rw (map-append, append_assoc, law.waits n m s u e) refl
        step (err x) u e h ih = cc

    pub wait_all_ready-names :
        (ns rs : List Node) (s t : State) → wait_all_ready I ns s ≡ (ok rs, t) → names rs ≡ names ns
    unfolding wait_all_ready
    wait_all_ready-names ns rs s t h = wait_from-names ns [] rs s t h

  -- A node that becomes ready in a state, and leaves it as it was; `Q` says what it then is.
  pub record Readies (Q : Node → Type 0) (s : State) (n : Node) : Type 0 where
    pub ready : Node
    pub waited : wait_ready n s ≡ (ok ready, s)
    pub good : Q ready

  wait_from-Readies :
      (Q : Node → Type 0) (s : State) (ns acc : List Node)
      → All (Readies Q s) ns
      → (rs : List Node) × (wait_from I ns acc s ≡ (ok (acc ++ rs), s)) × All Q rs
  unfolding wait_from after_wait
  wait_from-Readies Q s [] acc h = ([], rw append-nil refl, tt)
  wait_from-Readies Q s (n ∷ ns) acc (h, hs) =
      let (rs, e, good) = wait_from-Readies Q s ns (acc ++ h.ready ∷ []) hs in
      (h.ready ∷ rs, rw h.waited (e ∙ rw append_assoc refl), (h.good, good))

  -- Where each node becomes ready, so do all.
  pub wait_all_ready-Readies :
      (Q : Node → Type 0) (s : State) (ns : List Node)
      → All (Readies Q s) ns
      → (rs : List Node) × (wait_all_ready I ns s ≡ (ok rs, s)) × All Q rs
  unfolding wait_all_ready
  wait_all_ready-Readies Q s ns h = wait_from-Readies Q s ns [] h
