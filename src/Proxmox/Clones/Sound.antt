-- ===== src/Proxmox/Clones/Sound.antt =====
-- An invariant of the semaphores of internal/adapter/proxmox/provider.go.
use proxmox_k3s.Prelude.{
  ℕ, ◌+◌, ◌-◌, ◌≤◌, ◌<◌, ◌≡◌, ◌≢◌, refl, sym, ap, subst, ◌∙◌, arith, List, [], ◌∷◌, ◌++◌, All,
  All-append, All-imp, Option, none, some, eqb, eqb_iff, if◌then◌else◌, inl, inr,
}
use proxmox_k3s.Prelude.Text.{Text}
use proxmox_k3s.Prelude.Dict.{Dict, lookup}
use proxmox_k3s.Proxmox.Clones.{
  max_clones, put_at, semaphore_or_new, clone_semaphore, Caller, waiting, cloning, Clones,
  no_clones, with_held, Step, entered, sent, left, Reached, fresh, then_step,
}
use proxmox_k3s.Proxmox.Clones.Table.{Owns, found_now, Owns-still, new_or_old}

-- How many calls are behind a send on a channel.
unfoldable pub cloning_in : ℕ → List Caller → ℕ
cloning_in id [] = 0
cloning_in id (waiting host other ∷ rest) = cloning_in id rest
cloning_in id (cloning host other ∷ rest) = (if eqb other id then 1 else 0) + cloning_in id rest

-- Every call has the channel of its host, no two hosts share one, and a channel holds a value for
-- each call behind its send.
pub record IsSound (s : Clones) : Type 0 where
  pub own : All (Owns s.sems.table) s.callers
  pub apart :
      (h g : Text) (id : ℕ)
      → lookup h s.sems.table ≡ some id
      → lookup g s.sems.table ≡ some id
      → h ≡ g
  pub inside : (h : Text) (id : ℕ) → lookup h s.sems.table ≡ some id → id < s.sems.made
  pub counts : (id : ℕ) → s.sems.held id ≡ cloning_in id s.callers
  pub limit : (id : ℕ) → s.sems.held id ≤ max_clones

cloning_in-append :
    (id : ℕ) (xs ys : List Caller) → cloning_in id (xs ++ ys) ≡ cloning_in id xs + cloning_in id ys
unfolding cloning_in
cloning_in-append id [] ys = omega arith
cloning_in-append id (waiting h i ∷ xs) ys = cloning_in-append id xs ys
cloning_in-append id (cloning h i ∷ xs) ys = omega (arith, cloning_in-append id xs ys)

-- A call that stands in the list adds one to its own channel.
pub cloning_in-middle :
    (other : ℕ) (before after : List Caller) (host : Text) (id : ℕ)
    → cloning_in other (before ++ (cloning host id ∷ after))
      ≡ (if eqb id other then 1 else 0) + cloning_in other (before ++ after)
unfolding cloning_in
cloning_in-middle other before after host id = omega (
  arith,
  cloning_in-append other before (cloning host id ∷ after),
  cloning_in-append other before after,
)

-- One that waits adds to none.
cloning_in-waiting :
    (other : ℕ) (before after : List Caller) (host : Text) (id : ℕ)
    → cloning_in other (before ++ (waiting host id ∷ after)) ≡ cloning_in other (before ++ after)
unfolding cloning_in
cloning_in-waiting other before after host id = omega (
  arith,
  cloning_in-append other before (waiting host id ∷ after),
  cloning_in-append other before after,
)

pub All-middle :
    {A : Type 0} (P : A → Type 0) (xs ys : List A) (x : A) → All P (xs ++ (x ∷ ys)) → P x
All-middle P [] ys x h = h.0
All-middle P (z ∷ xs) ys x h = All-middle P xs ys x h.1

All-left : {A : Type 0} (P : A → Type 0) (xs ys : List A) → All P (xs ++ ys) → All P xs × All P ys
All-left P [] ys h = (tt, h)
All-left P (x ∷ xs) ys (hx, h) = let (l, r) = All-left P xs ys h in ((hx, l), r)

-- A channel that is not made yet has no calls.
cloning_in-new :
    (table : Dict ℕ) (made : ℕ) (callers : List Caller)
    → ((h : Text) (id : ℕ) → lookup h table ≡ some id → id < made)
    → All (Owns table) callers
    → cloning_in made callers ≡ 0
unfolding cloning_in
cloning_in-new table made [] inside own = refl
cloning_in-new table made (waiting h i ∷ rest) inside (o, own) =
    cloning_in-new table made rest inside own
cloning_in-new table made (cloning h i ∷ rest) inside (o, own) =
    ground (arith, inside h i o, cloning_in-new table made rest inside own)

module _ (s : Clones) (h : IsSound s) where
  -- A call that has its channel.
  entered-IsSound :
      (host : Text) (o : Option ℕ)
      → lookup host s.sems.table ≡ o
      → IsSound (record {
        sems = (semaphore_or_new o host s.sems).1;
        callers = waiting host (semaphore_or_new o host s.sems).0 ∷ s.callers;
      })
  unfolding semaphore_or_new put_at cloning_in
  entered-IsSound host (some id) e = record {
    own = (e, h.own);
    apart = h.apart;
    inside = h.inside;
    counts = h.counts;
    limit = h.limit;
  }
  entered-IsSound host none e = record {
    own = (
      found_now s.sems.table host s.sems.made e,
      All-imp _ _ s.callers (Owns-still s.sems.table host s.sems.made e) h.own,
    );
    apart = λ f g id ef eg. elim (new_or_old s.sems.table host s.sems.made e f id ef) [
      | inl (at_f, new) ↦ elim (new_or_old s.sems.table host s.sems.made e g id eg) [
        | inl (at_g, same) ↦ sym at_f ∙ at_g
        | inr old ↦ absurd (omega (arith, h.inside g id old))
      ]
      | inr old_f ↦ elim (new_or_old s.sems.table host s.sems.made e g id eg) [
        | inl (at_g, same) ↦ absurd (omega (arith, h.inside f id old_f))
        | inr old_g ↦ h.apart f g id old_f old_g
      ]
    ];
    inside = λ g id eg. elim (new_or_old s.sems.table host s.sems.made e g id eg) [
      | inl (at_g, same) ↦ omega arith
      | inr old ↦ omega (arith, h.inside g id old)
    ];
    counts = λ id. ground (
      arith,
      h.counts id,
      eqb_iff s.sems.made id,
      cloning_in-new s.sems.table s.sems.made s.callers h.inside h.own,
    );
    limit = λ id. ground (arith, h.limit id);
  }

  -- A value goes into a channel or comes out of it, and one of the calls changes with it.
  moved-IsSound :
      (callers : List Caller) (id n : ℕ)
      → All (Owns s.sems.table) callers
      → n ≤ max_clones
      → n ≡ cloning_in id callers
      → ((other : ℕ) → id ≢ other → cloning_in other callers ≡ cloning_in other s.callers)
      → IsSound (record { sems = with_held id n s; callers = callers })
  unfolding put_at
  moved-IsSound callers id n own small here elsewhere = record {
    own = own;
    apart = h.apart;
    inside = h.inside;
    counts = λ other. ground (arith, elsewhere other, h.counts other, eqb_iff id other);
    limit = λ other. ground (arith, h.limit other);
  }

  Step-IsSound : (t : Clones) → Step s t → IsSound t
  unfolding clone_semaphore
  Step-IsSound t (entered host e) =
      subst IsSound (sym e) (entered-IsSound host (lookup host s.sems.table) refl)
  Step-IsSound t (sent before after host id at free e) =
      let own = subst (All (Owns s.sems.table)) at h.own in
      let (own_before, own_rest) = All-left _ before (waiting host id ∷ after) own in
      subst IsSound (sym e) (
        moved-IsSound (before ++ (cloning host id ∷ after)) id (s.sems.held id + 1)
          (All-append _ before (cloning host id ∷ after) own_before own_rest) (omega arith)
          (ground (
            arith,
            h.counts id,
            ap (cloning_in id) at,
            eqb_iff id id,
            cloning_in-middle id before after host id,
            cloning_in-waiting id before after host id,
          ))
          (λ other apart. ground (
            arith,
            ap (cloning_in other) at,
            eqb_iff id other,
            cloning_in-middle other before after host id,
            cloning_in-waiting other before after host id,
          )))
  Step-IsSound t (left before after host id at some_held e) =
      let own = subst (All (Owns s.sems.table)) at h.own in
      let (own_before, own_rest) = All-left _ before (cloning host id ∷ after) own in
      subst IsSound (sym e) (
        moved-IsSound (before ++ after) id (s.sems.held id - 1)
          (All-append _ before after own_before own_rest.1) (omega (arith, h.limit id))
          (ground (
            arith,
            h.counts id,
            ap (cloning_in id) at,
            eqb_iff id id,
            cloning_in-middle id before after host id,
          ))
          (λ other apart. ground (
            arith,
            ap (cloning_in other) at,
            eqb_iff id other,
            cloning_in-middle other before after host id,
          )))

no_clones-IsSound : IsSound no_clones
unfolding lookup cloning_in
no_clones-IsSound = record {
  own = tt;
  apart = λ f g id e d. cc;
  inside = λ g id e. cc;
  counts = λ id. refl;
  limit = λ id. omega arith;
}

pub Reached-IsSound : (s : Clones) → Reached s → IsSound s
Reached-IsSound _ fresh = no_clones-IsSound
Reached-IsSound t (then_step {s = s} r step) = Step-IsSound s (Reached-IsSound s r) t step
