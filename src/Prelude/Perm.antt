-- ===== src/Prelude/Perm.antt =====
-- Lists of the same entries in another order: what a range over a Go map may come to.
use mathlib.Core.Path.{◌≡◌, refl, sym, ap, ◌∙◌, subst}
use mathlib.Core.Logic.{inl, inr}
use mathlib.Core.Bool.{Bool}
use mathlib.Core.List.{List, [], ◌∷◌, map}
pub use mathlib.Core.List.{Permᴰ}
use proxmox_k3s.Prelude.Tests.{Bool-cases}
use proxmox_k3s.Prelude.Lists.{All, Any, keep, keep_pass, keep_drop}

pub Permᴰ-map :
    {A B : Type 0} (f : A → B) {xs ys : List A} → Permᴰ xs ys → Permᴰ (map f xs) (map f ys)
Permᴰ-map f Permᴰ.nil = Permᴰ.nil
Permᴰ-map f (Permᴰ.cons e p) = Permᴰ.cons (ap f e) (Permᴰ-map f p)
Permᴰ-map f (Permᴰ.swap e h) = Permᴰ.swap (ap f e) (ap f h)
Permᴰ-map f (Permᴰ.trans p q) = Permᴰ.trans (Permᴰ-map f p) (Permᴰ-map f q)

module _ {A : Type 0} where
  pub Permᴰ-refl : (xs : List A) → Permᴰ xs xs
  Permᴰ-refl [] = Permᴰ.nil
  Permᴰ-refl (x ∷ xs) = Permᴰ.cons refl (Permᴰ-refl xs)

  pub Permᴰ-sym : {xs ys : List A} → Permᴰ xs ys → Permᴰ ys xs
  Permᴰ-sym Permᴰ.nil = Permᴰ.nil
  Permᴰ-sym (Permᴰ.cons e p) = Permᴰ.cons (sym e) (Permᴰ-sym p)
  Permᴰ-sym (Permᴰ.swap e f) = Permᴰ.swap (sym f) (sym e)
  Permᴰ-sym (Permᴰ.trans p q) = Permᴰ.trans (Permᴰ-sym q) (Permᴰ-sym p)

  pub All-Permᴰ : (P : A → Type 0) {xs ys : List A} → Permᴰ xs ys → All P xs → All P ys
  All-Permᴰ P Permᴰ.nil h = tt
  All-Permᴰ P (Permᴰ.cons e p) (hx, h) = (subst P e hx, All-Permᴰ P p h)
  All-Permᴰ P (Permᴰ.swap e f) (ha, (hb, h)) = (subst P f hb, (subst P e ha, h))
  All-Permᴰ P (Permᴰ.trans p q) h = All-Permᴰ P q (All-Permᴰ P p h)

  pub Any-Permᴰ : (P : A → Type 0) {xs ys : List A} → Permᴰ xs ys → Any P xs → Any P ys
  Any-Permᴰ P Permᴰ.nil h = h
  Any-Permᴰ P (Permᴰ.cons e p) (inl hx) = inl (subst P e hx)
  Any-Permᴰ P (Permᴰ.cons e p) (inr h) = inr (Any-Permᴰ P p h)
  Any-Permᴰ P (Permᴰ.swap e f) (inl ha) = inr (inl (subst P e ha))
  Any-Permᴰ P (Permᴰ.swap e f) (inr (inl hb)) = inl (subst P f hb)
  Any-Permᴰ P (Permᴰ.swap e f) (inr (inr h)) = inr (inr h)
  Any-Permᴰ P (Permᴰ.trans p q) h = Any-Permᴰ P q (Any-Permᴰ P p h)

  keep_cons :
      (p : A → Bool) (a b : A) (xs ys : List A)
      → a ≡ b
      → Permᴰ (keep p xs) (keep p ys)
      → Permᴰ (keep p (a ∷ xs)) (keep p (b ∷ ys))
  keep_cons p a b xs ys e h = elim (Bool-cases (p a)) [
    | inl yes_a ↦
        rw (keep_pass p a xs yes_a, keep_pass p b ys (ap p (sym e) ∙ yes_a)) (Permᴰ.cons e h)
    | inr no_a ↦ rw (keep_drop p a xs no_a, keep_drop p b ys (ap p (sym e) ∙ no_a)) h
  ]

  keep_swap :
      (p : A → Bool) (a b : A) (xs : List A) → Permᴰ (keep p (a ∷ b ∷ xs)) (keep p (b ∷ a ∷ xs))
  keep_swap p a b xs = elim (Bool-cases (p a)) [
    | inl ha ↦ elim (Bool-cases (p b)) [
      | inl hb ↦
          rw
            (
              keep_pass p a (b ∷ xs) ha,
              keep_pass p b xs hb,
              keep_pass p b (a ∷ xs) hb,
              keep_pass p a xs ha,
            )
            (Permᴰ.swap refl refl)
      | inr hb ↦
          rw
            (
              keep_pass p a (b ∷ xs) ha,
              keep_drop p b xs hb,
              keep_drop p b (a ∷ xs) hb,
              keep_pass p a xs ha,
            )
            (Permᴰ-refl _)
    ]
    | inr ha ↦
        rw (keep_drop p a (b ∷ xs) ha)
          (keep_cons p b b xs (a ∷ xs) refl (rw (keep_drop p a xs ha) (Permᴰ-refl _)))
  ]

  pub keep-Permᴰ : (p : A → Bool) {xs ys : List A} → Permᴰ xs ys → Permᴰ (keep p xs) (keep p ys)
  keep-Permᴰ p Permᴰ.nil = Permᴰ-refl _
  keep-Permᴰ p (Permᴰ.cons {a = a} {b = b} {l₁ = xs} {l₂ = ys} e q) =
      keep_cons p a b xs ys e (keep-Permᴰ p q)
  keep-Permᴰ p (Permᴰ.swap {a = a} {b = b} {l = xs} e f) = rw (sym e, sym f) (keep_swap p a b xs)
  keep-Permᴰ p (Permᴰ.trans q r) = Permᴰ.trans (keep-Permᴰ p q) (keep-Permᴰ p r)

  empty_left : {xs ys : List A} → Permᴰ xs ys → ys ≡ [] → xs ≡ []
  empty_left Permᴰ.nil h = refl
  empty_left (Permᴰ.cons e p) h = cc
  empty_left (Permᴰ.swap e f) h = cc
  empty_left (Permᴰ.trans p q) h = empty_left p (empty_left q h)

  pub Permᴰ-nil : {xs : List A} → Permᴰ xs [] → xs ≡ []
  Permᴰ-nil p = empty_left p refl
