-- ===== src/Prelude/Result.antt =====
-- Go's pair of a value and an error as one result, and actions that change a state beside it.

use mathlib.Core.Path.{◌≡◌, refl}
use mathlib.Core.Bool.{Bool, true, false}

pub data Result {ℓ} (E A : Type ℓ) : Type ℓ where
  ok : A → Result E A
  err : E → Result E A

abbrev pub is_ok {ℓ} : {E A : Type ℓ} → Result E A → Bool
is_ok (ok a) = true
is_ok (err e) = false

-- `if err != nil { return …, wrap(err) }`
abbrev pub map_err {ℓ} : {E F A : Type ℓ} → (E → F) → Result E A → Result F A
map_err f (ok a) = ok a
map_err f (err e) = err (f e)

abbrev pub bind {ℓ} : {E A B : Type ℓ} → Result E A → (A → Result E B) → Result E B
bind (ok a) f = f a
bind (err e) f = err e

-- The state comes back beside an error too: what was done before it stays done.
abbrev pub Exec {ℓ} : Type ℓ → Type ℓ → Type ℓ → Type ℓ
Exec S E A = S → Result E A × S

module _ {ℓ} {S E A : Type ℓ} where
  abbrev pub pure : A → Exec S E A
  pure a s = (ok a, s)

  abbrev pub raise : E → Exec S E A
  raise e s = (err e, s)

  abbrev pub lift : Result E A → Exec S E A
  lift r s = (r, s)

module _ {ℓ} {S E A B : Type ℓ} where
  abbrev pub continue : Result E A → (A → Exec S E B) → Exec S E B
  continue (ok a) f s = f a s
  continue (err e) f s = (err e, s)

  infixl 10 ◌>>=◌ ◌>>◌
  abbrev pub ◌>>=◌ : Exec S E A → (A → Exec S E B) → Exec S E B
  ◌>>=◌ m f s = let (r, s') = m s in continue r f s'

  abbrev pub ◌>>◌ : Exec S E A → Exec S E B → Exec S E B
  m >> n = m >>= λ _. n

module _ {ℓ} {S E F A : Type ℓ} where
  -- An error of an inner call, turned into the caller's.
  abbrev pub wrapping : (E → F) → Exec S E A → Exec S F A
  wrapping f m s = let (r, s') = m s in (map_err f r, s')

-- A bind succeeds where both of its parts do.
pub bind-eq-ok {ℓ} :
    {E A B : Type ℓ} (first : Result E A) (next : A → Result E B) {last : B}
    → bind first next ≡ ok last
    → (x : A) × (first ≡ ok x) × (next x ≡ ok last)
bind-eq-ok (ok x) next e = (x, refl, e)
bind-eq-ok (err why) next e = cc

pub map_err-eq-ok {ℓ} :
    {E F A : Type ℓ} (f : E → F) (r : Result E A) (x : A) → map_err f r ≡ ok x → r ≡ ok x
map_err-eq-ok f (ok y) x e = ok_eq y x e
  where
    ok_eq :
        {E F A : Type ℓ} (y x : A)
        → ◌≡◌ {A = Result F A} (ok y) (ok x)
        → ◌≡◌ {A = Result E A} (ok y) (ok x)
    ok_eq y x e = cc
map_err-eq-ok f (err why) x e = cc

-- A sequence of actions succeeds where both of its parts do, the second in the state that the first
-- has left.
pub continue-eq-ok {ℓ} :
    {S E A B : Type ℓ} (action : Exec S E A) (next : A → Exec S E B) (s t : S) {last : B}
    → (action >>= next) s ≡ (ok last, t)
    → (x : A) × (mid : S) × (action s ≡ (ok x, mid)) × (next x mid ≡ (ok last, t))
continue-eq-ok {S = S} {E} {A} {B} action next s t {last} e = step (action s).0 (action s).1 refl e
  where
    step :
        (r : Result E A) (mid : S)
        → action s ≡ (r, mid)
        → continue r next mid ≡ (ok last, t)
        → (x : A) × (mid : S) × (action s ≡ (ok x, mid)) × (next x mid ≡ (ok last, t))
    step (ok x) mid h e = (x, mid, h, e)
    step (err why) mid h e = cc

pub continue_ok {ℓ} :
    {S E A B : Type ℓ} (action : Exec S E A) (next : A → Exec S E B) (s mid : S) (x : A)
    → action s ≡ (ok x, mid)
    → (action >>= next) s ≡ next x mid
continue_ok action next s mid x h = rw h refl

pub wrapping_ok {ℓ} :
    {S E F A B : Type ℓ} (f : E → F) (action : Exec S E A) (next : A → Exec S F B) (s mid : S)
    (x : A)
    → action s ≡ (ok x, mid)
    → (wrapping f action >>= next) s ≡ next x mid
wrapping_ok f action next s mid x h = rw h refl

-- A result that is given in two ways is one result.
pub ok-injective {ℓ} :
    {S E A : Type ℓ} (x y : A) (s t : S) → ◌≡◌ {A = Result E A × S} (ok x, s) (ok y, t) → x ≡ y
ok-injective x y s t e = cc

-- Wrapping the error of an action does not change when it succeeds.
pub unwrapped {ℓ} :
    {S E F A : Type ℓ} (f : E → F) (m : Exec S E A) (s t : S) (a : A)
    → wrapping f m s ≡ (ok a, t)
    → m s ≡ (ok a, t)
unwrapped {S = S} {E} {F} {A} f m s t a e = step (m s).0 (m s).1 refl e
  where
    step :
        (r : Result E A) (mid : S)
        → m s ≡ (r, mid)
        → ◌≡◌ {A = Result F A × S} (map_err f r, mid) (ok a, t)
        → m s ≡ (ok a, t)
    step (ok x) mid h e = cc
    step (err x) mid h e = cc

pub wrapping-eq-ok {ℓ} :
    {S E F A B : Type ℓ} (f : E → F) (action : Exec S E A) (next : A → Exec S F B) (s t : S)
    {last : B}
    → (wrapping f action >>= next) s ≡ (ok last, t)
    → (x : A) × (mid : S) × (action s ≡ (ok x, mid)) × (next x mid ≡ (ok last, t))
wrapping-eq-ok f action next s t e =
    let (x, mid, h, rest) = continue-eq-ok (wrapping f action) next s t e in
    (x, mid, unwrapped f action s mid x h, rest)
