-- ===== src/Proxmox/FakeServer/Segments.antt =====
-- Parts of a path, and what packages net/http and net/url promise on the URLs that the client of
-- internal/adapter/proxmox/client makes.
use proxmox_k3s.Prelude.{
  ℕ, ◌≤◌, ◌≡◌, ◌≢◌, ap, subst, ◌∙◌, arith, List, [], ◌∷◌, ◌++◌, append-nil, All, none, true, false,
  leb, eqb, Bool, not, ◌&&◌,
}
use proxmox_k3s.Prelude.Text.{Text, codes, is_empty, ◌==◌, eq_iff}
use proxmox_k3s.Prelude.Text.Split.{Lacks, split, split_part, split_last}
use proxmox_k3s.Prelude.Decimal.{decimal, decimal-non-empty, decimal-IsDigit, IsDigit}
use proxmox_k3s.Proxmox.FakeServer.Answer.{Platform}

-- A visible character of ASCII that has no meaning of its own in a URL.
abbrev pub IsPlain : ℕ → Type 0
IsPlain c = (33 ≤ c) × (c ≤ 126) × (c ≢ b'/') × (c ≢ b'?') × (c ≢ b'%') × (c ≢ b'#')

-- A part of a path that neither url.Parse nor http.ServeMux changes.
pub record IsSegment (s : Text) : Type 0 where
  pub non_empty : is_empty s ≡ false
  pub plain : All IsPlain s
  pub not_here : s ≢ codes "."
  pub not_up : s ≢ codes ".."

-- The same as a test.
abbrev pub is_plain : ℕ → Bool
is_plain c =
    leb 33 c
    && (leb c 126
        && (not (eqb c b'/') && (not (eqb c b'?') && (not (eqb c b'%') && not (eqb c b'#')))))

abbrev pub all_plain : Text → Bool
all_plain [] = true
all_plain (c ∷ s) = is_plain c && all_plain s

unfoldable pub is_segment : Text → Bool
is_segment s = not (is_empty s) && (all_plain s && (not (s == codes ".") && not (s == codes "..")))

pub all_plain-IsPlain : (s : Text) → all_plain s ≡ true → All IsPlain s
all_plain-IsPlain [] h = tt
all_plain-IsPlain (c ∷ s) h =
    (is_plain_lem c (ground (arith, h)), all_plain-IsPlain s (ground (arith, h)))
  where
    is_plain_lem : (c : ℕ) → is_plain c ≡ true → IsPlain c
    is_plain_lem c h = ground arith

pub segment : (s : Text) → is_segment s ≡ true → IsSegment s
unfolding is_segment
segment s h = record {
  non_empty = ground (arith, h);
  plain = all_plain-IsPlain s (ground (arith, h));
  not_here = λ e. ground (arith, h, (eq_iff s (codes ".")).1 e);
  not_up = λ e. ground (arith, h, (eq_iff s (codes "..")).1 e);
}

unfoldable pub all_segments : List Text → Bool
all_segments [] = true
all_segments (s ∷ ss) = is_segment s && all_segments ss

pub segments : (ss : List Text) → all_segments ss ≡ true → All IsSegment ss
unfolding all_segments
segments [] h = tt
segments (s ∷ ss) h = (segment s (ground (arith, h)), segments ss (ground (arith, h)))

abbrev pub slashes : List Text → Text
slashes [] = []
slashes (s ∷ ss) = b'/' ∷ (s ++ slashes ss)

-- A query with its question mark, or nothing.
abbrev pub IsQuery : Text → Type 0
IsQuery [] = Unit
IsQuery (c ∷ q) = (c ≡ b'?') × All IsPlain q

-- What net/http and net/url promise on the URLs that the client makes.
pub record Documented (P : Platform) (base : Text) : Type 0 where
  pub path :
      (segments : List Text) (query : Text)
      → All IsSegment segments
      → IsQuery query
      → P.path_of (base ++ (slashes segments ++ query)) ≡ slashes segments
  pub accepted :
      (segments : List Text) (query : Text)
      → All IsSegment segments
      → IsQuery query
      → P.url_error (base ++ (slashes segments ++ query)) ≡ none

plain-Lacks : (s : Text) → All IsPlain s → Lacks b'/' s
plain-Lacks [] h = tt
plain-Lacks (c ∷ s) ((lo, hi, apart, r1, r2, r3), h) = (apart, plain-Lacks s h)

pub split-slashes :
    (s : Text) (ss : List Text) → All IsSegment (s ∷ ss) → split (s ++ slashes ss) b'/' ≡ s ∷ ss
split-slashes s [] (h, hs) = rw (append-nil s) (split_last s b'/' (plain-Lacks s h.plain))
split-slashes s (t ∷ ts) (h, hs) =
    split_part s (t ++ slashes ts) b'/' (plain-Lacks s h.plain)
    ∙ ap (λ r. s ∷ r) (split-slashes t ts hs)

digit-IsPlain : (s : Text) → All IsDigit s → All IsPlain s
digit-IsPlain [] h = tt
digit-IsPlain (c ∷ s) ((lo, hi), h) = (
  (
    omega arith,
    omega arith,
    λ e. omega arith,
    λ e. omega arith,
    λ e. omega arith,
    λ e. omega arith,
  ),
  digit-IsPlain s h,
)

no_dot : (s t : Text) → s ≡ b'.' ∷ t → All IsDigit s → ⊥
no_dot s t e h = let (lo, hi) = (subst (All IsDigit) e h).0 in omega arith

pub decimal-IsSegment : (n : ℕ) → IsSegment (decimal n)
decimal-IsSegment n = record {
  non_empty = decimal-non-empty n;
  plain = digit-IsPlain (decimal n) (decimal-IsDigit n);
  not_here = λ e. no_dot (decimal n) [] e (decimal-IsDigit n);
  not_up = λ e. no_dot (decimal n) (b'.' ∷ []) e (decimal-IsDigit n);
}
