-- ===== src/Config/Load/Expanded.antt =====
-- References to the environment in a configuration, as expandEnv of internal/config/loader.go reads
-- them.
use proxmox_k3s.Prelude.{
  ℕ, zero, ◌+◌, ◌≡◌, ◌≢◌, refl, sym, ap, ◌∙◌, arith, [], ◌∷◌, ◌++◌, append_assoc, append-nil, All,
  All-imp, ◌≤◌, ◌⊎◌, inl, inr, Bool-cases, none, some, true, false, length, length-append,
}
use proxmox_k3s.Prelude.Text.{Text, codes, is_empty}
use proxmox_k3s.Prelude.Text.Split.{Lacks}
use proxmox_k3s.Config.Load.{
  is_name_char, name_from, reference, value_or_match, expand_from, expand_env,
}

-- A capital letter, a digit or an underscore.
abbrev pub IsNameChar : ℕ → Type 0
IsNameChar c = ((b'A' ≤ c) × (c ≤ b'Z')) ⊎ (((b'0' ≤ c) × (c ≤ b'9')) ⊎ (c ≡ b'_'))

-- A name that a reference may have.
abbrev pub IsName : Text → Type 0
IsName name = (name ≢ []) × All IsNameChar name

name_char : (c : ℕ) → IsNameChar c → is_name_char c ≡ true
name_char c h = ground (arith, h)

non_empty : (t : Text) → t ≢ [] → is_empty t ≡ false
non_empty [] h = absurd (h refl)
non_empty (c ∷ t) h = refl

append-non-empty : (s : Text) (c : ℕ) (t : Text) → is_empty (s ++ (c ∷ t)) ≡ false
append-non-empty [] c t = refl
append-non-empty (d ∷ s) c t = refl

name_from_end :
    (name rest : Text) → is_empty name ≡ false → name_from name (b'}' ∷ rest) ≡ some name
unfolding name_from
name_from_end name rest e = rw e refl

name_from_name :
    (before name rest : Text)
    → All (λ c. is_name_char c ≡ true) name
    → is_empty (before ++ name) ≡ false
    → name_from before (name ++ (b'}' ∷ rest)) ≡ some (before ++ name)
unfolding name_from
name_from_name before [] rest h e =
    name_from_end before rest (ap is_empty (sym (append-nil before)) ∙ e)
    ∙ ap some (sym (append-nil before))
name_from_name before (c ∷ name) rest (hc, h) e =
    rw (hc, name_from)
      (name_from_name (before ++ (c ∷ [])) name rest h
          (ap is_empty (append_assoc before (c ∷ []) name) ∙ append-non-empty before c name)
        ∙ ap some (append_assoc before (c ∷ []) name))

module _ (env : Text → Text) where
  skipped : (s rest : Text) → expand_from env (length s) (s ++ rest) ≡ expand_from env zero rest
  unfolding expand_from
  skipped [] rest = refl
  skipped (c ∷ s) rest = skipped s rest

  -- The end of a match, behind its dollar sign.
  abbrev braced : Text → Text
  braced name = b'{' ∷ (name ++ (b'}' ∷ []))

  skipped_braced :
      (name rest : Text)
      → expand_from env (length name + 2) (b'{' ∷ (name ++ (b'}' ∷ rest)))
        ≡ expand_from env zero rest
  skipped_braced name rest =
      ap (λ n. expand_from env n (b'{' ∷ (name ++ (b'}' ∷ rest)))) size
      ∙ (ap (λ t. expand_from env (length (braced name)) (b'{' ∷ t))
            (sym (append_assoc name (b'}' ∷ []) rest))
          ∙ skipped (braced name) rest)
    where
      size : length name + 2 ≡ length (braced name)
      size = omega (arith, length-append name (b'}' ∷ []))

  reference_of :
      (name rest : Text)
      → IsName name
      → reference (b'$' ∷ (b'{' ∷ (name ++ (b'}' ∷ rest)))) ≡ some name
  unfolding reference
  reference_of name rest (e, h) =
      name_from_name [] name rest (All-imp _ _ name name_char h) (non_empty name e)

  expand_match :
      (c : ℕ) (s name : Text)
      → reference (c ∷ s) ≡ some name
      → expand_from env zero (c ∷ s)
        ≡ value_or_match env name ++ expand_from env (length name + 2) s
  unfolding expand_from
  expand_match c s name e = rw (e, expand_from) refl

  expand_char :
      (c : ℕ) (s : Text)
      → reference (c ∷ s) ≡ none
      → expand_from env zero (c ∷ s) ≡ c ∷ expand_from env zero s
  unfolding expand_from
  expand_char c s e = rw (e, expand_from) refl

  reference-none : (c : ℕ) (s : Text) → c ≢ b'$' → reference (c ∷ s) ≡ none
  unfolding reference
  reference-none c [] h = refl
  reference-none c (d ∷ s) h = ground (arith, h)

  expand_env_match :
      (before name rest : Text)
      → Lacks b'$' before
      → IsName name
      → expand_env env (before ++ (codes "${" ++ (name ++ (codes "}" ++ rest))))
        ≡ before ++ (value_or_match env name ++ expand_env env rest)
  unfolding expand_env
  expand_env_match [] name rest h hn =
      expand_match b'$' (b'{' ∷ (name ++ (b'}' ∷ rest))) name (reference_of name rest hn)
      ∙ ap (λ t. value_or_match env name ++ t) (skipped_braced name rest)
  expand_env_match (c ∷ before) name rest (hc, h) hn =
      expand_char c (before ++ (codes "${" ++ (name ++ (codes "}" ++ rest))))
        (reference-none c _ hc)
      ∙ ap (λ t. c ∷ t) (expand_env_match before name rest h hn)

  -- A reference between text without a dollar sign and any other text: the first stays, the reference
  -- becomes the value of the variable, or stays where that is empty or unset, and the rest is expanded
  -- by itself, so a dollar sign in a value is not read again.
  pub expand_env_reference :
      (before name rest : Text)
      → Lacks b'$' before
      → IsName name
      → ((env name ≢ [])
          × (expand_env env (before ++ (codes "${" ++ (name ++ (codes "}" ++ rest))))
              ≡ before ++ (env name ++ expand_env env rest)))
        ⊎ ((env name ≡ [])
            × (expand_env env (before ++ (codes "${" ++ (name ++ (codes "}" ++ rest))))
                ≡ before ++ ((codes "${" ++ (name ++ codes "}")) ++ expand_env env rest)))
  unfolding value_or_match
  expand_env_reference before name rest h hn =
      let e = expand_env_match before name rest h hn in
      elim (Bool-cases (is_empty (env name))) [
        | inl none_set ↦ inr (empty (env name) none_set, rw none_set at e)
        | inr given ↦ inl (λ q. cc (given, ap is_empty q), rw given at e)
      ]
    where
      empty : (t : Text) → is_empty t ≡ true → t ≡ []
      empty [] q = refl
      empty (c ∷ t) q = cc
