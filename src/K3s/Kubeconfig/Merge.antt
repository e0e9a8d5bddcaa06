-- ===== src/K3s/Kubeconfig/Merge.antt =====
-- mergeConfigs of internal/adapter/k3s/kubeconfig.go, read by names.
use proxmox_k3s.Prelude.{
  List, [], ◌∷◌, ◌++◌, Option, none, some, Bool, true, false, ◌≡◌, refl, ap, ◌∙◌, arith,
  if◌then◌else◌, Bool-cases, inl, inr,
}
use proxmox_k3s.Prelude.Text.{Text, ◌==◌, eq_iff}
use proxmox_k3s.K3s.Kubeconfig.{
  KubeCluster, KubeUser, KubeConfig, cluster_exists, user_exists, replace_cluster, put_cluster,
  merge_clusters, put_user, merge_users, merge_configs,
}

-- The first cluster of that name, which is the one that kubectl reads.
abbrev pub find_cluster : Text → List KubeCluster → Option KubeCluster
find_cluster n [] = none
find_cluster n (c ∷ cs) = if c.name == n then some c else find_cluster n cs

-- The last cluster of that name, or else the given one.
abbrev pub newest : Text → List KubeCluster → Option KubeCluster → Option KubeCluster
newest n [] old = old
newest n (c ∷ cs) old = newest n cs (if c.name == n then some c else old)

replace_cluster-others :
    (n : Text) (c : KubeCluster) (cs : List KubeCluster)
    → (c.name == n) ≡ false
    → find_cluster n (replace_cluster c cs) ≡ find_cluster n cs
unfolding replace_cluster
replace_cluster-others n c [] h = refl
replace_cluster-others n c (x ∷ cs) h = elim (Bool-cases (x.name == c.name)) [
  | inl e ↦ rw (e, h, (eq_iff x.name c.name).0 e, h) (replace_cluster-others n c cs h)
  | inr e ↦ rw (e, replace_cluster-others n c cs h) refl
]

replace_cluster-found :
    (n : Text) (c : KubeCluster) (cs : List KubeCluster)
    → (c.name == n) ≡ true
    → cluster_exists cs c.name ≡ true
    → find_cluster n (replace_cluster c cs) ≡ some c
unfolding replace_cluster cluster_exists
replace_cluster-found n c [] h there = cc
replace_cluster-found n c (x ∷ cs) h there = elim (Bool-cases (x.name == c.name)) [
  | inl e ↦ rw (e, h) refl
  | inr e ↦
      rw
        (
          e,
          let ne : (x.name == n) ≡ false =
                ground (arith, eq_iff x.name n, eq_iff c.name n, eq_iff x.name c.name) in
              ne,
        )
        (replace_cluster-found n c cs h (rw e at there))
]

find_cluster-replace_cluster :
    (n : Text) (c : KubeCluster) (cs : List KubeCluster)
    → cluster_exists cs c.name ≡ true
    → find_cluster n (replace_cluster c cs) ≡ (if c.name == n then some c else find_cluster n cs)
find_cluster-replace_cluster n c cs there = elim (Bool-cases (c.name == n)) [
  | inl e ↦ rw e (replace_cluster-found n c cs e there)
  | inr e ↦ rw e (replace_cluster-others n c cs e)
]

find_cluster-append :
    (n : Text) (c : KubeCluster) (cs : List KubeCluster)
    → cluster_exists cs c.name ≡ false
    → find_cluster n (cs ++ c ∷ []) ≡ (if c.name == n then some c else find_cluster n cs)
unfolding cluster_exists
find_cluster-append n c [] h = refl
find_cluster-append n c (x ∷ cs) h =
    ground
      (arith, find_cluster-append n c cs, eq_iff x.name c.name, eq_iff x.name n, eq_iff c.name n)

find_cluster-put_cluster :
    (n : Text) (c : KubeCluster) (cs : List KubeCluster)
    → find_cluster n (put_cluster cs c) ≡ (if c.name == n then some c else find_cluster n cs)
unfolding put_cluster
find_cluster-put_cluster n c cs = elim (Bool-cases (cluster_exists cs c.name)) [
  | inl e ↦ rw e (find_cluster-replace_cluster n c cs e)
  | inr e ↦ rw e (find_cluster-append n c cs e)
]

merge_clusters-newest :
    (n : Text) (cs extra : List KubeCluster)
    → find_cluster n (merge_clusters cs extra) ≡ newest n extra (find_cluster n cs)
unfolding merge_clusters
merge_clusters-newest n cs [] = refl
merge_clusters-newest n cs (e ∷ extra) =
    merge_clusters-newest n (put_cluster cs e) extra
    ∙ ap (newest n extra) (find_cluster-put_cluster n e cs)

module _ {U : Type 0} where
  abbrev pub find_user : Text → List (KubeUser U) → Option (KubeUser U)
  find_user n [] = none
  find_user n (u ∷ us) = if u.name == n then some u else find_user n us

  -- The first of two options that holds something.
  abbrev pub first : Option (KubeUser U) → Option (KubeUser U) → Option (KubeUser U)
  first none o = o
  first (some u) o = some u

  first-none : (a : Option (KubeUser U)) → a ≡ first a none
  first-none none = refl
  first-none (some u) = refl

  find_user-append :
      (n : Text) (u : KubeUser U) (us : List (KubeUser U))
      → find_user n (us ++ u ∷ []) ≡ first (find_user n us) (if u.name == n then some u else none)
  find_user-append n u [] = refl
  find_user-append n u (x ∷ us) = elim (Bool-cases (x.name == n)) [
    | inl e ↦ rw e refl
    | inr e ↦ rw e (find_user-append n u us)
  ]

  -- A user of a name that is there already is not looked at.
  find_user-there :
      (n : Text) (u : KubeUser U) (us : List (KubeUser U))
      → user_exists us u.name ≡ true
      → find_user n us ≡ first (find_user n us) (if u.name == n then some u else none)
  unfolding user_exists
  find_user-there n u [] h = cc
  find_user-there n u (x ∷ us) h = elim (Bool-cases (x.name == n)) [
    | inl e ↦ rw e refl
    | inr e ↦ elim (Bool-cases (x.name == u.name)) [
      | inl same ↦
          rw
            (
              e,
              let ne : (u.name == n) ≡ false =
                    ground (arith, eq_iff x.name n, eq_iff u.name n, eq_iff x.name u.name) in
                  ne,
            )
            (first-none (find_user n us))
      | inr other ↦ rw e (find_user-there n u us (rw other at h))
    ]
  ]

  find_user-put_user :
      (n : Text) (u : KubeUser U) (us : List (KubeUser U))
      → find_user n (put_user us u) ≡ first (find_user n us) (if u.name == n then some u else none)
  unfolding put_user
  find_user-put_user n u us = elim (Bool-cases (user_exists us u.name)) [
    | inl e ↦ rw e (find_user-there n u us e)
    | inr e ↦ rw e (find_user-append n u us)
  ]

  first_assoc : (a b c : Option (KubeUser U)) → first (first a b) c ≡ first a (first b c)
  first_assoc none b c = refl
  first_assoc (some u) b c = refl

  first_of_cons :
      (n : Text) (u : KubeUser U) (us : List (KubeUser U))
      → first (if u.name == n then some u else none) (find_user n us) ≡ find_user n (u ∷ us)
  first_of_cons n u us = elim (Bool-cases (u.name == n)) [ inl e ↦ rw e refl | inr e ↦ rw e refl ]

  merge_users-first :
      (n : Text) (us extra : List (KubeUser U))
      → find_user n (merge_users us extra) ≡ first (find_user n us) (find_user n extra)
  unfolding merge_users
  merge_users-first n us [] = first-none (find_user n us)
  merge_users-first n us (e ∷ extra) =
      merge_users-first n (put_user us e) extra
      ∙ (ap (λ o. first o (find_user n extra)) (find_user-put_user n e us)
          ∙ (first_assoc (find_user n us) _ (find_user n extra)
              ∙ ap (first (find_user n us)) (first_of_cons n e extra)))

  -- In a merge, the cluster of a name is the newest that the new document has of that name, and the
  -- old document's if it has none; the user of a name is the old document's if there is one, and the
  -- new one's else; the current context is the old one.
  pub merge_configs-finds :
      (fold : Text → Text → Bool) (base extra : KubeConfig U) (n : Text)
      → (find_cluster n (merge_configs fold base extra).clusters
          ≡ newest n extra.clusters (find_cluster n base.clusters))
        × (find_user n (merge_configs fold base extra).users
            ≡ first (find_user n base.users) (find_user n extra.users))
        × ((merge_configs fold base extra).current_context ≡ base.current_context)
  unfolding merge_configs
  merge_configs-finds fold base extra n = (
    merge_clusters-newest n base.clusters extra.clusters,
    merge_users-first n base.users extra.users,
    refl,
  )
