-- ===== src/Dict.antt =====
-- A Python dict as an association list in insertion order. An invariant of its users, `Unique`, says that no key is
-- listed twice.
use qwed_a2a.Prelude.{
  ◌≡◌, refl, subst, inl, inr, Bool-cases, Bool, Option, none, some, List, [], ◌∷◌, arith,
  Comparable, ◌==◌, ==_iff, if◌then◌else◌,
}

abbrev pub Dict {ℓ} : Type ℓ → Type ℓ → Type ℓ
Dict K V = List (K × V)

abbrev pub unless {ℓ} : {V : Type ℓ} → (V → Bool) → Option V → Option V
unless test none = none
unless test (some v) = if test v then none else some v

module _ {ℓ} {K V : Type ℓ} ⦃e : Comparable K⦄ where
  -- `d.get(k)`
  unfoldable pub lookup : K → Dict K V → Option V
  lookup k [] = none
  lookup k ((j, v) ∷ d) = if j == k then some v else lookup k d

  -- `d[k] = v`
  unfoldable pub insert : K → V → Dict K V → Dict K V
  insert k v [] = (k, v) ∷ []
  insert k v ((j, w) ∷ d) = if j == k then (k, v) ∷ d else (j, w) ∷ insert k v d

  -- `d.pop(k, None)`
  unfoldable pub erase : K → Dict K V → Dict K V
  erase k [] = []
  erase k ((j, w) ∷ d) = let rest = erase k d in if j == k then rest else (j, w) ∷ rest

  -- `[k for k, v in d.items() if test(v)]`, then `del d[k]` for each
  unfoldable pub drop_where : (V → Bool) → Dict K V → Dict K V
  drop_where test [] = []
  drop_where test ((j, w) ∷ d) =
      let rest = drop_where test d in if test w then rest else (j, w) ∷ rest

  abbrev pub Unique : Dict K V → Type ℓ
  Unique [] = Unit
  Unique ((k, v) ∷ d) = (lookup k d ≡ none) × Unique d

  pub lookup-insert :
      (k j : K) (v : V) (d : Dict K V)
      → lookup j (insert k v d) ≡ (if k == j then some v else lookup j d)
  unfolding lookup insert
  lookup-insert k j v [] = refl
  lookup-insert k j v ((i, w) ∷ d) =
      ground (arith, ==_iff k j, ==_iff i k, ==_iff i j, lookup-insert k j v d)

  pub lookup-erase :
      (k j : K) (d : Dict K V) → lookup j (erase k d) ≡ (if k == j then none else lookup j d)
  unfolding lookup erase
  lookup-erase k j [] = ground arith
  lookup-erase k j ((i, w) ∷ d) =
      ground (arith, ==_iff k j, ==_iff i k, ==_iff i j, lookup-erase k j d)

  pub lookup-drop_where :
      (test : V → Bool) (j : K) (d : Dict K V)
      → Unique d
      → lookup j (drop_where test d) ≡ unless test (lookup j d)
  unfolding lookup drop_where
  lookup-drop_where test j [] u = refl
  lookup-drop_where test j ((i, w) ∷ d) u =
      ground (arith, ==_iff i j, lookup-drop_where test j d u.1)

  pub drop_where-absent :
      (test : V → Bool) (j : K) (d : Dict K V)
      → lookup j d ≡ none
      → lookup j (drop_where test d) ≡ none
  unfolding lookup drop_where
  drop_where-absent test j [] h = refl
  drop_where-absent test j ((i, w) ∷ d) h = ground (arith, drop_where-absent test j d)

  pub insert-Unique : (k : K) (v : V) (d : Dict K V) → Unique d → Unique (insert k v d)
  unfolding lookup insert
  insert-Unique k v [] u = (refl, tt)
  insert-Unique k v ((i, w) ∷ d) u =
      ground (arith, ==_iff i k, ==_iff k i, lookup-insert k i v d, insert-Unique k v d u.1)

  pub erase-Unique : (k : K) (d : Dict K V) → Unique d → Unique (erase k d)
  unfolding lookup erase
  erase-Unique k [] u = tt
  erase-Unique k ((i, w) ∷ d) u = ground (arith, lookup-erase k i d, erase-Unique k d u.1)

  pub drop_where-Unique : (test : V → Bool) (d : Dict K V) → Unique d → Unique (drop_where test d)
  unfolding lookup drop_where
  drop_where-Unique test [] u = tt
  drop_where-Unique test ((i, w) ∷ d) u =
      ground (arith, lookup-drop_where test i d u.1, drop_where-Unique test d u.1)

module _ {ℓ} {K V : Type ℓ} ⦃e : Comparable K⦄ (P : V → Type ℓ) where
  -- Every value that can be looked up satisfies `P`.
  abbrev pub Each : Dict K V → Type ℓ
  Each d = (k : K) (v : V) → lookup k d ≡ some v → P v

  pub insert-Each : (k : K) (v : V) (d : Dict K V) → Each d → P v → Each (insert k v d)
  insert-Each k v d each p j w h = elim (Bool-cases (k == j)) [
    | inl same ↦ let found : some v ≡ some w = cc (lookup-insert k j v d, same, h) in subst P (cc) p
    | inr other ↦ each j w (ground (arith, lookup-insert k j v d))
  ]

  pub erase-Each : (k : K) (d : Dict K V) → Each d → Each (erase k d)
  erase-Each k d each j w h = each j w (ground (arith, lookup-erase k j d))

  pub drop_where-Each :
      (test : V → Bool) (d : Dict K V) → Unique d → Each d → Each (drop_where test d)
  drop_where-Each test d u each j w h = each j w (ground (arith, lookup-drop_where test j d u))
