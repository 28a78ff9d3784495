-- ===== src/Interceptor/Bindings/Termination.antt =====
-- `propagate` ends: a pair is added at most once, and only finitely many pairs can be added.
use mathlib.Core.Option.{some-injective}
use mathlib.Core.List.{Memᴰ}
use mathlib.Core.List.Memᴰ
use qwed_a2a.Prelude.{
  ℕ, zero, suc, ◌+◌, ◌≤◌, ◌≡◌, inl, inr, refl, sym, ap, subst, Bool, false, ◌||◌, Option, none,
  some, List, [], ◌∷◌, ◌++◌, arith, if◌then◌else◌, ◌==◌, ==_iff, contains, contains-add, length,
  Bool-cases,
}
use qwed_a2a.Prelude.Text.{Text, text-Eq}
use qwed_a2a.Dict.{Dict, lookup, lookup-insert}
use qwed_a2a.Interceptor.Bindings.{
  Binding, binding-Eq, Edge, Tables, Bindings, get_list, or_empty, add_value, tracked, follow,
  Progress, push_new, push_edges, propagate_loop, start_work, modules_in, members_in, attributes_in,
  targets_in, all_edges, pairs_with, product, universe, propagate,
}

-- A name is known to have a binding.
abbrev pub knows : Dict Text (List Binding) → Text → Binding → Bool
knows values target x = contains x (get_list target values)

pub knows-add_value :
    (target other : Text) (x y : Binding) (values : Dict Text (List Binding))
    → knows (add_value target x values) other y
      ≡ (if target == other then x == y || knows values target y else knows values other y)
unfolding add_value
knows-add_value target other x y values = elim (Bool-cases (target == other)) [
  | inl same ↦ rw (lookup-insert, same) (contains-add x y (get_list target values))
  | inr other_name ↦ rw (lookup-insert, other_name) refl
]

-- How many of the pairs are not known.
missing : Dict Text (List Binding) → List (Text × Binding) → ℕ
missing values [] = 0
missing values ((target, x) ∷ ps) = (if knows values target x then 0 else 1) + missing values ps

missing-le-length :
    (values : Dict Text (List Binding)) (ps : List (Text × Binding)) → missing values ps ≤ length ps
unfolding missing
missing-le-length values [] = omega arith
missing-le-length values ((target, x) ∷ ps) = ground (arith, missing-le-length values ps)

missing-add_value :
    (target : Text) (x : Binding) (values : Dict Text (List Binding)) (ps : List (Text × Binding))
    → missing (add_value target x values) ps ≤ missing values ps
unfolding missing
missing-add_value target x values [] = omega arith
missing-add_value target x values ((other, y) ∷ ps) = ground (
  arith,
  missing-add_value target x values ps,
  knows-add_value target other x y values,
  ==_iff target other,
)

missing_falls :
    (target : Text) (x : Binding) (values : Dict Text (List Binding)) (ps : List (Text × Binding))
    → knows values target x ≡ false
    → Memᴰ (target, x) ps
    → missing (add_value target x values) ps + 1 ≤ missing values ps
unfolding missing
missing_falls target x values [] new m = elim m [ ]
missing_falls target x values ((other, y) ∷ ps) new (Memᴰ.head e) =
    let le = missing-add_value target x values ps in
    ground (arith, e, le, knows-add_value target other x y values, ==_iff target other, ==_iff x y)
missing_falls target x values ((other, y) ∷ ps) new (Memᴰ.tail m) = ground (
  arith,
  missing_falls target x values ps new m,
  knows-add_value target other x y values,
  ==_iff target other,
)

Memᴰ-pairs_with {ℓ} :
    {A B : Type ℓ} (a : A) {b : B} (bs : List B) → Memᴰ b bs → Memᴰ (a, b) (pairs_with a bs)
Memᴰ-pairs_with a [] m = elim m [ ]
Memᴰ-pairs_with a (b ∷ bs) (Memᴰ.head e) = Memᴰ.head (ap (λ y. (a, y)) e)
Memᴰ-pairs_with a (b ∷ bs) (Memᴰ.tail m) = Memᴰ.tail (Memᴰ-pairs_with a bs m)

Memᴰ-product {ℓ} :
    {A B : Type ℓ} {a : A} {b : B} (xs : List A) (ys : List B)
    → Memᴰ a xs
    → Memᴰ b ys
    → Memᴰ (a, b) (product xs ys)
Memᴰ-product [] ys n m = elim n [ ]
Memᴰ-product {a} {b} (x ∷ xs) ys (Memᴰ.head e) m =
    Memᴰ.append_left (product xs ys)
      (subst (λ y. Memᴰ (y, b) (pairs_with x ys)) (sym e) (Memᴰ-pairs_with x ys m))
Memᴰ-product (x ∷ xs) ys (Memᴰ.tail n) m =
    Memᴰ.append_right (pairs_with x ys) (Memᴰ-product xs ys n m)

module _ (t : Tables) (targets modules : List Text) (members : List (Option Text)) where
  -- A binding that can occur.
  abbrev Possible : Binding → Type 0
  Possible x = Memᴰ x.0 modules × Memᴰ x.1 members

  abbrev AllPossible : List (Text × Binding) → Type 0
  AllPossible [] = Unit
  AllPossible ((source, x) ∷ work) = Possible x × AllPossible work

  -- Edges whose targets and attributes are listed.
  abbrev Listed : List Edge → Type 0
  Listed [] = Unit
  Listed ((target, attr) ∷ es) = Memᴰ target targets × Memᴰ attr members × Listed es

  abbrev everything : List (Text × Binding)
  everything = product targets (product modules members)

  Possible-follow :
      (x y : Binding) (attr : Option Text)
      → Possible x
      → Memᴰ attr members
      → follow t x attr ≡ some y
      → Possible y
  unfolding follow
  Possible-follow x y none p l h = subst Possible (some-injective x y h) p
  Possible-follow (m, some member) y (some attr) p l h = absurd (cc)
  Possible-follow (m, none) y (some attr) p l h = elim (Bool-cases (tracked t m attr)) [
    | inl on ↦
        let same : (m, some attr) ≡ y = some-injective (m, some attr) y (ground arith) in
        subst Possible same (p.0, l)
    | inr off ↦ absurd (ground arith)
  ]

  record IsPushed (before after : Progress) : Type 0 where
    possible : AllPossible after.1
    measured :
        missing after.0 everything + length after.1 ≤ missing before.0 everything + length before.1

  push_new-IsPushed :
      (target : Text) (o : Option Binding) (p : Progress)
      → Memᴰ target targets
      → ((y : Binding) → o ≡ some y → Possible y)
      → AllPossible p.1
      → IsPushed p (push_new target o p)
  unfolding push_new
  push_new-IsPushed target none p to possible a = record { possible = a; measured = omega arith }
  push_new-IsPushed target (some y) (values, work) to possible a =
      elim (Bool-cases (knows values target y)) [
        | inl known ↦ rw known (record { possible = a; measured = omega arith })
        | inr new ↦
            let (m, k) = possible y refl in
            let falls = missing_falls target y values everything new (
              Memᴰ-product targets (product modules members) to
                (Memᴰ-product modules members m k)) in
            rw new (record { possible = ((m, k), a); measured = omega (arith, falls) })
      ]

  push_edges-IsPushed :
      (x : Binding) (es : List Edge) (p : Progress)
      → Possible x
      → Listed es
      → AllPossible p.1
      → IsPushed p (push_edges t x es p)
  unfolding push_edges
  push_edges-IsPushed x [] p possible l a = record { possible = a; measured = omega arith }
  push_edges-IsPushed x ((target, attr) ∷ es) p possible (to, by, l) a =
      let one =
        push_new-IsPushed target (follow t x attr) p to
          (λ y h. Possible-follow x y attr possible by h) a in
      let rest =
        push_edges-IsPushed x es (push_new target (follow t x attr) p) possible l one.possible in
      record { possible = rest.possible; measured = omega (arith, one.measured, rest.measured) }

  -- With fuel for every pair that is missing and every item of work, the loop returns.
  propagate_loop-returns :
      (edges : Dict Text (List Edge)) (fuel : ℕ) (values : Dict Text (List Binding))
      (work : List (Text × Binding))
      → ((source : Text) → Listed (get_list source edges))
      → AllPossible work
      → missing values everything + length work ≤ fuel
      → (result : Dict Text (List Binding)) × (propagate_loop t edges fuel values work
          ≡ some result)
  unfolding propagate_loop
  propagate_loop-returns edges fuel values [] l a small = (values, refl)
  propagate_loop-returns edges zero values ((source, x) ∷ work) l a small = absurd (omega arith)
  propagate_loop-returns edges (suc fuel) values ((source, x) ∷ work) l (possible, a) small =
      let pushed =
        push_edges-IsPushed x (get_list source edges) (values, work) possible (l source) a in
      let p = push_edges t x (get_list source edges) (values, work) in
      propagate_loop-returns edges fuel p.0 p.1 l pushed.possible
        (omega (arith, pushed.measured, small))

Memᴰ-targets_in :
    (e : Edge) (es : List Edge) → Memᴰ e es → Memᴰ e.0 (targets_in es) × Memᴰ e.1 (attributes_in es)
unfolding targets_in attributes_in
Memᴰ-targets_in e [] m = elim m [ ]
Memᴰ-targets_in e (x ∷ es) (Memᴰ.head same) =
    (Memᴰ.head (ap (λ (y : Edge). y.0) same), Memᴰ.head (ap (λ (y : Edge). y.1) same))
Memᴰ-targets_in e (x ∷ es) (Memᴰ.tail m) =
    let (to, by) = Memᴰ-targets_in e es m in (Memᴰ.tail to, Memᴰ.tail by)

Memᴰ-get_list :
    (source : Text) (edges : Dict Text (List Edge)) (e : Edge)
    → Memᴰ e (get_list source edges)
    → Memᴰ e (all_edges edges)
unfolding all_edges lookup
Memᴰ-get_list source [] e m = elim m [ ]
Memᴰ-get_list source ((other, es) ∷ edges) e m = elim (Bool-cases (other == source)) [
  | inl same ↦
      Memᴰ.append_left (all_edges edges)
        (subst (λ b. Memᴰ e (or_empty (if b then some es else lookup source edges))) same m)
  | inr another ↦ Memᴰ.append_right es (
      Memᴰ-get_list source edges e
        (subst (λ b. Memᴰ e (or_empty (if b then some es else lookup source edges))) another m))
]

Listed_lem :
    (t : Tables) (modules : List Text) (members : List (Option Text)) (whole part : List Edge)
    → ((e : Edge) → Memᴰ e part → Memᴰ e whole)
    → Listed t (targets_in whole) modules (members ++ attributes_in whole) part
Listed_lem t modules members whole [] sub = tt
Listed_lem t modules members whole ((target, attr) ∷ part) sub =
    let (to, by) = Memᴰ-targets_in (target, attr) whole (sub (target, attr) (Memᴰ.head refl)) in
    (
      to,
      Memᴰ.append_right members by,
      Listed_lem t modules members whole part (λ e m. sub e (Memᴰ.tail m)),
    )

none_listed :
    (work : List (Text × Binding)) (source : Text) (x : Binding)
    → Memᴰ (source, x) work
    → Memᴰ x.1 (members_in work)
unfolding members_in
none_listed [] source x m = elim m [ ]
none_listed ((other, (module_name, member)) ∷ work) source x (Memᴰ.head same) =
    Memᴰ.head (ap (λ (p : Text × Binding). p.1.1) same)
none_listed ((other, (module_name, member)) ∷ work) source x (Memᴰ.tail m) =
    Memᴰ.tail (none_listed work source x m)

module_listed :
    (work : List (Text × Binding)) (source : Text) (x : Binding)
    → Memᴰ (source, x) work
    → Memᴰ x.0 (modules_in work)
unfolding modules_in
module_listed [] source x m = elim m [ ]
module_listed ((other, (module_name, member)) ∷ work) source x (Memᴰ.head same) =
    Memᴰ.head (ap (λ (p : Text × Binding). p.1.0) same)
module_listed ((other, (module_name, member)) ∷ work) source x (Memᴰ.tail m) =
    Memᴰ.tail (module_listed work source x m)

AllPossible_lem :
    (t : Tables) (targets : List Text) (attrs : List (Option Text))
    (whole part : List (Text × Binding))
    → ((p : Text × Binding) → Memᴰ p part → Memᴰ p whole)
    → AllPossible t targets (modules_in whole) (members_in whole ++ attrs) part
AllPossible_lem t targets attrs whole [] sub = tt
AllPossible_lem t targets attrs whole ((source, x) ∷ part) sub =
    let here = sub (source, x) (Memᴰ.head refl) in
    (
      (module_listed whole source x here, Memᴰ.append_left attrs (none_listed whole source x here)),
      AllPossible_lem t targets attrs whole part (λ p m. sub p (Memᴰ.tail m)),
    )

-- The while loop of propagate ends for every table and every state of the bindings, since its fuel,
-- the work at the start and the number of pairs of a target and a binding that it can ever add,
-- does not run out.
pub propagate-returns :
    (t : Tables) (b : Bindings)
    → (result : Dict Text (List Binding)) × (propagate t b ≡ some result)
unfolding propagate universe
propagate-returns t b =
    let work = start_work t b in
    let es = all_edges b.edges in
    let members = members_in work ++ attributes_in es in
    propagate_loop-returns t (targets_in es) (modules_in work) members b.edges
      (length work + length (universe b work)) b.values work
      (λ source.
        Listed_lem t (modules_in work) (members_in work) es (get_list source b.edges)
          (Memᴰ-get_list source b.edges))
      (AllPossible_lem t (targets_in es) (attributes_in es) work work (λ p m. m))
      (omega (arith, missing-le-length b.values (universe b work)))
