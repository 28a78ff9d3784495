-- ===== src/Interceptor/Bindings/Closure.antt =====
-- What `propagate` computes: the bindings that flow to a name along assignments, and no others.
use mathlib.Core.Option.{some-injective}
use mathlib.Core.List.{Memᴰ, reverse_aux}
use mathlib.Core.List.Memᴰ
use qwed_a2a.Prelude.{
  ℕ, zero, suc, ◌+◌, ◌≡◌, ◌↔◌, ◌⊎◌, inl, inr, refl, sym, ap, subst, Bool, true, ◌||◌, Option, some,
  List, [], ◌∷◌, arith, if◌then◌else◌, ◌==◌, ==_iff, contains, length, Bool-cases,
}
use qwed_a2a.Prelude.Text.{Text, text-Eq}
use qwed_a2a.Dict.{Dict, lookup}
use qwed_a2a.Interceptor.Bindings.{
  Binding, binding-Eq, Edge, Tables, Bindings, get_list, or_empty, follow, Progress, push_edges,
  propagate_loop, union, values_in, values_of, paired, all_work, start_work, propagate, universe,
}
use qwed_a2a.Interceptor.Bindings.Termination.{knows}
use qwed_a2a.Interceptor.Bindings.Follows.{push_edges-Follows}

-- A name may be bound to what it is given, and to what follows from an assignment to it.
pub data Bound (t : Tables) (b : Bindings) : Text → Binding → Type 0 where
  given :
      (source : Text) (x : Binding) → contains x (values_of t b source) ≡ true → Bound t b source x
  flows :
      (source target : Text) (attr : Option Text) (x y : Binding)
      → Bound t b source x
      → Memᴰ (target, attr) (get_list source b.edges)
      → follow t x attr ≡ some y
      → Bound t b target y

contains-union :
    (x : Binding) (xs ys : List Binding)
    → contains x (union xs ys) ≡ (contains x xs || contains x ys)
unfolding contains union
contains-union x [] ys = refl
contains-union x (y ∷ xs) ys =
    ground (arith, contains-union x xs ys, contains-union y xs ys, ==_iff y x)

-- What a name holds: what is known of it, and what it denotes anyway.
abbrev holds : Tables → Dict Text (List Binding) → Text → Binding → Bool
holds t values source x = contains x (values_in t values source)

holds_lem :
    (t : Tables) (values : Dict Text (List Binding)) (source : Text) (x : Binding)
    → holds t values source x ≡ (knows values source x || contains x (get_list source t.implicit))
unfolding values_in
holds_lem t values source x = contains-union x (get_list source values) (get_list source t.implicit)

-- What the loop keeps: all that is known or waiting is bound, what a name held at the start it holds,
-- and what a name holds waits or has been followed along the name's edges.
record Inv (t : Tables) (b : Bindings) (p : Progress) : Type 0 where
  sound : (s : Text) (x : Binding) → holds t p.0 s x ≡ true → Bound t b s x
  waiting : (s : Text) (x : Binding) → Memᴰ (s, x) p.1 → Bound t b s x
  kept : (s : Text) (x : Binding) → holds t b.values s x ≡ true → holds t p.0 s x ≡ true
  closed :
      (s target : Text) (attr : Option Text) (x y : Binding)
      → holds t p.0 s x ≡ true
      → Memᴰ (target, attr) (get_list s b.edges)
      → follow t x attr ≡ some y
      → Memᴰ (s, x) p.1 ⊎ (holds t p.0 target y ≡ true)

holds_known :
    (t : Tables) (values : Dict Text (List Binding)) (s : Text) (x : Binding)
    → knows values s x ≡ true
    → holds t values s x ≡ true
holds_known t values s x h = rw (holds_lem t values s x, h) refl

holds_grows :
    (t : Tables) (values values' : Dict Text (List Binding)) (s : Text) (x : Binding)
    → (knows values s x ≡ true → knows values' s x ≡ true)
    → holds t values s x ≡ true
    → holds t values' s x ≡ true
holds_grows t values values' s x grow h =
    ground (arith, holds_lem t values s x, holds_lem t values' s x)

holds_fresh :
    (t : Tables) (values values' : Dict Text (List Binding)) (s : Text) (x : Binding)
    → holds t values' s x ≡ true
    → (knows values' s x ≡ true) ⊎ (holds t values s x ≡ true)
holds_fresh t values values' s x h = ground (arith, holds_lem t values s x, holds_lem t values' s x)

-- One round of the loop.
Inv-step :
    (t : Tables) (b : Bindings) (values : Dict Text (List Binding)) (source : Text) (x : Binding)
    (work : List (Text × Binding))
    → Inv t b (values, (source, x) ∷ work)
    → Inv t b (push_edges t x (get_list source b.edges) (values, work))
Inv-step t b values source x work inv =
    let es = get_list source b.edges in
    let q = push_edges t x es (values, work) in
    let f = push_edges-Follows t x es (values, work) in
    let waiting' : (s : Text) (y : Binding) → Memᴰ (s, y) q.1 → Bound t b s y = λ s y m.
      elim (f.sources s y m) [
        | inl old ↦ inv.waiting s y (Memᴰ.tail old)
        | inr (attr, e, is) ↦ flows source s attr x y (inv.waiting source x (Memᴰ.head refl)) e is
      ] in
    let before : (s target : Text) (attr : Option Text) (y z : Binding)
        → holds t values s y ≡ true
        → Memᴰ (target, attr) (get_list s b.edges)
        → follow t y attr ≡ some z
        → Memᴰ (s, y) q.1 ⊎ (holds t q.0 target z ≡ true) =
      λ s target attr y z h e is. elim (inv.closed s target attr y z h e is) [
        | inl m ↦ elim (Memᴰ.cases_cons m) [
          | inl same ↦ inr (
              holds_known t q.0 target z (
                f.followed target attr z
                  (subst (λ (p : Text × Binding). Memᴰ (target, attr) (get_list p.0 b.edges)) same
                    e)
                  (subst (λ (p : Text × Binding). follow t p.1 attr ≡ some z) same is)))
          | inr waits ↦ inl (f.waits s y waits)
        ]
        | inr old ↦ inr (holds_grows t values q.0 target z (f.grows target z) old)
      ] in
    record {
      sound = λ s y h. elim (holds_fresh t values q.0 s y h) [
        | inl known ↦ elim (f.fresh s y known) [
          | inl old ↦ inv.sound s y (holds_known t values s y old)
          | inr m ↦ waiting' s y m
        ]
        | inr old ↦ inv.sound s y old
      ];
      waiting = waiting';
      kept = λ s y h. holds_grows t values q.0 s y (f.grows s y) (inv.kept s y h);
      closed = λ s target attr y z h e is. elim (holds_fresh t values q.0 s y h) [
        | inl known ↦ elim (f.fresh s y known) [
          | inl old ↦ before s target attr y z (holds_known t values s y old) e is
          | inr m ↦ inl m
        ]
        | inr old ↦ before s target attr y z old e is
      ];
    }

propagate_loop-Inv :
    (t : Tables) (b : Bindings) (fuel : ℕ) (values result : Dict Text (List Binding))
    (work : List (Text × Binding))
    → propagate_loop t b.edges fuel values work ≡ some result
    → Inv t b (values, work)
    → Inv t b (result, [])
unfolding propagate_loop
propagate_loop-Inv t b fuel values result [] h inv =
    subst (λ v. Inv t b (v, [])) (some-injective values result h) inv
propagate_loop-Inv t b zero values result ((source, x) ∷ work) h inv = absurd (cc)
propagate_loop-Inv t b (suc fuel) values result ((source, x) ∷ work) h inv =
    let p = push_edges t x (get_list source b.edges) (values, work) in
    propagate_loop-Inv t b fuel p.0 result p.1 h (Inv-step t b values source x work inv)

Memᴰ-contains : (x : Binding) (xs : List Binding) → Memᴰ x xs → contains x xs ≡ true
unfolding contains
Memᴰ-contains x [] m = elim m [ ]
Memᴰ-contains x (y ∷ xs) (Memᴰ.head e) = ground (arith, e, ==_iff y x)
Memᴰ-contains x (y ∷ xs) (Memᴰ.tail m) = ground (arith, Memᴰ-contains x xs m)

contains-Memᴰ : (x : Binding) (xs : List Binding) → contains x xs ≡ true → Memᴰ x xs
unfolding contains
contains-Memᴰ x [] h = absurd (cc)
contains-Memᴰ x (y ∷ xs) h = elim (Bool-cases (y == x)) [
  | inl same ↦ Memᴰ.head (sym ((==_iff y x).0 same))
  | inr other ↦ Memᴰ.tail (contains-Memᴰ x xs (ground arith))
]

paired_inv :
    (source : Text) (xs : List Binding) (s : Text) (x : Binding)
    → Memᴰ (s, x) (paired source xs)
    → (s ≡ source) × Memᴰ x xs
paired_inv source [] s x m = elim m [ ]
paired_inv source (y ∷ xs) s x (Memᴰ.head e) =
    (ap (λ (p : Text × Binding). p.0) e, Memᴰ.head (ap (λ (p : Text × Binding). p.1) e))
paired_inv source (y ∷ xs) s x (Memᴰ.tail m) =
    let (same, n) = paired_inv source xs s x m in (same, Memᴰ.tail n)

Memᴰ-paired :
    (source : Text) (xs : List Binding) (x : Binding)
    → Memᴰ x xs
    → Memᴰ (source, x) (paired source xs)
Memᴰ-paired source [] x m = elim m [ ]
Memᴰ-paired source (y ∷ xs) x (Memᴰ.head e) = Memᴰ.head (ap (λ z. (source, z)) e)
Memᴰ-paired source (y ∷ xs) x (Memᴰ.tail m) = Memᴰ.tail (Memᴰ-paired source xs x m)

all_work_sound :
    (t : Tables) (values : Dict Text (List Binding)) (edges : Dict Text (List Edge)) (s : Text)
    (x : Binding)
    → Memᴰ (s, x) (all_work t values edges)
    → Memᴰ x (values_in t values s)
unfolding all_work
all_work_sound t values [] s x m = elim m [ ]
all_work_sound t values ((source, es) ∷ edges) s x m =
    elim (Memᴰ.append_cases (paired source (values_in t values source)) m) [
      | inl here ↦
          let (same, n) = paired_inv source (values_in t values source) s x here in
          subst (λ z. Memᴰ x (values_in t values z)) (sym same) n
      | inr later ↦ all_work_sound t values edges s x later
    ]

all_work_complete :
    (t : Tables) (values : Dict Text (List Binding)) (edges : Dict Text (List Edge)) (s : Text)
    (x : Binding) (e : Edge)
    → Memᴰ e (get_list s edges)
    → Memᴰ x (values_in t values s)
    → Memᴰ (s, x) (all_work t values edges)
unfolding all_work lookup
all_work_complete t values [] s x e m n = elim m [ ]
all_work_complete t values ((source, es) ∷ edges) s x e m n = elim (Bool-cases (source == s)) [
  | inl same ↦ Memᴰ.append_left (all_work t values edges) (
      subst (λ z. Memᴰ (s, x) (paired z (values_in t values z))) (sym ((==_iff source s).0 same))
        (Memᴰ-paired s (values_in t values s) x n))
  | inr other ↦ Memᴰ.append_right (paired source (values_in t values source)) (
      all_work_complete t values edges s x e
        (subst (λ b. Memᴰ e (or_empty (if b then some es else lookup s edges))) other m) n)
]

reverse_aux_inv {ℓ} :
    {A : Type ℓ} (a : A) (xs ys : List A) → Memᴰ a (reverse_aux xs ys) → Memᴰ a xs ⊎ Memᴰ a ys
reverse_aux_inv a [] ys m = inr m
reverse_aux_inv a (x ∷ xs) ys m = elim (reverse_aux_inv a xs (x ∷ ys) m) [
  | inl n ↦ inl (Memᴰ.tail n)
  | inr n ↦ elim (Memᴰ.cases_cons n) [ inl e ↦ inl (Memᴰ.head e) | inr k ↦ inr k ]
]

Memᴰ-reverse_aux {ℓ} :
    {A : Type ℓ} (a : A) (xs ys : List A) → Memᴰ a xs ⊎ Memᴰ a ys → Memᴰ a (reverse_aux xs ys)
Memᴰ-reverse_aux a [] ys (inl m) = elim m [ ]
Memᴰ-reverse_aux a [] ys (inr m) = m
Memᴰ-reverse_aux a (x ∷ xs) ys (inr m) = Memᴰ-reverse_aux a xs (x ∷ ys) (inr (Memᴰ.tail m))
Memᴰ-reverse_aux a (x ∷ xs) ys (inl m) = elim (Memᴰ.cases_cons m) [
  | inl e ↦ Memᴰ-reverse_aux a xs (x ∷ ys) (inr (Memᴰ.head e))
  | inr n ↦ Memᴰ-reverse_aux a xs (x ∷ ys) (inl n)
]

Inv-start : (t : Tables) (b : Bindings) → Inv t b (b.values, start_work t b)
unfolding start_work values_of
Inv-start t b = record {
  sound = λ s x h. given s x h;
  waiting = λ s x m. given s x (
      Memᴰ-contains x (values_in t b.values s) (
        all_work_sound t b.values b.edges s x
          (elim (reverse_aux_inv (s, x) (all_work t b.values b.edges) [] m) [
            | inl n ↦ n
            | inr n ↦ absurd (Memᴰ.not-nil n)
          ])));
  kept = λ s x h. h;
  closed = λ s target attr x y h e is. inl (
      Memᴰ-reverse_aux (s, x) (all_work t b.values b.edges) []
        (inl (
          all_work_complete t b.values b.edges s x (target, attr) e
            (contains-Memᴰ x (values_in t b.values s) h))));
}

complete :
    (t : Tables) (b : Bindings) (result : Dict Text (List Binding))
    → Inv t b (result, [])
    → (source : Text) (x : Binding) → Bound t b source x
    → holds t result source x ≡ true
unfolding values_of
complete t b result inv source x (given s y h) = inv.kept s y h
complete t b result inv source x (flows s target attr y z bound e is) =
    elim (inv.closed s target attr y z (complete t b result inv s y bound) e is) [
      | inl m ↦ absurd (Memᴰ.not-nil m)
      | inr h ↦ h
    ]

-- When propagate returns, the bindings that a name holds are exactly those that the rules give it:
-- what was given to it or what it denotes anyway, and what follows along an assignment to it from
-- what another name may be bound to.
pub propagate_iff :
    (t : Tables) (b : Bindings) (result : Dict Text (List Binding)) (source : Text) (x : Binding)
    → propagate t b ≡ some result
    → (contains x (values_in t result source) ≡ true) ↔ Bound t b source x
unfolding propagate values_of
propagate_iff t b result source x h =
    let work = start_work t b in
    let inv =
      propagate_loop-Inv t b (length work + length (universe b work)) b.values result work h
        (Inv-start t b) in
    (inv.sound source x, complete t b result inv source x)
