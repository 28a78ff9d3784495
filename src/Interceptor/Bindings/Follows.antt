-- ===== src/Interceptor/Bindings/Follows.antt =====
-- The work of one binding along the edges of its name.
use mathlib.Core.List.{Memᴰ}
use mathlib.Core.List.Memᴰ
use qwed_a2a.Prelude.{
  ◌≡◌, ◌⊎◌, inl, inr, sym, ◌∙◌, ap, subst, true, Option, none, some, List, [], ◌∷◌, arith, ◌==◌,
  ==_iff, Bool-cases,
}
use qwed_a2a.Prelude.Text.{Text, text-Eq}
use qwed_a2a.Interceptor.Bindings.{
  Binding, binding-Eq, Edge, Tables, follow, Progress, push_new, push_edges,
}
use qwed_a2a.Interceptor.Bindings.Termination.{knows, knows-add_value}

-- The work of a binding along edges: what was known or waiting stays so, every edge is followed, and
-- what is new waits and comes of an edge.
pub record Follows (t : Tables) (x : Binding) (es : List Edge) (p q : Progress) : Type 0 where
  pub grows : (s : Text) (y : Binding) → knows p.0 s y ≡ true → knows q.0 s y ≡ true
  pub waits : (s : Text) (y : Binding) → Memᴰ (s, y) p.1 → Memᴰ (s, y) q.1
  pub followed :
      (s : Text) (attr : Option Text) (y : Binding)
      → Memᴰ (s, attr) es
      → follow t x attr ≡ some y
      → knows q.0 s y ≡ true
  pub fresh :
      (s : Text) (y : Binding) → knows q.0 s y ≡ true → (knows p.0 s y ≡ true) ⊎ Memᴰ (s, y) q.1
  pub sources :
      (s : Text) (y : Binding)
      → Memᴰ (s, y) q.1
      → Memᴰ (s, y) p.1 ⊎ ((attr : Option Text) × Memᴰ (s, attr) es × (follow t x attr ≡ some y))

push_new_known :
    (target : Text) (y : Binding) (p : Progress)
    → knows (push_new target (some y) p).0 target y ≡ true
unfolding push_new
push_new_known target y (values, work) = elim (Bool-cases (knows values target y)) [
  | inl known ↦ rw known known
  | inr new ↦ rw (new, knows-add_value) (ground (arith, ==_iff target target, ==_iff y y))
]

push_new_grows :
    (target : Text) (o : Option Binding) (p : Progress) (s : Text) (y : Binding)
    → knows p.0 s y ≡ true
    → knows (push_new target o p).0 s y ≡ true
unfolding push_new
push_new_grows target none p s y h = h
push_new_grows target (some x) (values, work) s y h = elim (Bool-cases (knows values target x)) [
  | inl known ↦ rw known h
  | inr new ↦ rw (new, knows-add_value) (ground (arith, ==_iff target s))
]

push_new_waits :
    (target : Text) (o : Option Binding) (p : Progress) (s : Text) (y : Binding)
    → Memᴰ (s, y) p.1
    → Memᴰ (s, y) (push_new target o p).1
unfolding push_new
push_new_waits target none p s y m = m
push_new_waits target (some x) (values, work) s y m = elim (Bool-cases (knows values target x)) [
  | inl known ↦ rw known m
  | inr new ↦ rw new (Memᴰ.tail m)
]

push_new_fresh :
    (target : Text) (o : Option Binding) (p : Progress) (s : Text) (y : Binding)
    → knows (push_new target o p).0 s y ≡ true
    → (knows p.0 s y ≡ true) ⊎ Memᴰ (s, y) (push_new target o p).1
unfolding push_new
push_new_fresh target none p s y = λ h. inl h
push_new_fresh target (some x) (values, work) s y = elim (Bool-cases (knows values target x)) [
  | inl known ↦ rw known (λ h. inl h)
  | inr new ↦
      rw (new, knows-add_value)
        (λ h. elim (Bool-cases (target == s)) [
          | inl same ↦ elim (Bool-cases (x == y)) [
            | inl is ↦ inr (Memᴰ.head (ground (arith, ==_iff target s, ==_iff x y)))
            | inr other ↦ inl (ground (arith, ==_iff target s))
          ]
          | inr another ↦ inl (ground arith)
        ])
]

push_new_sources :
    (target : Text) (o : Option Binding) (p : Progress) (s : Text) (y : Binding)
    → Memᴰ (s, y) (push_new target o p).1
    → Memᴰ (s, y) p.1 ⊎ ((s ≡ target) × (o ≡ some y))
unfolding push_new
push_new_sources target none p s y = λ m. inl m
push_new_sources target (some x) (values, work) s y = elim (Bool-cases (knows values target x)) [
  | inl known ↦ rw known (λ m. inl m)
  | inr new ↦ rw new (λ m. elim (Memᴰ.cases_cons m) [
    | inl same ↦
        inr
          (ap (λ (q : Text × Binding). q.0) same, ap (λ (q : Text × Binding). some q.1) (sym same))
    | inr old ↦ inl old
  ])
]

pub push_edges-Follows :
    (t : Tables) (x : Binding) (es : List Edge) (p : Progress)
    → Follows t x es p (push_edges t x es p)
unfolding push_edges
push_edges-Follows t x [] p = record {
  grows = λ s y h. h;
  waits = λ s y m. m;
  followed = λ s attr y m. elim m [ ];
  fresh = λ s y h. inl h;
  sources = λ s y m. inl m;
}
push_edges-Follows t x ((target, attr) ∷ es) p =
    let o = follow t x attr in
    let one = push_new target o p in
    let rest = push_edges-Follows t x es one in
    record {
      grows = λ s y h. rest.grows s y (push_new_grows target o p s y h);
      waits = λ s y m. rest.waits s y (push_new_waits target o p s y m);
      followed = λ s a y m f. elim (Memᴰ.cases_cons m) [
        | inl same ↦
            let is : o ≡ some y = ap (λ (e : Edge). follow t x e.1) (sym same) ∙ f in
            let known : knows one.0 target y ≡ true =
              subst (λ o'. knows (push_new target o' p).0 target y ≡ true) (sym is)
                (push_new_known target y p) in
            rest.grows s y
              (subst (λ z. knows one.0 z y ≡ true) (sym (ap (λ (e : Edge). e.0) same)) known)
        | inr later ↦ rest.followed s a y later f
      ];
      fresh = λ s y h. elim (rest.fresh s y h) [
        | inl before ↦ elim (push_new_fresh target o p s y before) [
          | inl old ↦ inl old
          | inr m ↦ inr (rest.waits s y m)
        ]
        | inr m ↦ inr m
      ];
      sources = λ s y m. elim (rest.sources s y m) [
        | inl before ↦ elim (push_new_sources target o p s y before) [
          | inl old ↦ inl old
          | inr (same, is) ↦ inr (attr, Memᴰ.head (ap (λ z. (z, attr)) same), is)
        ]
        | inr (a, m', f) ↦ inr (a, Memᴰ.tail m', f)
      ];
    }
