-- ===== src/Interceptor/Scan/Reported.antt =====
-- When the lists of threats that a scan collects report anything.
use qwed_a2a.Prelude.{
  ◌≡◌, ◌↔◌, ◌⊎◌, inl, inr, refl, sym, subst, Bool, true, false, ◌||◌, List, [], ◌∷◌, ◌++◌, arith,
  ◌==◌, ==_iff, contains, Bool-cases,
}
use qwed_a2a.Prelude.Text.{Text, text-Eq}
use qwed_a2a.Interceptor.Logic.{sorted, insert_sorted, text_le}
use qwed_a2a.Interceptor.Bindings.{Binding, binding-Eq}
use qwed_a2a.Interceptor.Scan.{collect, is_getattr, any_getattr}

-- Whether a scan reports anything.
abbrev pub reports : List Text → Bool
reports [] = false
reports (t ∷ ts) = true

pub reports-append : (xs ys : List Text) → reports (xs ++ ys) ≡ (reports xs || reports ys)
reports-append [] ys = refl
reports-append (x ∷ xs) ys = refl

reports-insert_sorted : (x : Text) (xs : List Text) → reports (insert_sorted x xs) ≡ true
unfolding insert_sorted
reports-insert_sorted x [] = refl
reports-insert_sorted x (y ∷ ys) = elim (Bool-cases (text_le x y)) [
  | inl e ↦ rw e refl
  | inr e ↦ rw e refl
]

pub reports-sorted : (xs : List Text) → reports (sorted xs) ≡ reports xs
unfolding sorted
reports-sorted [] = refl
reports-sorted (x ∷ xs) = reports-insert_sorted x (sorted xs)

-- A binding among others of which something holds.
abbrev pub Some : (Binding → Bool) → List Binding → Type 0
Some p xs = (x : Binding) × (contains x xs ≡ true) × (p x ≡ true)

Some-later : (p : Binding → Bool) (x : Binding) (xs : List Binding) → Some p xs → Some p (x ∷ xs)
unfolding contains
Some-later p x xs (y, m, h) = (y, ground arith, h)

Some-here : (p : Binding → Bool) (x : Binding) (xs : List Binding) → p x ≡ true → Some p (x ∷ xs)
unfolding contains
Some-here p x xs h = (x, ground (arith, ==_iff x x), h)

Some-cases :
    (p : Binding → Bool) (x : Binding) (xs : List Binding)
    → Some p (x ∷ xs)
    → (p x ≡ true) ⊎ Some p xs
unfolding contains
Some-cases p x xs (y, m, h) = elim (Bool-cases (x == y)) [
  | inl same ↦ inl (subst (λ z. p z ≡ true) (sym ((==_iff x y).0 same)) h)
  | inr other ↦ inr (y, ground arith, h)
]

pub reports-collect_iff :
    (f : Binding → List Text) (xs : List Binding)
    → (reports (collect f xs) ≡ true) ↔ Some (λ x. reports (f x)) xs
unfolding contains
reports-collect_iff f [] = ((λ h. absurd (cc)), (λ s. absurd (ground (arith, s.1))))
reports-collect_iff f (x ∷ xs) =
    let p = λ (z : Binding). reports (f z) in
    let later = reports-collect_iff f xs in
    (
      (λ h. elim (Bool-cases (reports (f x))) [
        | inl here ↦ Some-here p x xs here
        | inr not_here ↦
            Some-later p x xs (later.0 (ground (arith, reports-append (f x) (collect f xs))))
      ]),
      (λ s. rw (reports-append (f x) (collect f xs)) (elim (Some-cases p x xs s) [
        | inl here ↦ ground arith
        | inr there ↦ ground (arith, later.1 there)
      ])),
    )

pub any_getattr_iff : (xs : List Binding) → (any_getattr xs ≡ true) ↔ Some is_getattr xs
unfolding any_getattr contains
any_getattr_iff [] = ((λ h. absurd (cc)), (λ s. absurd (ground (arith, s.1))))
any_getattr_iff (x ∷ xs) =
    let later = any_getattr_iff xs in
    (
      (λ h. elim (Bool-cases (is_getattr x)) [
        | inl here ↦ Some-here is_getattr x xs here
        | inr not_here ↦ Some-later is_getattr x xs (later.0 (ground arith))
      ]),
      (λ s. elim (Some-cases is_getattr x xs s) [
        | inl here ↦ ground arith
        | inr there ↦ ground (arith, later.1 there)
      ]),
    )
