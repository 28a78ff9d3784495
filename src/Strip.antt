-- ===== src/Strip.antt =====
-- `str.strip`.
use qwed_a2a.Prelude.{
  ℕ, ◌≡◌, refl, ap, inl, inr, Bool, true, false, not, [], ◌∷◌, arith, if◌then◌else◌, Bool-cases,
}
use qwed_a2a.Prelude.Text.{Text}

-- The text without spaces at its start.
unfoldable pub strip_left : (ℕ → Bool) → Text → Text
strip_left is_space [] = []
strip_left is_space (c ∷ cs) =
    let rest = strip_left is_space cs in if is_space c then rest else c ∷ cs

-- A character before a text without spaces at its end.
abbrev pub keep : (ℕ → Bool) → ℕ → Text → Text
keep is_space c [] = if is_space c then [] else c ∷ []
keep is_space c (r ∷ rs) = c ∷ (r ∷ rs)

-- The text without spaces at its end.
unfoldable pub strip_right : (ℕ → Bool) → Text → Text
strip_right is_space [] = []
strip_right is_space (c ∷ cs) = keep is_space c (strip_right is_space cs)

unfoldable pub strip : (ℕ → Bool) → Text → Text
unfolding strip_left strip_right
strip is_space t = strip_right is_space (strip_left is_space t)

-- Of a text without spaces at its start or its end nothing is stripped.
abbrev starts_well : (ℕ → Bool) → Text → Bool
starts_well is_space [] = true
starts_well is_space (c ∷ cs) = not (is_space c)

strip_left-starts_well :
    (is_space : ℕ → Bool) (t : Text) → starts_well is_space (strip_left is_space t) ≡ true
unfolding strip_left
strip_left-starts_well is_space [] = refl
strip_left-starts_well is_space (c ∷ cs) = elim (Bool-cases (is_space c)) [
  | inl space ↦ rw space (strip_left-starts_well is_space cs)
  | inr other ↦ rw other (ground arith)
]

keep-starts_well :
    (is_space : ℕ → Bool) (c : ℕ) (cs : Text)
    → is_space c ≡ false
    → starts_well is_space (keep is_space c cs) ≡ true
keep-starts_well is_space c [] h = rw h (ground arith)
keep-starts_well is_space c (r ∷ rs) h = rw h refl

strip_right-starts_well :
    (is_space : ℕ → Bool) (t : Text)
    → starts_well is_space t ≡ true
    → starts_well is_space (strip_right is_space t) ≡ true
unfolding strip_right
strip_right-starts_well is_space [] h = refl
strip_right-starts_well is_space (c ∷ cs) h =
    keep-starts_well is_space c (strip_right is_space cs) (ground arith)

strip_left_idle :
    (is_space : ℕ → Bool) (t : Text) → starts_well is_space t ≡ true → strip_left is_space t ≡ t
unfolding strip_left
strip_left_idle is_space [] h = refl
strip_left_idle is_space (c ∷ cs) h = let other : is_space c ≡ false = ground arith in rw other refl

strip_right-keep :
    (is_space : ℕ → Bool) (c : ℕ) (cs : Text)
    → strip_right is_space cs ≡ cs
    → strip_right is_space (keep is_space c cs) ≡ keep is_space c cs
unfolding strip_right
strip_right-keep is_space c [] h = elim (Bool-cases (is_space c)) [
  | inl e ↦ rw e refl
  | inr e ↦ rw (e, e) refl
]
strip_right-keep is_space c (r ∷ rs) h = ap (keep is_space c) h

strip_right_again :
    (is_space : ℕ → Bool) (t : Text)
    → strip_right is_space (strip_right is_space t) ≡ strip_right is_space t
unfolding strip_right
strip_right_again is_space [] = refl
strip_right_again is_space (c ∷ cs) =
    strip_right-keep is_space c (strip_right is_space cs) (strip_right_again is_space cs)

-- Stripping twice is stripping once.
pub strip_again :
    (is_space : ℕ → Bool) (t : Text) → strip is_space (strip is_space t) ≡ strip is_space t
unfolding strip
strip_again is_space t =
    let begins =
      strip_right-starts_well is_space (strip_left is_space t)
        (strip_left-starts_well is_space t) in
    rw (strip_left_idle is_space (strip_right is_space (strip_left is_space t)) begins)
      (strip_right_again is_space (strip_left is_space t))
