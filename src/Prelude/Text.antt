-- ===== src/Prelude/Text.antt =====
-- Python text as the list of its code points (lone surrogates included), and the pairs that the
-- program uses as keys.
use Prim.Native.Char.{code}
use Prim.Native.Nat.{ℕ}
use Prim.Native.String.{String}
use mathlib.Core.Path.{◌≡◌}
use mathlib.Core.Logic.{◌↔◌}
use mathlib.Core.Bool.{Bool, true, false, ◌&&◌}
use mathlib.Core.List.{List, [], ◌∷◌}
use native.Mathlib.Omega.{arith}
use qwed_a2a.Prelude.Tests.{Comparable, nat_eq}

abbrev pub Text : Type 0
Text = List ℕ

-- The text of a literal. Shut, so that proofs do not walk through messages.
unfoldable pub lit : String → Text
lit String.[] = []
lit (String.◌∷◌ c s) = code c ∷ lit s

unfoldable pub text_eq : Text → Text → Bool
text_eq [] [] = true
text_eq [] (y ∷ ys) = false
text_eq (x ∷ xs) [] = false
text_eq (x ∷ xs) (y ∷ ys) = nat_eq x y && text_eq xs ys

pub text_eq_iff : (s t : Text) → (text_eq s t ≡ true) ↔ (s ≡ t)
unfolding text_eq
text_eq_iff [] [] = ground arith
text_eq_iff [] (y ∷ ys) = ground arith
text_eq_iff (x ∷ xs) [] = ground arith
text_eq_iff (x ∷ xs) (y ∷ ys) = ground (arith, text_eq_iff xs ys)

instance abbrev pub text-Eq : Comparable Text
text-Eq = record { same = text_eq; same_iff = text_eq_iff }

abbrev pub Pair : Type 0
Pair = Text × Text

unfoldable pub pair_eq : Pair → Pair → Bool
pair_eq p q = text_eq p.0 q.0 && text_eq p.1 q.1

pub pair_eq_iff : (p q : Pair) → (pair_eq p q ≡ true) ↔ (p ≡ q)
unfolding pair_eq
pair_eq_iff p q = ground (arith, text_eq_iff p.0 q.0, text_eq_iff p.1 q.1)

instance abbrev pub pair-Eq : Comparable Pair
pair-Eq = record { same = pair_eq; same_iff = pair_eq_iff }
