-- ===== src/Interceptor/Heuristic.antt =====
-- The logic guard and the code guard never report a payload as verified.
use qwed_a2a.Prelude.{
  ℕ, ◌≡◌, inl, inr, refl, false, Option, none, some, List, [], ◌∷◌, ltb, Bool-cases,
}
use qwed_a2a.Prelude.Text.{Text, text-Eq}
use qwed_a2a.Schema.{status-Eq}
use qwed_a2a.Interceptor.Message.{
  Value, string, null, boolean, integer, float, array, object, item, no_items, Fields, is_falsy,
}
use qwed_a2a.Interceptor.Claim.{Unicode}
use qwed_a2a.Interceptor.Ast.{Node}
use qwed_a2a.Interceptor.Logic.{
  Read, report, judge, both, sorted, verify_assertions, verify_logic, all_read, stopped,
}
use qwed_a2a.Interceptor.Code.{
  Scanner, scan_both, scan_parsed, scan_source, verify_source, verify_code, utf8_length,
}

-- The logic guard never verifies.
report_lem : (keys : List Text) → (report keys).verified ≡ false
unfolding report
report_lem [] = refl
report_lem (key ∷ keys) = refl

judge_lem : (r : Read) → (judge r).verified ≡ false
unfolding judge
judge_lem (stopped reason) = refl
judge_lem (all_read positive negative) = report_lem (sorted (both positive negative))

verify_assertions_lem : (u : Unicode) (o : Option Value) → (verify_assertions u o).verified ≡ false
unfolding verify_assertions
verify_assertions_lem u none = refl
verify_assertions_lem u (some (array no_items)) = refl
verify_assertions_lem u (some (array (item v vs))) = judge_lem _
verify_assertions_lem u (some null) = refl
verify_assertions_lem u (some (boolean b)) = refl
verify_assertions_lem u (some (integer n)) = refl
verify_assertions_lem u (some (float x)) = refl
verify_assertions_lem u (some (string x)) = refl
verify_assertions_lem u (some (object x)) = refl

pub verify_logic-never_verifies :
    (u : Unicode) (payload : Fields) → (verify_logic u payload).verified ≡ false
unfolding verify_logic
verify_logic-never_verifies u payload = verify_assertions_lem u _

-- Neither does the code guard.
scan_both_lem : (a r : List Text) → (scan_both a r).verified ≡ false
unfolding scan_both
scan_both_lem [] [] = refl
scan_both_lem [] (t ∷ ts) = refl
scan_both_lem (t ∷ ts) r = refl

scan_parsed_lem :
    (s : Scanner) (code : Text) (o : Option (List Node)) → (scan_parsed s code o).verified ≡ false
unfolding scan_parsed
scan_parsed_lem s code none = refl
scan_parsed_lem s code (some tree) = scan_both_lem _ _

scan_source_lem : (s : Scanner) (n : ℕ) (v : Value) → (scan_source s n v).verified ≡ false
unfolding scan_source
scan_source_lem s n (string code) = elim (Bool-cases (ltb n (utf8_length code))) [
  | inl e ↦ rw e refl
  | inr e ↦ rw e (scan_parsed_lem s code (s.parse code))
]
scan_source_lem s n (array no_items) = refl
scan_source_lem s n (array (item v vs)) = refl
scan_source_lem s n null = refl
scan_source_lem s n (boolean b) = refl
scan_source_lem s n (integer x) = refl
scan_source_lem s n (float x) = refl
scan_source_lem s n (object x) = refl

verify_source_lem :
    (s : Scanner) (n : ℕ) (o : Option Value) → (verify_source s n o).verified ≡ false
unfolding verify_source
verify_source_lem s n none = refl
verify_source_lem s n (some v) = elim (Bool-cases (is_falsy v)) [
  | inl e ↦ rw e refl
  | inr e ↦ rw e (scan_source_lem s n v)
]

pub verify_code-never_verifies :
    (s : Scanner) (n : ℕ) (payload : Fields) → (verify_code s n payload).verified ≡ false
unfolding verify_code
verify_code-never_verifies s n payload = verify_source_lem s n _
