-- ===== src/Warn/Examples.antt =====
-- The warnings of small sequences of calls.
use qwed_a2a.Prelude.{◌+◌, ◌*◌, ◌≤◌, ◌≡◌, refl, none, some, [], ◌∷◌, arith, length}
use qwed_a2a.Warn.{is_due, warned, warn_interval, length-warned, test, log, logged_unlocked}

length-warned_example :
    5 + length (warned (10 ∷ (70000000 ∷ (60000005 ∷ []))) (some 5)) * warn_interval ≤ 70000000
length-warned_example =
    length-warned (10 ∷ (70000000 ∷ (60000005 ∷ []))) 5 70000000
      (omega arith, (omega arith, (omega arith, tt))) (omega arith)

-- Without a lock two calls in the same minute both log.
logged_twice : logged_unlocked (test 1 ∷ (test 2 ∷ (log ∷ (log ∷ [])))) none [] ≡ 1 ∷ (2 ∷ [])
unfolding logged_unlocked is_due
logged_twice = refl
