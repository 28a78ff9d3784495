-- ===== src/Interceptor/Regex/Occurs.antt =====
-- The search against a description of matching that has no order of search.
use qwed_a2a.Prelude.{
  ℕ, ◌≡◌, ◌⊎◌, ◌↔◌, inl, inr, refl, Bool, true, false, ◌&&◌, ◌||◌, Option, none, some, [], ◌∷◌,
  ◌==◌, nat-Eq, ==_iff,
}
use qwed_a2a.Prelude.Text.{Text}
use qwed_a2a.Interceptor.Regex.{
  CharClasses, Regex, nothing, spaces, boundary, character, either, both, fold_case, at_boundary,
  match_spaces, matches, search_from, search,
}

module _ (u : CharClasses) where
  -- A pattern leads from one position to another: the character before it, and the text from it on.
  pub data Matches : Regex → Option ℕ → Text → Option ℕ → Text → Type 0 where
    is_nothing : (b : Option ℕ) (t : Text) → Matches nothing b t b t
    no_space : (b : Option ℕ) (t : Text) → Matches spaces b t b t
    one_space :
        (b : Option ℕ) (c : ℕ) (t : Text) (b' : Option ℕ) (t' : Text)
        → u.is_space c ≡ true
        → Matches spaces (some c) t b' t'
        → Matches spaces b (c ∷ t) b' t'
    is_boundary : (b : Option ℕ) (t : Text) → at_boundary u b t ≡ true → Matches boundary b t b t
    same_letter :
        (c d : ℕ) (b : Option ℕ) (t : Text)
        → fold_case d ≡ c
        → Matches (character c) b (d ∷ t) (some d) t
    is_left :
        (r s : Regex) (b : Option ℕ) (t : Text) (b' : Option ℕ) (t' : Text)
        → Matches r b t b' t'
        → Matches (either r s) b t b' t'
    is_right :
        (r s : Regex) (b : Option ℕ) (t : Text) (b' : Option ℕ) (t' : Text)
        → Matches s b t b' t'
        → Matches (either r s) b t b' t'
    in_turn :
        (r s : Regex) (b : Option ℕ) (t : Text) (b' : Option ℕ) (t' : Text) (b'' : Option ℕ)
        (t'' : Text)
        → Matches r b t b' t'
        → Matches s b' t' b'' t''
        → Matches (both r s) b t b'' t''

  -- A match that ends where the continuation accepts.
  abbrev Accepted : Regex → Option ℕ → Text → (Option ℕ → Text → Bool) → Type 0
  Accepted r b t k = (b' : Option ℕ) × (t' : Text) × Matches r b t b' t' × (k b' t' ≡ true)

  or_cases : (a b : Bool) → (a || b) ≡ true → (a ≡ true) ⊎ (b ≡ true)
  or_cases true b h = inl refl
  or_cases false b h = inr h

  and_cases : (a b : Bool) → (a && b) ≡ true → (a ≡ true) × (b ≡ true)
  and_cases true b h = (refl, h)
  and_cases false b h = absurd (cc)

  match_spaces-Accepted :
      (b : Option ℕ) (t : Text) (k : Option ℕ → Text → Bool)
      → match_spaces u b t k ≡ true
      → Accepted spaces b t k
  unfolding match_spaces
  match_spaces-Accepted b [] k h = (b, [], no_space b [], h)
  match_spaces-Accepted b (c ∷ cs) k h =
      elim (or_cases (k b (c ∷ cs)) (u.is_space c && match_spaces u (some c) cs k) h) [
        | inl now ↦ (b, c ∷ cs, no_space b (c ∷ cs), now)
        | inr more ↦
            let (space, rest) = and_cases (u.is_space c) (match_spaces u (some c) cs k) more in
            let (b', t', m, accepts) = match_spaces-Accepted (some c) cs k rest in
            (b', t', one_space b c cs b' t' space m, accepts)
      ]

  match_character-Accepted :
      (c : ℕ) (b : Option ℕ) (t : Text) (k : Option ℕ → Text → Bool)
      → matches u (character c) b t k ≡ true
      → Accepted (character c) b t k
  unfolding matches
  match_character-Accepted c b [] k h = absurd (cc)
  match_character-Accepted c b (d ∷ ds) k h =
      let (same, rest) = and_cases (fold_case d == c) (k (some d) ds) h in
      (some d, ds, same_letter c d b ds ((==_iff (fold_case d) c).0 same), rest)

  matches-Accepted :
      (r : Regex) (b : Option ℕ) (t : Text) (k : Option ℕ → Text → Bool)
      → matches u r b t k ≡ true
      → Accepted r b t k
  unfolding matches
  matches-Accepted nothing b t k h = (b, t, is_nothing b t, h)
  matches-Accepted spaces b t k h = match_spaces-Accepted b t k h
  matches-Accepted boundary b t k h =
      let (edge, rest) = and_cases (at_boundary u b t) (k b t) h in
      (b, t, is_boundary b t edge, rest)
  matches-Accepted (character c) b t k h = match_character-Accepted c b t k h
  matches-Accepted (either r s) b t k h =
      elim (or_cases (matches u r b t k) (matches u s b t k) h) [
        | inl left ↦
            let (b', t', m, rest) = matches-Accepted r b t k left in
            (b', t', is_left r s b t b' t' m, rest)
        | inr right ↦
            let (b', t', m, rest) = matches-Accepted s b t k right in
            (b', t', is_right r s b t b' t' m, rest)
      ]
  matches-Accepted (both r s) b t k h =
      let (b', t', m, after) = matches-Accepted r b t (λ x y. matches u s x y k) h in
      let (b'', t'', n, rest) = matches-Accepted s b' t' k after in
      (b'', t'', in_turn r s b t b' t' b'' t'' m n, rest)

  match_spaces_now :
      (b : Option ℕ) (t : Text) (k : Option ℕ → Text → Bool)
      → k b t ≡ true
      → match_spaces u b t k ≡ true
  unfolding match_spaces
  match_spaces_now b [] k h = h
  match_spaces_now b (c ∷ cs) k h = rw h refl

  or_right : (a b : Bool) → b ≡ true → (a || b) ≡ true
  or_right true b h = refl
  or_right false b h = h

  Matches-matches :
      (r : Regex) (b : Option ℕ) (t : Text) (b' : Option ℕ) (t' : Text) (k : Option ℕ → Text → Bool)
      → Matches r b t b' t'
      → k b' t' ≡ true
      → matches u r b t k ≡ true
  unfolding matches match_spaces
  Matches-matches _ _ _ _ _ k (is_nothing b t) h = h
  Matches-matches _ _ _ _ _ k (no_space b t) h = match_spaces_now b t k h
  Matches-matches _ _ _ _ _ k (one_space b c t b' t' space m) h =
      or_right (k b (c ∷ t)) (u.is_space c && match_spaces u (some c) t k)
        (rw space (Matches-matches spaces (some c) t b' t' k m h))
  Matches-matches _ _ _ _ _ k (is_boundary b t edge) h = rw (edge, h) refl
  Matches-matches _ _ _ _ _ k (same_letter c d b t same) h =
      rw ((==_iff (fold_case d) c).1 same, h) refl
  Matches-matches _ _ _ _ _ k (is_left r s b t b' t' m) h =
      rw (Matches-matches r b t b' t' k m h) refl
  Matches-matches _ _ _ _ _ k (is_right r s b t b' t' m) h =
      or_right (matches u r b t k) (matches u s b t k) (Matches-matches s b t b' t' k m h)
  Matches-matches _ _ _ _ _ k (in_turn r s b t b' t' b'' t'' m n) h =
      Matches-matches r b t b' t' (λ x y. matches u s x y k) m
        (Matches-matches s b' t' b'' t'' k n h)

  -- The pattern matches from a position of the text on.
  pub data Occurs : Regex → Option ℕ → Text → Type 0 where
    occurs_here :
        (r : Regex) (b : Option ℕ) (t : Text) (b' : Option ℕ) (t' : Text)
        → Matches r b t b' t'
        → Occurs r b t
    occurs_later :
        (r : Regex) (b : Option ℕ) (c : ℕ) (t : Text) → Occurs r (some c) t → Occurs r b (c ∷ t)

  accepted-Occurs :
      (r : Regex) (b : Option ℕ) (t : Text) → matches u r b t (λ x y. true) ≡ true → Occurs r b t
  accepted-Occurs r b t h =
      let (b', t', m, _) = matches-Accepted r b t (λ x y. true) h in occurs_here r b t b' t' m

  search_from-Occurs :
      (r : Regex) (b : Option ℕ) (t : Text) → search_from u r b t ≡ true → Occurs r b t
  unfolding search_from
  search_from-Occurs r b [] h = accepted-Occurs r b [] h
  search_from-Occurs r b (c ∷ cs) h =
      elim (or_cases (matches u r b (c ∷ cs) (λ x y. true)) (search_from u r (some c) cs) h) [
        | inl now ↦ accepted-Occurs r b (c ∷ cs) now
        | inr more ↦ occurs_later r b c cs (search_from-Occurs r (some c) cs more)
      ]

  search_from_now :
      (r : Regex) (b : Option ℕ) (t : Text)
      → matches u r b t (λ x y. true) ≡ true
      → search_from u r b t ≡ true
  unfolding search_from
  search_from_now r b [] h = h
  search_from_now r b (c ∷ cs) h = rw h refl

  Occurs-search_from :
      (r : Regex) (b : Option ℕ) (t : Text) → Occurs r b t → search_from u r b t ≡ true
  unfolding search_from
  Occurs-search_from _ _ _ (occurs_here r b t b' t' m) =
      search_from_now r b t (Matches-matches r b t b' t' (λ x y. true) m refl)
  Occurs-search_from _ _ _ (occurs_later r b c t o) =
      or_right (matches u r b (c ∷ t) (λ x y. true)) (search_from u r (some c) t)
        (Occurs-search_from r (some c) t o)

  -- The search for a pattern finds it exactly if the pattern occurs in the text, by a description
  -- of matching that has no order of search: literals up to case, any number of spaces, the
  -- boundary of a word, alternatives and sequences.
  pub search_iff : (r : Regex) (t : Text) → (search u r t ≡ true) ↔ Occurs r none t
  unfolding search
  search_iff r t = (search_from-Occurs r none t, Occurs-search_from r none t)
