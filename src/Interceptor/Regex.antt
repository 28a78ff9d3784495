-- ===== src/Interceptor/Regex.antt =====
-- The part of `re` that the patterns of the code guard use: literals under IGNORECASE, `\s*`, `\b`,
-- alternatives and sequences, and `search` as a test.
pub mod Occurs
use qwed_a2a.Prelude.{
  ℕ, ◌+◌, Bool, true, false, not, ◌&&◌, ◌||◌, Option, none, some, List, [], ◌∷◌, if◌then◌else◌,
  ◌==◌, nat-Eq,
}
use qwed_a2a.Prelude.Text.{Text}
use qwed_a2a.Interceptor.Claim.{within}

-- `str.isspace` and `str.isalnum` of a character.
pub record CharClasses : Type 0 where
  pub is_space : ℕ → Bool
  pub is_alnum : ℕ → Bool

pub data Regex : Type 0 where
  nothing spaces boundary : Regex
  character : ℕ → Regex
  either both : Regex → Regex → Regex

-- A literal text, and a sequence.
unfoldable pub literal : Text → Regex
literal [] = nothing
literal (c ∷ cs) = both (character c) (literal cs)

unfoldable pub sequence : List Regex → Regex
sequence [] = nothing
sequence (r ∷ rs) = both r (sequence rs)

-- The lower-case letter that IGNORECASE takes a character for: A to Z, and the four characters
-- outside ASCII that match an ASCII letter.
unfoldable pub fold_case : ℕ → ℕ
fold_case c =
    if within 65 90 c
    then c + 32
    else if c == 304 || c == 305
    then 105
    else if c == 383
    then 115
    else if c == 8490
    then 107
    else c

module _ (u : CharClasses) where
  -- `\w`
  unfoldable pub is_word : ℕ → Bool
  is_word c = u.is_alnum c || c == 95

  abbrev word_before : Option ℕ → Bool
  unfolding is_word
  word_before none = false
  word_before (some c) = is_word c

  abbrev word_at : Text → Bool
  unfolding is_word
  word_at [] = false
  word_at (c ∷ cs) = is_word c

  -- `\b`, between the character before a position and the text from it on.
  unfoldable pub at_boundary : Option ℕ → Text → Bool
  unfolding word_before word_at
  at_boundary before rest = if word_before before then not (word_at rest) else word_at rest

  -- `\s*` can take any number of the spaces that come next.
  unfoldable pub match_spaces : Option ℕ → Text → (Option ℕ → Text → Bool) → Bool
  match_spaces before [] k = k before []
  match_spaces before (c ∷ cs) k = k before (c ∷ cs) || (u.is_space c && match_spaces (some c) cs k)

  abbrev match_character : ℕ → Text → (Option ℕ → Text → Bool) → Bool
  unfolding fold_case
  match_character c [] k = false
  match_character c (d ∷ ds) k = fold_case d == c && k (some d) ds

  -- Whether the pattern matches from a position on so that `k` accepts where it ends.
  unfoldable pub matches : Regex → Option ℕ → Text → (Option ℕ → Text → Bool) → Bool
  unfolding match_spaces match_character at_boundary
  matches nothing before rest k = k before rest
  matches spaces before rest k = match_spaces before rest k
  matches boundary before rest k = at_boundary before rest && k before rest
  matches (character c) before rest k = match_character c rest k
  matches (either r s) before rest k = matches r before rest k || matches s before rest k
  matches (both r s) before rest k = matches r before rest (λ b t. matches s b t k)

  -- Whether the pattern matches at the position or at a later one.
  unfoldable pub search_from : Regex → Option ℕ → Text → Bool
  unfolding matches
  search_from r before [] = matches r before [] (λ b t. true)
  search_from r before (c ∷ cs) =
      matches r before (c ∷ cs) (λ b t. true) || search_from r (some c) cs

  -- `pattern.search(code)`
  unfoldable pub search : Regex → Text → Bool
  unfolding search_from
  search r code = search_from r none code
