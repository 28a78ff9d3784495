-- ===== src/Interceptor/Claim.antt =====
-- `_normalize_claim`: the key under which the logic guard compares claims.
use qwed_a2a.Prelude.{
  ℕ, ◌+◌, Bool, true, not, ◌&&◌, ◌||◌, Option, List, [], ◌∷◌, ◌++◌, leb, ltb, if◌then◌else◌, map,
  ◌==◌, nat-Eq,
}
use qwed_a2a.Prelude.Text.{Text}

-- Python's Unicode tables: the categories Cf and Cc, `str.isspace`, the value of a decimal digit, NFKC
-- and `str.casefold`.
pub record Unicode : Type 0 where
  pub is_format : ℕ → Bool
  pub is_control : ℕ → Bool
  pub is_space : ℕ → Bool
  pub to_decimal : ℕ → Option ℕ
  pub nfkc : Text → Text
  pub casefold : Text → Text

abbrev pub within : ℕ → ℕ → ℕ → Bool
within low high c = leb low c && leb c high

-- `all(p(c) for c in t)`
unfoldable pub all : (ℕ → Bool) → Text → Bool
all p [] = true
all p (c ∷ cs) = p c && all p cs

unfoldable pub filter : (ℕ → Bool) → Text → Text
filter p [] = []
filter p (c ∷ cs) = let rest = filter p cs in if p c then c ∷ rest else rest

abbrev pub is_ascii : ℕ → Bool
is_ascii c = ltb c 128

-- `str.isprintable` on ASCII.
abbrev pub is_printable : ℕ → Bool
is_printable c = within 32 126 c

-- The keys of `_ASCII_INVISIBLE`.
abbrev pub is_ascii_invisible : ℕ → Bool
is_ascii_invisible c = ltb c 9 || within 14 27 c || c == 127

-- `str.isspace` on ASCII.
abbrev pub is_ascii_space : ℕ → Bool
is_ascii_space c = within 9 13 c || within 28 32 c

-- `str.lower` on ASCII.
abbrev pub lower : ℕ → ℕ
lower c = if within 65 90 c then c + 32 else c

-- The class of `_IGNORABLE_NON_CF`.
unfoldable pub is_ignorable : ℕ → Bool
is_ignorable c =
    c == 847
    || within 4447 4448 c
    || within 6068 6069 c
    || within 6155 6159 c
    || within 8288 8303 c
    || c == 12644
    || within 65024 65039 c
    || c == 65440
    || within 65520 65528 c
    || within 917504 921599 c

-- A word before the words behind it, unless it is empty.
abbrev pub push_word : Text → List Text → List Text
push_word [] ws = ws
push_word (c ∷ cs) ws = (c ∷ cs) ∷ ws

-- The word that a text begins with, and the words behind it.
unfoldable pub split_first : (ℕ → Bool) → Text → Text × List Text
split_first is_space [] = ([], [])
split_first is_space (c ∷ cs) =
    let (word, words) = split_first is_space cs in
    if is_space c then ([], push_word word words) else (c ∷ word, words)

-- `str.split()`
unfoldable pub split : (ℕ → Bool) → Text → List Text
split is_space t = let (word, words) = split_first is_space t in push_word word words

-- `" ".join(words)`
unfoldable pub join : List Text → Text
join [] = []
join (w ∷ []) = w
join (w ∷ (v ∷ ws)) = w ++ (32 ∷ join (v ∷ ws))

-- `if not claim.isprintable(): claim = claim.translate(_ASCII_INVISIBLE)`
unfoldable pub drop_invisible : Text → Text
drop_invisible claim =
    if not (all is_printable claim) then filter (λ c. not (is_ascii_invisible c)) claim else claim

unfoldable pub normalize_ascii : Text → Text
normalize_ascii claim = join (split is_ascii_space (map lower (drop_invisible claim)))

unfoldable pub normalize_unicode : Unicode → Text → Text
normalize_unicode u claim =
    let text = filter (λ c. not (is_ignorable c)) claim in
    let visible = filter (λ c. not (u.is_format c || u.is_control c && not (u.is_space c))) text in
    let folded = u.nfkc (u.casefold (u.nfkc visible)) in join (split u.is_space folded)

unfoldable pub normalize_claim : Unicode → Text → Text
normalize_claim u claim =
    if all is_ascii claim then normalize_ascii claim else normalize_unicode u claim
