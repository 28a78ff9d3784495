-- ===== src/Interceptor/Code.antt =====
-- `_verify_code`: the code guard's layers. Parameters are the nodes of the tree that `ast.parse`
-- returns, in the order of `ast.walk`, and the character classes of `re`.
use qwed_a2a.Prelude.{not, ℕ, ◌+◌, Option, none, some, List, [], ◌∷◌, ltb, if◌then◌else◌, Bool}
use qwed_a2a.Prelude.Text.{Text, lit}
use qwed_a2a.Interceptor.Message.{
  Value, string, Fields, get, is_falsy, no_code, code_not_string, code_too_long, code_unparseable,
  no_threat, ast_threats, regex_threats, EngineResult, unverified,
}
use qwed_a2a.Interceptor.Claim.{within, all}
use qwed_a2a.Interceptor.Regex.{
  CharClasses, Regex, spaces, boundary, either, literal, sequence, search,
}
use qwed_a2a.Interceptor.Ast.{Node}
use qwed_a2a.Interceptor.Scan.{scan_ast_threats}

-- `parse` is `ast.parse` and `ast.walk`, with `none` for a `SyntaxError`.
pub record Scanner : Type 0 where
  pub parse : Text → Option (List Node)
  pub classes : CharClasses

-- `(?:__builtins__|builtins)`
unfoldable pub builtins_name : Regex
unfolding lit literal
builtins_name = either (literal (lit "__builtins__")) (literal (lit "builtins"))

-- `_DANGEROUS_PATTERNS`: the labels and the patterns.
unfoldable pub dangerous_patterns : List (Text × Regex)
unfolding lit literal sequence builtins_name
dangerous_patterns =
    (
      lit "getattr_builtin",
      sequence (
          literal (lit "getattr")
          ∷ (spaces ∷ (literal (lit "(") ∷ (spaces ∷ (builtins_name ∷ (spaces ∷ [])))))),
    )
    ∷ ((
      lit "builtins_dict_access",
      sequence (
          boundary
          ∷ (builtins_name
              ∷ (spaces
                  ∷ (literal (lit ".")
                      ∷ (spaces
                          ∷ (literal (lit "__dict__") ∷ (spaces ∷ (literal (lit "[") ∷ [])))))))),
    )
        ∷ ((
          lit "base64_exec",
          sequence (
              either
                (sequence (
                  literal (lit "base64")
                  ∷ (spaces ∷ (literal (lit ".") ∷ (spaces ∷ (literal (lit "b64decode") ∷ []))))))
                (literal (lit "b64decode"))
              ∷ (spaces ∷ (literal (lit "(") ∷ []))),
        )
            ∷ ((
              lit "dynamic_import",
              sequence (literal (lit "__import__") ∷ (spaces ∷ (literal (lit "(") ∷ []))),
            )
                ∷ ((
                  lit "os_system",
                  sequence (
                      boundary ∷ (literal (lit "os.system") ∷ (spaces ∷ (literal (lit "(") ∷ [])))),
                )
                    ∷ ((
                      lit "os_popen",
                      sequence (
                          boundary
                          ∷ (literal (lit "os.popen") ∷ (spaces ∷ (literal (lit "(") ∷ [])))),
                    )
                        ∷ [])))))

unfoldable pub matching : CharClasses → Text → List (Text × Regex) → List Text
unfolding search
matching classes code [] = []
matching classes code ((label, pattern') ∷ patterns) =
    let rest = matching classes code patterns in
    if search classes pattern' code then label ∷ rest else rest

-- `_scan_regex_threats`
unfoldable pub scan_regex_threats : Scanner → Text → List Text
unfolding matching dangerous_patterns
scan_regex_threats s code = matching s.classes code dangerous_patterns

-- The length of the UTF-8 encoding with `surrogatepass`.
unfoldable pub utf8_length : Text → ℕ
utf8_length [] = 0
utf8_length (c ∷ cs) =
    (if ltb c 128 then 1 else if ltb c 2048 then 2 else if ltb c 65536 then 3 else 4)
    + utf8_length cs

-- Whether `encode("utf-8")` succeeds: the text has no lone surrogate.
unfoldable pub is_encodable : Text → Bool
is_encodable t = all (λ c. not (within 55296 57343 c)) t

-- The two scans of parsed code.
unfoldable pub scan_both : List Text → List Text → EngineResult
unfolding lit
scan_both (t ∷ ts) regex = unverified (lit "code_guard") none (ast_threats (t ∷ ts))
scan_both [] (t ∷ ts) = unverified (lit "code_guard") none (regex_threats (t ∷ ts))
scan_both [] [] = unverified (lit "code_guard") (some (lit "heuristic_pass")) no_threat

unfoldable pub scan_parsed : Scanner → Text → Option (List Node) → EngineResult
unfolding lit scan_both
scan_parsed s code none = unverified (lit "code_guard") none code_unparseable
scan_parsed s code (some nodes) = scan_both (scan_ast_threats nodes) (scan_regex_threats s code)

unfoldable pub scan_source : Scanner → ℕ → Value → EngineResult
unfolding lit scan_parsed
scan_source s max_code_bytes (string code) =
    if ltb max_code_bytes (utf8_length code)
    then unverified (lit "code_guard") none code_too_long
    else scan_parsed s code (s.parse code)
scan_source s max_code_bytes _ =
    unverified (lit "code_guard") (some (lit "unverifiable")) code_not_string

unfoldable pub verify_source : Scanner → ℕ → Option Value → EngineResult
unfolding lit scan_source
verify_source s max_code_bytes none =
    unverified (lit "code_guard") (some (lit "heuristic_pass")) no_code
verify_source s max_code_bytes (some v) =
    if is_falsy v
    then unverified (lit "code_guard") (some (lit "heuristic_pass")) no_code
    else scan_source s max_code_bytes v

unfoldable pub verify_code : Scanner → ℕ → Fields → EngineResult
unfolding verify_source lit
verify_code s max_code_bytes payload = verify_source s max_code_bytes (get (lit "code") payload)
