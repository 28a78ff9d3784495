-- ===== src/Interceptor/Guard.antt =====
-- Which code the pipeline blocks.
mod Examples
use mathlib.Core.List.{Memᴰ}
use mathlib.Core.List.Memᴰ
use qwed_a2a.Prelude.{
  ℕ, ◌<◌, ◌≡◌, ◌↔◌, ◌⊎◌, inl, inr, refl, ap, true, Option, none, some, List, [], ◌∷◌, arith, ltb,
  Bool-cases,
}
use qwed_a2a.Prelude.Text.{Text, lit, text-Eq, text_eq}
use qwed_a2a.Schema.{code_execution, blocked, VerdictStatus, status-Eq}
use qwed_a2a.Interceptor.Message.{string, get, is_falsy, AgentMessage, EngineResult}
use qwed_a2a.Interceptor.Ast.{Node}
use qwed_a2a.Interceptor.Bindings.{no_bindings}
use qwed_a2a.Interceptor.Regex.{CharClasses, Regex, search}
use qwed_a2a.Interceptor.Regex.Occurs.{Occurs, search_iff}
use qwed_a2a.Interceptor.Scan.{tables, scan_nodes, scan_ast_threats, import_threats, bindings_of}
use qwed_a2a.Interceptor.Scan.Reported.{reports}
use qwed_a2a.Interceptor.Scan.Reports.{DangerousCall, scan_nodes_iff}
use qwed_a2a.Interceptor.Code.{
  Scanner, dangerous_patterns, matching, scan_regex_threats, scan_both, scan_parsed, scan_source,
  verify_source, verify_code, utf8_length,
}
use qwed_a2a.Interceptor.Decide.{
  Engines, InterceptorConfig, completed, has_status, of_result, of_outcome, of_run, route,
  route_to_engine, max_code_bytes,
}

-- One of the patterns occurs in the code.
abbrev pub Found : CharClasses → Text → List (Text × Regex) → Type 0
Found u code patterns =
    (label : Text) × (r : Regex) × Memᴰ (label, r) patterns × Occurs u r none code

Found-later :
    (u : CharClasses) (code : Text) (p : Text × Regex) (patterns : List (Text × Regex))
    → Found u code patterns
    → Found u code (p ∷ patterns)
Found-later u code p patterns (label, r, m, o) = (label, r, Memᴰ.tail m, o)

reports-matching :
    (u : CharClasses) (code : Text) (patterns : List (Text × Regex))
    → reports (matching u code patterns) ≡ true
    → Found u code patterns
unfolding matching
reports-matching u code [] = λ h. absurd (cc)
reports-matching u code ((label, r) ∷ patterns) = elim (Bool-cases (search u r code)) [
  | inl found ↦ λ h. (label, r, Memᴰ.head refl, (search_iff u r code).0 found)
  | inr other ↦
      rw other (λ h. Found-later u code (label, r) patterns (reports-matching u code patterns h))
]

matching_all :
    (u : CharClasses) (code label : Text) (r : Regex) (patterns : List (Text × Regex))
    → Memᴰ (label, r) patterns
    → search u r code ≡ true
    → reports (matching u code patterns) ≡ true
unfolding matching
matching_all u code label r [] m h = elim m [ ]
matching_all u code label r ((label', r') ∷ patterns) m h = elim (Bool-cases (search u r' code)) [
  | inl found ↦ rw found refl
  | inr other ↦ elim (Memᴰ.cases_cons m) [
    | inl e ↦
        let same : search u r code ≡ search u r' code = ap (λ p. search u p.1 code) e in
        absurd (ground (arith, same))
    | inr k ↦ rw other (matching_all u code label r patterns k h)
  ]
]

-- The patterns report a threat exactly if one of them occurs.
matching_iff :
    (u : CharClasses) (code : Text) (patterns : List (Text × Regex))
    → (reports (matching u code patterns) ≡ true) ↔ Found u code patterns
matching_iff u code patterns = (
  reports-matching u code patterns,
  (λ (label, r, m, o). matching_all u code label r patterns m ((search_iff u r code).1 o)),
)

-- What there is to object to in code that parses, and in code.
abbrev pub Threatens : Scanner → Text → Option (List Node) → Type 0
Threatens s code none = Unit
Threatens s code (some nodes) =
    (reports (import_threats tables nodes) ≡ true)
    ⊎ (DangerousCall tables (bindings_of tables nodes no_bindings) nodes
        ⊎ Found s.classes code dangerous_patterns)

abbrev status_of : AgentMessage → EngineResult → VerdictStatus
status_of message r = (of_result message r).status

scan_both_iff :
    (message : AgentMessage) (ts rs : List Text)
    → (status_of message (scan_both ts rs) ≡ blocked) ↔ ((reports ts ≡ true) ⊎ (reports rs ≡ true))
unfolding scan_both of_result has_status lit text_eq
scan_both_iff message (t ∷ ts) rs = ((λ _. inl refl), (λ _. refl))
scan_both_iff message [] (r ∷ rs) = ((λ _. inr refl), (λ _. refl))
scan_both_iff message [] [] =
    ((λ h. absurd (cc)), (λ s. elim s [ inl h ↦ absurd (cc) | inr h ↦ absurd (cc) ]))

scan_parsed_iff :
    (message : AgentMessage) (s : Scanner) (code : Text) (o : Option (List Node))
    → (status_of message (scan_parsed s code o) ≡ blocked) ↔ Threatens s code o
unfolding scan_parsed of_result has_status lit text_eq scan_ast_threats scan_regex_threats
scan_parsed_iff message s code none = ((λ _. tt), (λ _. refl))
scan_parsed_iff message s code (some nodes) =
    let ast = scan_nodes_iff tables nodes in
    let regex = matching_iff s.classes code dangerous_patterns in
    let both =
      scan_both_iff message (scan_nodes tables nodes)
        (matching s.classes code dangerous_patterns) in
    (
      (λ h. elim (both.0 h) [
        | inl scanned ↦ elim (ast.0 scanned) [
          | inl imported ↦ inl imported
          | inr called ↦ inr (inl called)
        ]
        | inr matched ↦ inr (inr (regex.0 matched))
      ]),
      (λ t. elim t [
        | inl imported ↦ both.1 (inl (ast.1 (inl imported)))
        | inr (inl called) ↦ both.1 (inl (ast.1 (inr called)))
        | inr (inr found) ↦ both.1 (inr (regex.1 found))
      ]),
    )

-- Code that the guard objects to: it is too long, it does not parse, or what it parses to or the
-- text of it threatens.
abbrev pub Objectionable : Scanner → Text → Type 0
Objectionable s code = (max_code_bytes < utf8_length code) ⊎ Threatens s code (s.parse code)

scan_source_iff :
    (message : AgentMessage) (s : Scanner) (code : Text)
    → (status_of message (scan_source s max_code_bytes (string code)) ≡ blocked)
      ↔ Objectionable s code
unfolding scan_source of_result has_status lit text_eq
scan_source_iff message s code = elim (Bool-cases (ltb max_code_bytes (utf8_length code))) [
  | inl long ↦ rw long ((λ _. inl (ground (arith, long))), (λ _. refl))
  | inr short ↦
      let parsed = scan_parsed_iff message s code (s.parse code) in
      rw short (
        (λ h. inr (parsed.0 h)),
        (λ o. elim o [ inl long ↦ absurd (ground (arith, short)) | inr t ↦ parsed.1 t ]),
      )
]

-- If code verification is enabled and a message is of type code_execution with code that is not
-- empty, then a completed engine run blocks the message exactly if the code is too long, does not
-- parse, imports something that the scan reports, has a call that names a dangerous builtin or may
-- denote a dangerous member along the imports and assignments of the code, or has one of the
-- dangerous patterns in its text.
pub of_run-blocks_code_iff :
    (engines : Engines) (config : InterceptorConfig) (message : AgentMessage) (c : ℕ) (cs : Text)
    → config.enable_code_verification ≡ true
    → message.payload_type ≡ code_execution
    → get (lit "code") message.payload ≡ some (string (c ∷ cs))
    → ((of_run engines config message completed).status ≡ blocked)
      ↔ Objectionable engines.scanner (c ∷ cs)
unfolding of_run route_to_engine verify_code route of_outcome verify_source is_falsy
of_run-blocks_code_iff engines config message c cs on kind source =
    rw (kind, on, source) (scan_source_iff message engines.scanner (c ∷ cs))

-- Code that parses and has a dangerous call is blocked, however long it is.
of_run-blocks_code :
    (engines : Engines) (config : InterceptorConfig) (message : AgentMessage) (c : ℕ) (cs : Text)
    (nodes : List Node)
    → config.enable_code_verification ≡ true
    → message.payload_type ≡ code_execution
    → get (lit "code") message.payload ≡ some (string (c ∷ cs))
    → engines.scanner.parse (c ∷ cs) ≡ some nodes
    → DangerousCall tables (bindings_of tables nodes no_bindings) nodes
    → (of_run engines config message completed).status ≡ blocked
of_run-blocks_code engines config message c cs nodes on kind source parses d =
    (of_run-blocks_code_iff engines config message c cs on kind source).1
      (inr (rw parses (inr (inl d))))
