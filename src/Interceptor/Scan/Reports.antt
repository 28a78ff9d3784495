-- ===== src/Interceptor/Scan/Reports.antt =====
-- What the scan of a whole tree reports, and what the code guard makes of it.
use mathlib.Core.List.{Memᴰ}
use qwed_a2a.Prelude.{
  ◌≡◌, ◌↔◌, ◌⊎◌, inl, inr, refl, sym, subst, true, none, some, List, [], ◌∷◌, arith, Bool-cases,
}
use qwed_a2a.Prelude.Text.{Text, text-Eq}
use qwed_a2a.Dict.{Dict}
use qwed_a2a.Interceptor.Ast.{
  Expr, Node, call, imports, import_from, assign, ann_assign, named_expr, other_node,
}
use qwed_a2a.Interceptor.Bindings.{Binding, Tables, Bindings, no_bindings, values_in, propagate}
use qwed_a2a.Interceptor.Bindings.Termination.{propagate-returns}
use qwed_a2a.Interceptor.Scan.{
  scan_ast_call, import_threats, bindings_of, call_threats, propagated, scan_nodes,
}
use qwed_a2a.Interceptor.Scan.Reported.{reports, reports-append}
use qwed_a2a.Interceptor.Scan.Calls.{Dangerous, scan_ast_call_iff}

-- A call among nodes that is dangerous when names are bound along the assignments.
abbrev pub DangerousCall : Tables → Bindings → List Node → Type 0
DangerousCall t b nodes =
    (func : Expr) × (args : List Expr) × Memᴰ (call func args) nodes × Dangerous t b func args

later_call :
    (t : Tables) (b : Bindings) (node : Node) (nodes : List Node)
    → DangerousCall t b nodes
    → DangerousCall t b (node ∷ nodes)
later_call t b node nodes (func, args, m, d) = (func, args, Memᴰ.tail m, d)

module _ (t : Tables) (b : Bindings) (result : Dict Text (List Binding))
    (runs : propagate t b ≡ some result) where
  abbrev holding : Text → List Binding
  holding = values_in t result

  call_threats_sound :
      (nodes : List Node) → reports (call_threats t holding nodes) ≡ true → DangerousCall t b nodes
  unfolding call_threats
  call_threats_sound [] h = absurd (cc)
  call_threats_sound (call func args ∷ nodes) h =
      elim (Bool-cases (reports (scan_ast_call t holding func args))) [
        | inl here ↦
            (func, args, Memᴰ.head refl, (scan_ast_call_iff t b result runs func args).0 here)
        | inr quiet ↦ later_call t b (call func args) nodes (
            call_threats_sound nodes (
              ground (
                arith,
                reports-append (scan_ast_call t holding func args) (call_threats t holding nodes),
              )))
      ]
  call_threats_sound (imports aliases ∷ nodes) h =
      later_call t b _ nodes (call_threats_sound nodes h)
  call_threats_sound (import_from m aliases ∷ nodes) h =
      later_call t b _ nodes (call_threats_sound nodes h)
  call_threats_sound (assign targets value ∷ nodes) h =
      later_call t b _ nodes (call_threats_sound nodes h)
  call_threats_sound (ann_assign target value ∷ nodes) h =
      later_call t b _ nodes (call_threats_sound nodes h)
  call_threats_sound (named_expr target value ∷ nodes) h =
      later_call t b _ nodes (call_threats_sound nodes h)
  call_threats_sound (other_node ∷ nodes) h = later_call t b _ nodes (call_threats_sound nodes h)

  call_threats_tail :
      (node : Node) (nodes : List Node)
      → reports (call_threats t holding nodes) ≡ true
      → reports (call_threats t holding (node ∷ nodes)) ≡ true
  unfolding call_threats
  call_threats_tail (call func args) nodes h =
      ground
        (arith, reports-append (scan_ast_call t holding func args) (call_threats t holding nodes))
  call_threats_tail (imports aliases) nodes h = h
  call_threats_tail (import_from m aliases) nodes h = h
  call_threats_tail (assign targets value) nodes h = h
  call_threats_tail (ann_assign target value) nodes h = h
  call_threats_tail (named_expr target value) nodes h = h
  call_threats_tail other_node nodes h = h

  call_threats_complete :
      (nodes : List Node) (func : Expr) (args : List Expr)
      → Memᴰ (call func args) nodes
      → Dangerous t b func args
      → reports (call_threats t holding nodes) ≡ true
  unfolding call_threats
  call_threats_complete [] func args m d = elim m [ ]
  call_threats_complete (node ∷ nodes) func args (Memᴰ.head same) d =
      subst (λ n. reports (call_threats t holding (n ∷ nodes)) ≡ true) same
        (rw
          (
            reports-append (scan_ast_call t holding func args) (call_threats t holding nodes),
            (scan_ast_call_iff t b result runs func args).1 d,
          )
          refl)
  call_threats_complete (node ∷ nodes) func args (Memᴰ.tail m) d =
      call_threats_tail node nodes (call_threats_complete nodes func args m d)

-- The scan reads what `propagate` returns.
pub propagated_lem : (t : Tables) (b : Bindings) → propagate t b ≡ some (propagated t b)
unfolding propagated
propagated_lem t b =
    let (result, runs) = propagate-returns t b in
    subst (λ o. o ≡ some (elim o [ none ↦ b.values | some values ↦ values ])) (sym runs) refl

-- The scan of a tree reports something exactly if the scan of its imports does, or one of its calls
-- is dangerous when names are bound along the imports and assignments of the whole tree.
pub scan_nodes_iff :
    (t : Tables) (nodes : List Node)
    → (reports (scan_nodes t nodes) ≡ true) ↔ (
        (reports (import_threats t nodes) ≡ true)
        ⊎ DangerousCall t (bindings_of t nodes no_bindings) nodes)
unfolding scan_nodes
scan_nodes_iff t nodes =
    let b = bindings_of t nodes no_bindings in
    let result = propagated t b in
    let runs = propagated_lem t b in
    let whole =
      reports-append (import_threats t nodes) (call_threats t (values_in t result) nodes) in
    (
      (λ h. elim (Bool-cases (reports (import_threats t nodes))) [
        | inl imported ↦ inl imported
        | inr quiet ↦ inr (call_threats_sound t b result runs nodes (ground (arith, whole)))
      ]),
      (λ s. elim s [
        | inl imported ↦ ground (arith, whole)
        | inr (func, args, m, d) ↦
            ground (arith, whole, call_threats_complete t b result runs nodes func args m d)
      ]),
    )
