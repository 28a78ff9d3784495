-- ===== src/Interceptor/Guard/Examples.antt =====
-- The code guard on `x = os` and `x.system()`.
use mathlib.Core.List.{Memᴰ}
use qwed_a2a.Prelude.{◌≡◌, ◌↔◌, ◌⊎◌, refl, true, none, some, List, [], ◌∷◌, contains, add}
use qwed_a2a.Prelude.Text.{Text, lit, text-Eq, text_eq}
use qwed_a2a.Dict.{Dict, lookup, insert}
use qwed_a2a.Schema.{code_execution, blocked}
use qwed_a2a.Interceptor.Message.{string, no_fields, field, AgentMessage, get}
use qwed_a2a.Interceptor.Ast.{Expr, Node, named, attribute, call, assign}
use qwed_a2a.Interceptor.Bindings.{
  Binding, binding-Eq, Bindings, no_bindings, values_in, values_of, follow, propagate,
  propagate_loop, start_work, universe, all_work, push_edges, push_new, add_value, union, tracked,
  add_assignment, bind_targets, bind, bind_name, add_edge, modules_in, members_in, attributes_in,
  targets_in, all_edges,
}
use qwed_a2a.Interceptor.Bindings.Termination.{propagate-returns}
use qwed_a2a.Interceptor.Bindings.Closure.{Bound, given, flows, propagate_iff}
use qwed_a2a.Interceptor.Scan.{
  dangerous_call_names, endings, os_exec_funcs, dangerous_receiver_methods, denote_modules,
  add_builtins, implicit_bindings, tables, bindings_of, node_bindings, scan_nodes, scan_ast_threats,
  import_threats, call_threats, propagated, node_threats, scan_ast_call, is_builtin_call, resolve,
  with_attribute, call_threat, any_getattr, is_getattr,
}
use qwed_a2a.Interceptor.Logic.{sorted, insert_sorted}
use qwed_a2a.Interceptor.Scan.Reported.{reports}
use qwed_a2a.Interceptor.Scan.Calls.{member_call, by_attribute}
use qwed_a2a.Interceptor.Scan.Reports.{DangerousCall, propagated_lem, scan_nodes_iff}
use qwed_a2a.Interceptor.Decide.{Engines, completed, of_run}
use qwed_a2a.Interceptor.Examples.{engines, classes, config}
use qwed_a2a.Interceptor.Regex.{
  literal, sequence, search, search_from, matches, match_spaces, at_boundary, is_word, fold_case,
}
use qwed_a2a.Interceptor.Code.{scan_regex_threats, matching, dangerous_patterns, builtins_name}
use qwed_a2a.Interceptor.Guard.{Objectionable, of_run-blocks_code_iff}

abbrev alias_assigned : Node
unfolding lit
alias_assigned = assign (named (lit "x") ∷ []) (named (lit "os"))

abbrev alias_called : Node
unfolding lit
alias_called = call (attribute (named (lit "x")) (lit "system")) []

abbrev nodes : List Node
unfolding alias_assigned alias_called
nodes = alias_assigned ∷ alias_called ∷ []

-- `x` may be the module os.
x-Bound : Bound tables (bindings_of tables nodes no_bindings) (lit "x") (lit "os", none)
unfolding nodes alias_assigned alias_called lit tables bindings_of node_bindings add_assignment
    bind_targets bind bind_name add_edge lookup insert values_of values_in union contains
    implicit_bindings add_builtins denote_modules dangerous_receiver_methods dangerous_call_names
    os_exec_funcs endings follow text_eq
x-Bound =
    flows (lit "os") (lit "x") none (lit "os", none) (lit "os", none)
      (given (lit "os") (lit "os", none) refl) (Memᴰ.head refl) refl

nodes-DangerousCall : DangerousCall tables (bindings_of tables nodes no_bindings) nodes
unfolding nodes alias_assigned alias_called tables dangerous_receiver_methods os_exec_funcs endings
    lit contains lookup text_eq
nodes-DangerousCall = (
  attribute (named (lit "x")) (lit "system"),
  [],
  Memᴰ.tail (Memᴰ.head refl),
  member_call _ _ (lit "os") (lit "system")
      (by_attribute (lit "x") (lit "system") (lit "os") x-Bound) refl,
)

scanned : scan_ast_threats nodes ≡ lit "call:os.system()" ∷ []
unfolding nodes alias_assigned alias_called lit tables bindings_of node_bindings add_assignment
    bind_targets bind bind_name add_edge lookup insert values_of values_in union contains
    implicit_bindings add_builtins denote_modules dangerous_receiver_methods dangerous_call_names
    os_exec_funcs endings follow scan_nodes scan_ast_threats import_threats call_threats propagated
    node_threats scan_ast_call is_builtin_call resolve with_attribute call_threat any_getattr
    is_getattr sorted propagate propagate_loop start_work universe all_work push_edges push_new
    add_value tracked modules_in members_in attributes_in targets_in all_edges text_eq add
    insert_sorted
scanned = refl

abbrev assigned : Bindings
assigned = bindings_of tables nodes no_bindings

abbrev held : Dict Text (List Binding)
held = propagated tables assigned

propagate-returns_example :
    (result : Dict Text (List Binding)) × (propagate tables assigned ≡ some result)
propagate-returns_example = propagate-returns tables assigned

propagate_iff_example :
    (contains (lit "os", none) (values_in tables held (lit "x")) ≡ true)
    ↔ Bound tables assigned (lit "x") (lit "os", none)
propagate_iff_example =
    propagate_iff tables assigned held (lit "x") (lit "os", none) (propagated_lem tables assigned)

abbrev callee : Expr
callee = attribute (named (lit "x")) (lit "system")

scan_nodes_iff_example :
    (reports (scan_nodes tables nodes) ≡ true)
    ↔ ((reports (import_threats tables nodes) ≡ true) ⊎ DangerousCall tables assigned nodes)
scan_nodes_iff_example = scan_nodes_iff tables nodes

-- An interceptor whose parser finds these nodes in every code.
abbrev reading : Engines
reading = record engines { scanner = record { parse = λ _. some nodes; classes = classes } }

abbrev message : AgentMessage
message = record {
  sender_agent_id = lit "a";
  receiver_agent_id = lit "b";
  payload_type = code_execution;
  payload = field (lit "code") (string (lit "x = os; x.system()")) no_fields;
}

of_run-blocks_code_iff_example :
    ((of_run reading config message completed).status ≡ blocked)
    ↔ Objectionable reading.scanner (lit "x = os; x.system()")
unfolding lit get text_eq
of_run-blocks_code_iff_example =
    of_run-blocks_code_iff reading config message 120 (lit " = os; x.system()") refl refl refl

-- The search for the patterns, on code that calls os.system, and on a name that ends like one.
patterns_found : scan_regex_threats reading.scanner (lit "y = OS.System (1)") ≡ lit "os_system" ∷ []
unfolding scan_regex_threats matching dangerous_patterns builtins_name literal sequence search
    search_from matches match_spaces at_boundary is_word fold_case lit
patterns_found = refl

no_pattern_found : scan_regex_threats reading.scanner (lit "macos.system(1)") ≡ []
unfolding scan_regex_threats matching dangerous_patterns builtins_name literal sequence search
    search_from matches match_spaces at_boundary is_word fold_case lit
no_pattern_found = refl
