-- ===== src/Interceptor/Scan.antt =====
-- `_scan_ast_threats` and the scans below it: dangerous imports and calls in parsed code.
pub mod Reported
pub mod Calls
pub mod Reports
use qwed_a2a.Prelude.{
  Bool, false, ◌&&◌, ◌||◌, Option, none, some, List, [], ◌∷◌, ◌++◌, map, if◌then◌else◌, ◌==◌,
  nat-Eq, contains, add,
}
use qwed_a2a.Prelude.Text.{Text, lit, text-Eq}
use qwed_a2a.Dict.{Dict, lookup, insert}
use qwed_a2a.Interceptor.Logic.{sorted}
use qwed_a2a.Interceptor.Ast.{
  Expr, named, attribute, text_literal, Alias, Node, call, imports, import_from,
}
use qwed_a2a.Interceptor.Bindings.{
  Binding, binding-Eq, Tables, Bindings, no_bindings, get_list, add_import, add_import_from,
  add_assignment, values_in, propagate, builtins_modules,
}

unfoldable pub dangerous_call_names : List Text
unfolding lit
dangerous_call_names = lit "eval" ∷ (lit "exec" ∷ (lit "compile" ∷ (lit "__import__" ∷ [])))

unfoldable pub dangerous_imports : List Text
unfolding lit
dangerous_imports = lit "subprocess" ∷ (lit "importlib" ∷ (lit "ctypes" ∷ (lit "pty" ∷ [])))

-- `f"exec{s}"` and `f"spawn{s}"` for each ending `s`.
unfoldable pub endings : List Text
unfolding lit
endings =
    lit "l"
    ∷ (lit "le" ∷ (lit "lp" ∷ (lit "lpe" ∷ (lit "v" ∷ (lit "ve" ∷ (lit "vp" ∷ (lit "vpe" ∷ [])))))))

unfoldable pub os_exec_funcs : List Text
unfolding lit endings
os_exec_funcs =
    (lit "system"
      ∷ (lit "popen" ∷ (lit "startfile" ∷ (lit "posix_spawn" ∷ (lit "posix_spawnp" ∷ [])))))
    ++ (map (λ s. lit "exec" ++ s) endings ++ map (λ s. lit "spawn" ++ s) endings)

unfoldable pub dangerous_receiver_methods : Dict Text (List Text)
unfolding lit os_exec_funcs dangerous_call_names
dangerous_receiver_methods =
    (
      lit "subprocess",
      lit "run"
          ∷ (lit "Popen"
              ∷ (lit "call" ∷ (lit "check_output" ∷ (lit "check_call" ∷ (lit "popen" ∷ []))))),
    )
    ∷ ((lit "os", os_exec_funcs)
        ∷ ((lit "posix", os_exec_funcs)
            ∷ ((lit "nt", os_exec_funcs)
                ∷ ((lit "builtins", dangerous_call_names)
                    ∷ ((lit "__builtins__", dangerous_call_names) ∷ [])))))

-- `implicit_bindings`: a dangerous module denotes itself, a dangerous builtin its meaning.
unfoldable pub denote_modules : Dict Text (List Text) → Dict Text (List Binding)
denote_modules [] = []
denote_modules ((module_name, members) ∷ receivers) =
    (module_name, (module_name, none) ∷ []) ∷ denote_modules receivers

unfoldable pub add_builtins : List Text → Dict Text (List Binding) → Dict Text (List Binding)
add_builtins [] implicit = implicit
add_builtins (builtin ∷ builtins) implicit =
    add_builtins builtins
      (insert builtin (add (lit "builtins", some builtin) (get_list builtin implicit)) implicit)

unfoldable pub implicit_bindings : Dict Text (List Text) → List Text → Dict Text (List Binding)
unfolding add_builtins denote_modules lit
implicit_bindings receivers call_names =
    add_builtins (call_names ++ (lit "getattr" ∷ [])) (denote_modules receivers)

unfoldable pub tables : Tables
unfolding implicit_bindings
tables = record {
  receivers = dangerous_receiver_methods;
  implicit = implicit_bindings dangerous_receiver_methods dangerous_call_names;
}

-- `s.split(".")[0]`
unfoldable pub root : Text → Text
root [] = []
root (c ∷ cs) = let rest = root cs in if c == 46 then [] else c ∷ rest

unfoldable pub scan_ast_import : List Alias → List Text
scan_ast_import [] = []
scan_ast_import (alias ∷ aliases) =
    let rest = scan_ast_import aliases in
    if contains (root alias.target) dangerous_imports
    then (lit "import:" ++ root alias.target) ∷ rest
    else rest

unfoldable pub scan_members : Text → List Text → List Alias → List Text
scan_members module_name methods [] = []
scan_members module_name methods (alias ∷ aliases) =
    let rest = scan_members module_name methods aliases in
    if alias.target == lit "*" || contains alias.target methods
    then (lit "import:" ++ (module_name ++ (lit "." ++ alias.target))) ∷ rest
    else rest

unfoldable pub scan_ast_import_from : Tables → Text → List Alias → List Text
unfolding scan_members
scan_ast_import_from t module_name aliases =
    (if contains (root module_name) dangerous_imports
      then (lit "import:" ++ root module_name) ∷ []
      else [])
    ++ elim (lookup module_name t.receivers) [
      | none ↦ []
      | some methods ↦ scan_members module_name methods aliases
    ]

-- The modules among bindings, as modules with the attribute.
unfoldable pub with_attribute : Text → List Binding → List Binding
with_attribute attr [] = []
with_attribute attr ((module_name, none) ∷ xs) = (module_name, some attr) ∷ with_attribute attr xs
with_attribute attr ((module_name, some member) ∷ xs) = with_attribute attr xs

-- `resolve`, with what the names hold.
unfoldable pub resolve : (Text → List Binding) → Expr → List Binding
unfolding with_attribute
resolve held (named source) = held source
resolve held (attribute (named source) attr) = with_attribute attr (held source)
resolve held _ = []

-- `[... for x in xs]` where each item gives any number of texts.
abbrev pub collect : (Binding → List Text) → List Binding → List Text
collect f [] = []
collect f (x ∷ xs) = f x ++ collect f xs

-- `call:{module}.{member}()` for a dangerous member.
unfoldable pub call_threat : Tables → Binding → List Text
call_threat t (module_name, none) = []
call_threat t (module_name, some member) =
    if contains member (get_list module_name t.receivers)
    then (lit "call:" ++ (module_name ++ (lit "." ++ (member ++ lit "()")))) ∷ []
    else []

-- `targets & _GETATTR_BINDINGS`
unfoldable pub is_getattr : Binding → Bool
is_getattr (module_name, none) = false
is_getattr (module_name, some member) =
    member == lit "getattr" && contains module_name builtins_modules

unfoldable pub any_getattr : List Binding → Bool
any_getattr [] = false
any_getattr (x ∷ xs) = is_getattr x || any_getattr xs

-- The attribute that `getattr` is called with: a text literal, or one chosen at run time.
abbrev pub literal : Expr → Option Text
literal (text_literal t) = some t
literal _ = none

unfoldable pub getattr_threat : Tables → Option Text → Binding → List Text
getattr_threat t attr (module_name, some member) = []
getattr_threat t none (module_name, none) =
    (lit "call:getattr(" ++ (module_name ++ lit ", <dynamic>)")) ∷ []
getattr_threat t (some attr) (module_name, none) =
    if contains attr (get_list module_name t.receivers)
    then (lit "call:getattr(" ++ (module_name ++ (lit ", '" ++ (attr ++ lit "')")))) ∷ []
    else []

unfoldable pub scan_getattr_call : Tables → (Text → List Binding) → List Expr → List Text
scan_getattr_call t held [] = []
scan_getattr_call t held (receiver ∷ []) = []
scan_getattr_call t held (receiver ∷ (attr ∷ args)) =
    sorted (collect (getattr_threat t (literal attr)) (resolve held receiver))

unfoldable pub is_builtin_call : Expr → Bool
is_builtin_call (named callee) = contains callee dangerous_call_names
is_builtin_call _ = false

abbrev pub callee_name : Expr → Text
callee_name (named callee) = callee
callee_name _ = []

unfoldable pub scan_ast_call : Tables → (Text → List Binding) → Expr → List Expr → List Text
scan_ast_call t held func args =
    if is_builtin_call func
    then (lit "call:" ++ (callee_name func ++ lit "()")) ∷ []
    else sorted (collect (call_threat t) (resolve held func))
      ++ (if any_getattr (resolve held func) then scan_getattr_call t held args else [])

-- What a node adds to the threats, and to the bindings.
unfoldable pub node_threats : Tables → Node → List Text
node_threats t (imports aliases) = scan_ast_import aliases
node_threats t (import_from (some (c ∷ cs)) aliases) = scan_ast_import_from t (c ∷ cs) aliases
node_threats t _ = []

unfoldable pub node_bindings : Tables → Node → Bindings → Bindings
node_bindings t (call func args) b = b
node_bindings t (imports aliases) b = add_import t aliases b
node_bindings t (import_from (some (c ∷ cs)) aliases) b = add_import_from t (c ∷ cs) aliases b
node_bindings t node b = add_assignment node b

-- The single pass over the tree.
unfoldable pub import_threats : Tables → List Node → List Text
import_threats t [] = []
import_threats t (node ∷ nodes) = node_threats t node ++ import_threats t nodes

unfoldable pub bindings_of : Tables → List Node → Bindings → Bindings
bindings_of t [] b = b
bindings_of t (node ∷ nodes) b = bindings_of t nodes (node_bindings t node b)

-- The calls, once every name is resolved.
unfoldable pub call_threats : Tables → (Text → List Binding) → List Node → List Text
call_threats t held [] = []
call_threats t held (call func args ∷ nodes) =
    scan_ast_call t held func args ++ call_threats t held nodes
call_threats t held (node ∷ nodes) = call_threats t held nodes

-- `propagate` always returns: see Bindings/Termination.
unfoldable pub propagated : Tables → Bindings → Dict Text (List Binding)
propagated t b = elim (propagate t b) [ none ↦ b.values | some values ↦ values ]

-- `_scan_ast_threats`, on the nodes in the order of `ast.walk`.
unfoldable pub scan_nodes : Tables → List Node → List Text
unfolding propagated
scan_nodes t nodes =
    let b = bindings_of t nodes no_bindings in
    import_threats t nodes ++ call_threats t (values_in t (propagated t b)) nodes

unfoldable pub scan_ast_threats : List Node → List Text
unfolding scan_nodes tables
scan_ast_threats nodes = scan_nodes tables nodes
