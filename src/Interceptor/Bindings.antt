-- ===== src/Interceptor/Bindings.antt =====
-- `_Bindings`: every dangerous module or member that a name may be bound to.
pub mod Termination
pub mod Follows
pub mod Closure
use mathlib.Core.List.{reverse}
use qwed_a2a.Prelude.{
  ℕ, zero, suc, ◌+◌, ◌*◌, ◌≡◌, ◌↔◌, Bool, true, false, not, ◌&&◌, ◌||◌, Option, none, some, List,
  [], ◌∷◌, ◌++◌, map, arith, if◌then◌else◌, Comparable, ◌==◌, nat-Eq, contains, add, is_some,
  length,
}
use qwed_a2a.Prelude.Text.{Text, lit, text_eq, text_eq_iff, text-Eq}
use qwed_a2a.Dict.{Dict, lookup, insert}
use qwed_a2a.Interceptor.Ast.{
  Expr, named, attribute, sequence, text_literal, other_expr, Exprs, no_exprs, expr, count_exprs,
  Alias, Node, call, imports, import_from, assign, ann_assign, named_expr, other_node,
}

-- A module, or a member of a module.
abbrev pub Binding : Type 0
Binding = Text × Option Text

abbrev same_member : Option Text → Option Text → Bool
same_member none none = true
same_member none (some b) = false
same_member (some a) none = false
same_member (some a) (some b) = text_eq a b

same_member_iff : (a b : Option Text) → (same_member a b ≡ true) ↔ (a ≡ b)
same_member_iff none none = ground arith
same_member_iff none (some b) = ground arith
same_member_iff (some a) none = ground arith
same_member_iff (some a) (some b) = ground (arith, text_eq_iff a b)

abbrev pub same_binding : Binding → Binding → Bool
same_binding (m, a) (n, b) = text_eq m n && same_member a b

pub same_binding_iff : (x y : Binding) → (same_binding x y ≡ true) ↔ (x ≡ y)
same_binding_iff (m, a) (n, b) = ground (arith, text_eq_iff m n, same_member_iff a b)

instance abbrev pub binding-Eq : Comparable Binding
binding-Eq = record { same = same_binding; same_iff = same_binding_iff }

-- An assignment edge: the target, and the attribute taken on the way.
abbrev pub Edge : Type 0
Edge = Text × Option Text

-- The dangerous members of the dangerous modules, and what a name denotes without any assignment.
pub record Tables : Type 0 where
  pub receivers : Dict Text (List Text)
  pub implicit : Dict Text (List Binding)

-- `_values` and `_edges`; a set is the list of its members in the order of their arrival.
pub record Bindings : Type 0 where
  pub values : Dict Text (List Binding)
  pub edges : Dict Text (List Edge)

abbrev pub no_bindings : Bindings
no_bindings = record { values = []; edges = [] }

-- `d.get(k, ())`
abbrev pub or_empty {ℓ} : {A : Type ℓ} → Option (List A) → List A
or_empty none = []
or_empty (some xs) = xs

abbrev pub get_list : {A : Type 0} → Text → Dict Text (List A) → List A
get_list k d = or_empty (lookup k d)

-- `self._values.setdefault(name, set()).add(binding)`
unfoldable pub add_value : Text → Binding → Dict Text (List Binding) → Dict Text (List Binding)
add_value target binding values = insert target (add binding (get_list target values)) values

unfoldable pub builtins_modules : List Text
unfolding lit
builtins_modules = lit "builtins" ∷ lit "__builtins__" ∷ []

unfoldable pub tracked : Tables → Text → Text → Bool
tracked t module_name member =
    if member == lit "getattr"
    then contains module_name builtins_modules
    else contains member (get_list module_name t.receivers)

abbrev bound_name : Alias → Text
bound_name alias = elim alias.asname [ none ↦ alias.target | some asname ↦ asname ]

unfoldable pub add_import : Tables → List Alias → Bindings → Bindings
add_import t [] b = b
add_import t (alias ∷ aliases) b = add_import t aliases (elim alias.asname [
  | none ↦ b
  | some asname ↦
      if is_some (lookup alias.target t.receivers)
      then record b { values = add_value asname (alias.target, none) b.values }
      else b
])

unfoldable pub add_members : Tables → Text → List Alias → Bindings → Bindings
add_members t module_name [] b = b
add_members t module_name (alias ∷ aliases) b = add_members t module_name aliases (
    if not (alias.target == lit "*") && tracked t module_name alias.target
    then record b {
      values = add_value (bound_name alias) (module_name, some alias.target) b.values;
    }
    else b)

unfoldable pub add_import_from : Tables → Text → List Alias → Bindings → Bindings
unfolding add_members
add_import_from t module_name aliases b =
    if not (is_some (lookup module_name t.receivers))
    then b
    else add_members t module_name aliases b

-- `self._edges.setdefault(source, []).append(edge)`
unfoldable pub add_edge : Text → Edge → Bindings → Bindings
add_edge source edge b = record b {
  edges = insert source (get_list source b.edges ++ (edge ∷ [])) b.edges;
}

-- A name bound to an expression.
unfoldable pub bind_name : Text → Expr → Bindings → Bindings
bind_name target (named source) b = add_edge source (target, none) b
bind_name target (attribute (named source) attr) b = add_edge source (target, some attr) b
bind_name target _ b = b

unfoldable mutual
  pub bind : Expr → Expr → Bindings → Bindings
  bind (sequence targets) (sequence values) b =
      if count_exprs values == count_exprs targets then bind_all targets values b else b
  bind (sequence targets) value b = b
  bind (named target) value b = bind_name target value b
  bind target value b = b

  -- `zip(target.elts, value.elts)`
  pub bind_all : Exprs → Exprs → Bindings → Bindings
  bind_all no_exprs values b = b
  bind_all (expr target targets) no_exprs b = b
  bind_all (expr target targets) (expr value values) b =
      bind_all targets values (bind target value b)

unfoldable pub bind_targets : List Expr → Expr → Bindings → Bindings
bind_targets [] value b = b
bind_targets (target ∷ targets) value b = bind_targets targets value (bind target value b)

unfoldable pub add_assignment : Node → Bindings → Bindings
unfolding bind_targets
add_assignment (assign targets value) b = bind_targets targets value b
add_assignment (ann_assign target (some value)) b = bind target value b
add_assignment (named_expr target value) b = bind target value b
add_assignment _ b = b

-- `xs | ys` of sets
unfoldable pub union : List Binding → List Binding → List Binding
union [] ys = ys
union (x ∷ xs) ys = let rest = union xs ys in if contains x rest then rest else x ∷ rest

-- `values_of`: what was given to the name, and what it denotes anyway.
unfoldable pub values_in : Tables → Dict Text (List Binding) → Text → List Binding
unfolding union
values_in t values target = union (get_list target values) (get_list target t.implicit)

unfoldable pub values_of : Tables → Bindings → Text → List Binding
unfolding values_in
values_of t b target = values_in t b.values target

-- `_follow`
unfoldable pub follow : Tables → Binding → Option Text → Option Binding
follow t binding none = some binding
follow t (module_name, some member) (some attr) = none
follow t (module_name, none) (some attr) =
    if tracked t module_name attr then some (module_name, some attr) else none

-- The values known so far, and what is left to do, the last first.
abbrev pub Progress : Type 0
Progress = Dict Text (List Binding) × List (Text × Binding)

unfoldable pub push_new : Text → Option Binding → Progress → Progress
push_new target none progress = progress
push_new target (some new) (values, work) =
    if contains new (get_list target values)
    then (values, work)
    else (add_value target new values, (target, new) ∷ work)

-- The work of one binding along the edges of its name.
unfoldable pub push_edges : Tables → Binding → List Edge → Progress → Progress
push_edges t binding [] progress = progress
push_edges t binding ((target, attr) ∷ es) progress =
    push_edges t binding es (push_new target (follow t binding attr) progress)

-- The `while` loop of `propagate`; `none` means that the fuel ran out.
unfoldable pub propagate_loop :
    Tables
    → Dict Text (List Edge)
    → ℕ
    → Dict Text (List Binding)
    → List (Text × Binding)
    → Option (Dict Text (List Binding))
propagate_loop t edges fuel values [] = some values
propagate_loop t edges zero values ((source, binding) ∷ work) = none
propagate_loop t edges (suc fuel) values ((source, binding) ∷ work) =
    let (values', work') = push_edges t binding (get_list source edges) (values, work) in
    propagate_loop t edges fuel values' work'

abbrev pub paired : Text → List Binding → List (Text × Binding)
paired source [] = []
paired source (b ∷ bs) = (source, b) ∷ paired source bs

-- `[(name, b) for name in self._edges for b in self.values_of(name)]`
unfoldable pub all_work :
    Tables → Dict Text (List Binding) → Dict Text (List Edge) → List (Text × Binding)
all_work t values [] = []
all_work t values ((source, es) ∷ edges) =
    paired source (values_in t values source) ++ all_work t values edges

-- The list's last item is popped first.
unfoldable pub start_work : Tables → Bindings → List (Text × Binding)
start_work t b = reverse (all_work t b.values b.edges)

-- The modules and members that can ever be bound: those at the start, and the attributes on edges.
unfoldable pub modules_in : List (Text × Binding) → List Text
modules_in [] = []
modules_in ((source, (module_name, member)) ∷ work) = module_name ∷ modules_in work

unfoldable pub members_in : List (Text × Binding) → List (Option Text)
members_in [] = none ∷ []
members_in ((source, (module_name, member)) ∷ work) = member ∷ members_in work

unfoldable pub attributes_in : List Edge → List (Option Text)
attributes_in [] = []
attributes_in ((target, attr) ∷ es) = attr ∷ attributes_in es

unfoldable pub targets_in : List Edge → List Text
targets_in [] = []
targets_in ((target, attr) ∷ es) = target ∷ targets_in es

unfoldable pub all_edges : Dict Text (List Edge) → List Edge
all_edges [] = []
all_edges ((source, es) ∷ edges) = es ++ all_edges edges

abbrev pub pairs_with {ℓ} : {A B : Type ℓ} → A → List B → List (A × B)
pairs_with a [] = []
pairs_with a (b ∷ bs) = (a, b) ∷ pairs_with a bs

-- All pairs of a member of one list and a member of the other.
abbrev pub product {ℓ} : {A B : Type ℓ} → List A → List B → List (A × B)
product [] bs = []
product (a ∷ as') bs = pairs_with a bs ++ product as' bs

-- Every pair of a target and a binding that the loop can ever add.
unfoldable pub universe : Bindings → List (Text × Binding) → List (Text × Binding)
universe b work =
    let es = all_edges b.edges in
    product (targets_in es) (product (modules_in work) (members_in work ++ attributes_in es))

-- `propagate`, with the fuel that `Termination` shows to be enough.
unfoldable pub propagate : Tables → Bindings → Option (Dict Text (List Binding))
propagate t b =
    let work = start_work t b in
    propagate_loop t b.edges (length work + length (universe b work)) b.values work
