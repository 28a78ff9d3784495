-- ===== src/Interceptor/Ast.antt =====
-- The part of Python's `ast` that the code guard looks at.
use qwed_a2a.Prelude.{ℕ, suc, Option, List}
use qwed_a2a.Prelude.Text.{Text}

-- A name, an attribute of an expression, a `Tuple` or a `List`, a text literal, or anything else.
mutual
  pub data Expr : Type 0 where
    named : Text → Expr
    attribute : Expr → Text → Expr
    sequence : Exprs → Expr
    text_literal : Text → Expr
    other_expr : Expr

  pub data Exprs : Type 0 where
    no_exprs : Exprs
    expr : Expr → Exprs → Exprs

abbrev pub count_exprs : Exprs → ℕ
count_exprs no_exprs = 0
count_exprs (expr e es) = suc (count_exprs es)

pub record Alias : Type 0 where
  pub target : Text
  pub asname : Option Text

-- A node that `ast.walk` comes by: `Call`, `Import`, `ImportFrom`, `Assign`, `AnnAssign`, `NamedExpr`,
-- or anything else.
pub data Node : Type 0 where
  call : Expr → List Expr → Node
  imports : List Alias → Node
  import_from : Option Text → List Alias → Node
  assign : List Expr → Expr → Node
  ann_assign : Expr → Option Expr → Node
  named_expr : Expr → Expr → Node
  other_node : Node
