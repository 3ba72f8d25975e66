-- ===== src/Orm/Syntax.antt =====
-- orm/homework3: what a query is made of (select.go, table.go, expression.go, predicate.go,
-- column.go, aggregate.go, assignment.go), and the functions that put it together.
-- `E` stands for the entity values that the registry is asked about, `A` for Go's `any`.
use go_study.Prelude.{ℕ, List, [], Bytes, bytes}

pub record RawExpr (A : Type 0) : Type 0 where
  pub raw : Bytes
  pub args : List A

mutual
  -- `no_table` is the nil TableReference.
  pub data TableRef (E A : Type 0) : Type 0 where
    no_table : TableRef E A
    table : (entity : E) (alias : Bytes) → TableRef E A
    join :
        (left right : TableRef E A) (typ : Bytes) (on : Predicates E A) (using : List Bytes)
        → TableRef E A
    subquery_table : Subquery E A → TableRef E A

  pub data Subquery (E A : Type 0) : Type 0 where
    subquery :
        (s : Selector E A) (cols : Selectables E A) (alias : Bytes) (of : TableRef E A)
        → Subquery E A

  pub data Selector (E A : Type 0) : Type 0 where
    selector :
        (entity : E) (from : TableRef E A) (cols : Selectables E A) (where_ : Predicates E A)
        (group_by : Columns E A) (having : Predicates E A) (limit offset : ℕ)
        → Selector E A

  pub data Column (E A : Type 0) : Type 0 where
    column : (of : TableRef E A) (name alias : Bytes) → Column E A

  pub data Columns (E A : Type 0) : Type 0 where
    no_columns : Columns E A
    columns : Column E A → Columns E A → Columns E A

  pub data Aggregate (E A : Type 0) : Type 0 where
    aggregate : (of : TableRef E A) (fn arg alias : Bytes) → Aggregate E A

  pub data Selectable (E A : Type 0) : Type 0 where
    select_column : Column E A → Selectable E A
    select_aggregate : Aggregate E A → Selectable E A
    select_raw : RawExpr A → Selectable E A

  pub data Selectables (E A : Type 0) : Type 0 where
    no_selected : Selectables E A
    selected : Selectable E A → Selectables E A → Selectables E A

  -- `no_expr` is the nil Expression.
  pub data Expr (E A : Type 0) : Type 0 where
    no_expr : Expr E A
    column_expr : Column E A → Expr E A
    aggregate_expr : Aggregate E A → Expr E A
    value : A → Expr E A
    raw_expr : RawExpr A → Expr E A
    math : Binary E A → Expr E A
    predicate : Binary E A → Expr E A
    binary_expr : Binary E A → Expr E A
    subquery_pred : Subquery E A → (pred : Bytes) → Expr E A
    subquery_expr : Subquery E A → Expr E A

  -- binaryExpr, and the types Predicate and MathExpr that share its fields.
  pub data Binary (E A : Type 0) : Type 0 where
    binary : (left : Expr E A) (op : Bytes) (right : Expr E A) → Binary E A

  pub data Predicates (E A : Type 0) : Type 0 where
    no_predicates : Predicates E A
    predicates : Binary E A → Predicates E A → Predicates E A

pub data Assignable (E A : Type 0) : Type 0 where
  assign_column : Column E A → Assignable E A
  assignment : (name : Bytes) (val : Expr E A) → Assignable E A
  assign_raw : RawExpr A → Assignable E A

module _ {E A : Type 0} where
  -- column.go
  unfoldable pub as_ : Column E A → Bytes → Column E A
  as_ (column of name _) alias = column no_table name alias

  unfoldable pub add : Column E A → A → Binary E A
  add c delta = binary (column_expr c) (bytes "+") (value delta)

  unfoldable pub multi : Column E A → A → Binary E A
  multi c delta = binary (column_expr c) (bytes "+") (value delta)

  unfoldable pub eq : Column E A → Expr E A → Binary E A
  eq c arg = binary (column_expr c) (bytes "=") arg

  unfoldable pub lt : Column E A → Expr E A → Binary E A
  lt c arg = binary (column_expr c) (bytes "<") arg

  unfoldable pub gt : Column E A → Expr E A → Binary E A
  gt c arg = binary (column_expr c) (bytes ">") arg

  unfoldable pub in_ : Column E A → A → Binary E A
  in_ c vals = binary (column_expr c) (bytes "IN") (value vals)

  unfoldable pub in_query : Column E A → Subquery E A → Binary E A
  in_query c sub = binary (column_expr c) (bytes "IN") (subquery_expr sub)

  -- predicate.go
  unfoldable pub exist : Subquery E A → Binary E A
  exist sub = binary no_expr (bytes "EXIST") (subquery_expr sub)

  unfoldable pub not_ : Binary E A → Binary E A
  not_ p = binary no_expr (bytes "NOT") (predicate p)

  unfoldable pub and_ : Binary E A → Binary E A → Binary E A
  and_ p r = binary (predicate p) (bytes "AND") (predicate r)

  unfoldable pub or_ : Binary E A → Binary E A → Binary E A
  or_ p r = binary (predicate p) (bytes "OR") (predicate r)

  -- expression.go
  unfoldable pub math_add : Binary E A → A → Binary E A
  math_add m val = binary (math m) (bytes "+") (value val)

  unfoldable pub math_multi : Binary E A → A → Binary E A
  math_multi m val = binary (math m) (bytes "*") (value val)

  unfoldable pub any_ : Subquery E A → Expr E A
  any_ sub = subquery_pred sub (bytes "ANY")

  unfoldable pub all_ : Subquery E A → Expr E A
  all_ sub = subquery_pred sub (bytes "ALL")

  unfoldable pub some_ : Subquery E A → Expr E A
  some_ sub = subquery_pred sub (bytes "SOME")

  unfoldable pub as_predicate : RawExpr A → Binary E A
  as_predicate r = binary (raw_expr r) [] no_expr

  -- The methods of Selectable.
  abbrev pub selected_alias : Selectable E A → Bytes
  selected_alias (select_column (column of name alias)) = alias
  selected_alias (select_aggregate (aggregate of fn arg alias)) = alias
  selected_alias (select_raw r) = []

  abbrev pub field_name : Selectable E A → Bytes
  field_name (select_column (column of name alias)) = name
  field_name (select_aggregate (aggregate of fn arg alias)) = arg
  field_name (select_raw r) = []

  -- `AsSubquery`: a selector with no table is one on its own entity.
  table_or : TableRef E A → E → TableRef E A
  table_or no_table e = table e []
  table_or (table e' a) e = table e' a
  table_or (join l r t on u) e = join l r t on u
  table_or (subquery_table s) e = subquery_table s

  unfoldable pub as_subquery : Selector E A → Bytes → Subquery E A
  unfolding table_or
  as_subquery (selector e from cols ws gs hs l o) alias =
      subquery (selector e from cols ws gs hs l o) cols alias (table_or from e)
