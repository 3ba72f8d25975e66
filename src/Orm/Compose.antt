-- ===== src/Orm/Compose.antt =====
-- orm/homework3: the methods that join tables, set the parts of a query and make aggregates
-- (table.go, select.go, aggregate.go, predicate.go, assignment.go, column.go, expression.go,
-- insert.go, updater.go). A setter returns what the Go code leaves in its receiver.
use go_study.Prelude.{ℕ, List, [], Bytes, bytes, ◌⊎◌, inl, inr, some}
use go_study.Orm.Syntax.{
  RawExpr, TableRef, no_table, table, join, subquery_table, Selector, selector, Column, column,
  Columns, Aggregate, aggregate, Selectables, Expr, aggregate_expr, value, Binary, binary,
  Predicates, no_predicates, Assignable, assignment,
}
use go_study.Orm.Modify.{Inserter, Updater}

pub record JoinBuilder (E A : Type 0) : Type 0 where
  pub left : TableRef E A
  pub right : TableRef E A
  pub typ : Bytes

pub record UpsertBuilder (E A Row : Type 0) : Type 0 where
  pub i : Inserter E A Row
  pub conflict_columns : List Bytes

-- `Raw`
unfoldable pub raw_of : {A : Type 0} → Bytes → List A → RawExpr A
raw_of expr args = record { raw = expr; args = args }

module _ {E A : Type 0} where
  unfoldable pub table_of : E → TableRef E A
  table_of entity = table entity []

  -- `Table.As`; no other table has it.
  unfoldable pub table_as : TableRef E A → Bytes → TableRef E A
  table_as (table entity old) alias = table entity alias
  table_as no_table alias = no_table
  table_as (join l r typ on using) alias = join l r typ on using
  table_as (subquery_table s) alias = subquery_table s

  -- `Table.C` and `Subquery.C`
  unfoldable pub column_of : TableRef E A → Bytes → Column E A
  column_of of name = column of name []

  -- `C`
  unfoldable pub plain_column : Bytes → Column E A
  plain_column name = column no_table name []

  -- `Join`, `LeftJoin` and `RightJoin` of a Table, a Join or a Subquery.
  unfoldable pub inner_join : TableRef E A → TableRef E A → JoinBuilder E A
  inner_join left target = record { left = left; right = target; typ = bytes "JOIN" }

  unfoldable pub left_join : TableRef E A → TableRef E A → JoinBuilder E A
  left_join left target = record { left = left; right = target; typ = bytes "LEFT JOIN" }

  unfoldable pub right_join : TableRef E A → TableRef E A → JoinBuilder E A
  right_join left target = record { left = left; right = target; typ = bytes "RIGHT JOIN" }

  unfoldable pub join_on : JoinBuilder E A → Predicates E A → TableRef E A
  join_on j ps = join j.left j.right j.typ ps []

  unfoldable pub join_using : JoinBuilder E A → List Bytes → TableRef E A
  join_using j cs = join j.left j.right j.typ no_predicates cs

  -- `exprOf`: an expression, or else a value.
  unfoldable pub expr_of : Expr E A ⊎ A → Expr E A
  expr_of (inl e) = e
  expr_of (inr v) = value v

  -- aggregate.go
  unfoldable pub aggregate_as : Aggregate E A → Bytes → Aggregate E A
  aggregate_as (aggregate of fn arg old) alias = aggregate no_table fn arg alias

  unfoldable pub aggregate_eq : Aggregate E A → Expr E A ⊎ A → Binary E A
  unfolding expr_of
  aggregate_eq a arg = binary (aggregate_expr a) (bytes "=") (expr_of arg)

  unfoldable pub aggregate_lt : Aggregate E A → Expr E A ⊎ A → Binary E A
  unfolding expr_of
  aggregate_lt a arg = binary (aggregate_expr a) (bytes "<") (expr_of arg)

  unfoldable pub aggregate_gt : Aggregate E A → Expr E A ⊎ A → Binary E A
  unfolding expr_of
  aggregate_gt a arg = binary (aggregate_expr a) (bytes ">") (expr_of arg)

  unfoldable pub avg : Bytes → Aggregate E A
  avg c = aggregate no_table (bytes "AVG") c []

  unfoldable pub max_of : Bytes → Aggregate E A
  max_of c = aggregate no_table (bytes "MAX") c []

  unfoldable pub min_of : Bytes → Aggregate E A
  min_of c = aggregate no_table (bytes "MIN") c []

  unfoldable pub count : Bytes → Aggregate E A
  count c = aggregate no_table (bytes "COUNT") c []

  unfoldable pub sum : Bytes → Aggregate E A
  sum c = aggregate no_table (bytes "SUM") c []

  -- `Assign`
  unfoldable pub assign_to : Bytes → Expr E A ⊎ A → Assignable E A
  unfolding expr_of
  assign_to name val = assignment name (expr_of val)

  -- select.go
  unfoldable pub set_columns : Selectables E A → Selector E A → Selector E A
  set_columns new (selector e from cols ws gs hs l o) = selector e from new ws gs hs l o

  unfoldable pub set_from : TableRef E A → Selector E A → Selector E A
  set_from new (selector e from cols ws gs hs l o) = selector e new cols ws gs hs l o

  unfoldable pub set_where : Predicates E A → Selector E A → Selector E A
  set_where new (selector e from cols ws gs hs l o) = selector e from cols new gs hs l o

  unfoldable pub set_group_by : Columns E A → Selector E A → Selector E A
  set_group_by new (selector e from cols ws gs hs l o) = selector e from cols ws new hs l o

  unfoldable pub set_having : Predicates E A → Selector E A → Selector E A
  set_having new (selector e from cols ws gs hs l o) = selector e from cols ws gs new l o

  unfoldable pub set_offset : ℕ → Selector E A → Selector E A
  set_offset new (selector e from cols ws gs hs l o) = selector e from cols ws gs hs l new

  unfoldable pub set_limit : ℕ → Selector E A → Selector E A
  set_limit new (selector e from cols ws gs hs l o) = selector e from cols ws gs hs new o

module _ {E A Row : Type 0} where
  -- insert.go
  unfoldable pub set_values : List Row → Inserter E A Row → Inserter E A Row
  set_values vals i = record i { values = vals }

  unfoldable pub insert_columns : List Bytes → Inserter E A Row → Inserter E A Row
  insert_columns cols i = record i { columns = cols }

  unfoldable pub on_duplicate_key : Inserter E A Row → UpsertBuilder E A Row
  on_duplicate_key i = record { i = i; conflict_columns = [] }

  unfoldable pub on_conflict : List Bytes → UpsertBuilder E A Row → UpsertBuilder E A Row
  on_conflict cols o = record o { conflict_columns = cols }

  unfoldable pub upsert_with : List (Assignable E A) → UpsertBuilder E A Row → Inserter E A Row
  upsert_with assigns o = record o.i {
    upsert = some (record { conflict_columns = o.conflict_columns; assigns = assigns });
  }

  -- updater.go
  unfoldable pub set_val : Row → Updater E A Row → Updater E A Row
  set_val t u = record u { val = t }

  unfoldable pub set_assigns : List (Assignable E A) → Updater E A Row → Updater E A Row
  set_assigns assigns u = record u { assigns = assigns }

  unfoldable pub update_where : Predicates E A → Updater E A Row → Updater E A Row
  update_where ps u = record u { where_ = ps }
