-- ===== src/Orm/Clean.antt =====
-- Queries of orm/homework3 whose names hold no question mark, and whose raw parts come with an
-- argument for each of theirs: the assumption under which placeholders can be counted.
use go_study.Prelude.{
  ℕ, suc, ◌==◌, if◌then◌else◌, [], ◌∷◌, ◌++◌, ◌≡◌, ok, Result, Bytes, length, All, ◌+◌, arith,
}
use go_study.Orm.Syntax.{
  RawExpr, TableRef, no_table, table, join, subquery_table, Subquery, subquery, Selector, selector,
  Column, column, Columns, no_columns, columns, Aggregate, aggregate, Selectable, select_column,
  select_aggregate, select_raw, Selectables, no_selected, selected, Expr, no_expr, column_expr,
  aggregate_expr, value, raw_expr, math, predicate, binary_expr, subquery_pred, subquery_expr,
  Binary, binary, Predicates, no_predicates, predicates,
}
use go_study.Orm.Output.{Error, Model}

-- How many placeholders a text holds.
abbrev pub marks : Bytes → ℕ
marks [] = 0
marks (c ∷ s) = if c == b'?' then suc (marks s) else marks s

pub marks-append : (s t : Bytes) → marks (s ++ t) ≡ marks s + marks t
marks-append [] t = omega arith
marks-append (c ∷ s) t = ground (arith, marks-append s t)

abbrev pub HasNoMark : Bytes → Type 0
HasNoMark s = marks s ≡ 0

pub record IsCleanModel (m : Model) : Type 0 where
  pub table_clean : HasNoMark m.table_name
  pub fields_clean : All (λ f. HasNoMark f.col_name) m.fields
  pub map_clean : All (λ e. HasNoMark e.1.col_name) m.field_map

abbrev pub IsCleanRegistry : {E : Type 0} → (E → Result Error Model) → Type 0
IsCleanRegistry {E} registry = (e : E) (m : Model) → registry e ≡ ok m → IsCleanModel m

abbrev pub IsCleanRaw : {A : Type 0} → RawExpr A → Type 0
IsCleanRaw r = marks r.raw ≡ length r.args

unfoldable mutual
  pub CleanTable : {E A : Type 0} → TableRef E A → Type 0
  CleanTable no_table = Unit
  CleanTable (table e alias) = HasNoMark alias
  CleanTable (join l r typ on using) =
      CleanTable l × CleanTable r × HasNoMark typ × CleanPredicates on × All HasNoMark using
  CleanTable (subquery_table s) = CleanSubquery s

  pub CleanSubquery : {E A : Type 0} → Subquery E A → Type 0
  CleanSubquery (subquery s cs alias of) = CleanSelector s × HasNoMark alias

  pub CleanSelector : {E A : Type 0} → Selector E A → Type 0
  CleanSelector (selector e from cs ws gs hs limit offset) =
      CleanTable from
      × CleanSelectables cs
      × CleanPredicates ws
      × CleanColumns gs
      × CleanPredicates hs

  pub CleanColumn : {E A : Type 0} → Column E A → Type 0
  CleanColumn (column of name alias) = CleanTable of × HasNoMark name × HasNoMark alias

  pub CleanColumns : {E A : Type 0} → Columns E A → Type 0
  CleanColumns no_columns = Unit
  CleanColumns (columns c cs) = CleanColumn c × CleanColumns cs

  pub CleanAggregate : {E A : Type 0} → Aggregate E A → Type 0
  CleanAggregate (aggregate of fn arg alias) =
      CleanTable of × HasNoMark fn × HasNoMark arg × HasNoMark alias

  pub CleanSelectable : {E A : Type 0} → Selectable E A → Type 0
  CleanSelectable (select_column c) = CleanColumn c
  CleanSelectable (select_aggregate a) = CleanAggregate a
  CleanSelectable (select_raw r) = IsCleanRaw r

  pub CleanSelectables : {E A : Type 0} → Selectables E A → Type 0
  CleanSelectables no_selected = Unit
  CleanSelectables (selected c cs) = CleanSelectable c × CleanSelectables cs

  pub CleanExpr : {E A : Type 0} → Expr E A → Type 0
  CleanExpr no_expr = Unit
  CleanExpr (column_expr c) = CleanColumn c
  CleanExpr (aggregate_expr a) = CleanAggregate a
  CleanExpr (value v) = Unit
  CleanExpr (raw_expr r) = IsCleanRaw r
  CleanExpr (math b) = CleanBinary b
  CleanExpr (predicate b) = CleanBinary b
  CleanExpr (binary_expr b) = CleanBinary b
  CleanExpr (subquery_pred s pred) = CleanSubquery s × HasNoMark pred
  CleanExpr (subquery_expr s) = CleanSubquery s

  pub CleanBinary : {E A : Type 0} → Binary E A → Type 0
  CleanBinary (binary l op r) = CleanExpr l × HasNoMark op × CleanExpr r

  pub CleanPredicates : {E A : Type 0} → Predicates E A → Type 0
  CleanPredicates no_predicates = Unit
  CleanPredicates (predicates p ps) = CleanBinary p × CleanPredicates ps
