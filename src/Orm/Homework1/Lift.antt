-- ===== src/Orm/Homework1/Lift.antt =====
-- The queries of orm/homework1 as queries of orm/homework3.
use go_study.Prelude.{ℕ, List, [], ◌∷◌, Bytes, ◌≡◌, All}
use go_study.Orm.Syntax.{
  TableRef, no_table, Columns, no_columns, columns, Selectables, no_selected, selected, Binary,
  binary, Predicates, no_predicates, predicates,
}
use go_study.Orm.Syntax as Later
use go_study.Orm.Homework1.{
  Column, Aggregate, Expr, no_expr, column_expr, aggregate_expr, value, raw_expr, predicate_expr,
  Predicate, predicate, Selectable, select_column, select_aggregate, select_raw, Selector, ℤ, pos,
  negsuc,
}

module _ {E A : Type 0} where
  abbrev pub lift_column : Column → Later.Column E A
  lift_column c = Later.column no_table c.name c.alias

  abbrev pub lift_aggregate : Aggregate → Later.Aggregate E A
  lift_aggregate a = Later.aggregate no_table a.fn a.arg a.alias

  abbrev mutual
    pub lift_expr : Expr A → Later.Expr E A
    lift_expr no_expr = Later.no_expr
    lift_expr (column_expr c) = Later.column_expr (lift_column c)
    lift_expr (aggregate_expr a) = Later.aggregate_expr (lift_aggregate a)
    lift_expr (value v) = Later.value v
    lift_expr (raw_expr r) = Later.raw_expr r
    lift_expr (predicate_expr p) = Later.predicate (lift_predicate p)

    pub lift_predicate : Predicate A → Binary E A
    lift_predicate (predicate l op r) = binary (lift_expr l) op (lift_expr r)

  abbrev pub lift_predicates : List (Predicate A) → Predicates E A
  lift_predicates [] = no_predicates
  lift_predicates (p ∷ ps) = predicates (lift_predicate p) (lift_predicates ps)

  abbrev pub lift_selectable : Selectable A → Later.Selectable E A
  lift_selectable (select_column c) = Later.select_column (lift_column c)
  lift_selectable (select_aggregate a) = Later.select_aggregate (lift_aggregate a)
  lift_selectable (select_raw r) = Later.select_raw r

  abbrev pub lift_selectables : List (Selectable A) → Selectables E A
  lift_selectables [] = no_selected
  lift_selectables (c ∷ cs) = selected (lift_selectable c) (lift_selectables cs)

  abbrev pub lift_columns : List Column → Columns E A
  lift_columns [] = no_columns
  lift_columns (c ∷ cs) = columns (lift_column c) (lift_columns cs)

-- A negative number is left out by the later builder, as 0 is.
abbrev pub lift_number : ℤ → ℕ
lift_number (pos n) = n
lift_number (negsuc n) = 0

abbrev pub lift : {E A : Type 0} → Selector E A → Later.Selector E A
lift s =
    Later.selector s.entity no_table (lift_selectables s.columns) (lift_predicates s.where_)
      (lift_columns s.group_by) (lift_predicates s.having) (lift_number s.limit)
      (lift_number s.offset)

-- A predicate that the exported functions can make: an operator has a right side.
abbrev pub IsFull : {A : Type 0} → Bytes → Expr A → Type 0
IsFull [] no_expr = Unit
IsFull [] _ = ⊥
IsFull (c ∷ cs) no_expr = ⊥
IsFull (c ∷ cs) _ = Unit

abbrev mutual
  pub IsMadeExpr : {A : Type 0} → Expr A → Type 0
  IsMadeExpr (predicate_expr p) = IsMade p
  IsMadeExpr _ = Unit

  pub IsMade : {A : Type 0} → Predicate A → Type 0
  IsMade (predicate l op r) = IsMadeExpr l × IsMadeExpr r × IsFull op r

abbrev pub IsPlain : Column → Type 0
IsPlain c = c.alias ≡ []

abbrev pub IsNatural : ℤ → Type 0
IsNatural (pos n) = Unit
IsNatural (negsuc n) = ⊥

-- The queries that both versions know: on the entity's own table, grouped by columns without an
-- alias, not ordered, and without negative numbers.
pub record IsCommon {E A : Type 0} (s : Selector E A) : Type 0 where
  pub table : s.table ≡ []
  pub where_made : All IsMade s.where_
  pub having_made : All IsMade s.having
  pub groups : All IsPlain s.group_by
  pub unordered : s.order_by ≡ []
  pub limit : IsNatural s.limit
  pub offset : IsNatural s.offset
