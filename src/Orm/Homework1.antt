-- ===== src/Orm/Homework1.antt =====
-- orm/homework1: the first version of the SELECT builder (select.go, aggregate.go, column.go,
-- expression.go, predicate.go). A query names no tables but its own, and the quote is a backquote.
-- The struct types and the tables of the registry are those of Orm.Output; `A` stands for Go's `any`.
pub mod Lift
pub mod Expressions
pub mod Agrees
mod Tests
use go_study.Prelude.{
  ℕ, zero, suc, Bool, true, false, if◌then◌else◌, List, [], ◌∷◌, Result, ok, err, ◌>>=◌, Bytes,
  bytes,
}
use go_study.Orm.Syntax.{RawExpr}
use go_study.Orm.Output.{Error, Model, Out, Write, ◌▷◌, text, silent, add_args, field_col}

-- A Go int.
pub data ℤ : Type 0 where
  pos negsuc : ℕ → ℤ

pub record Column : Type 0 where
  pub name : Bytes
  pub alias : Bytes

pub record Aggregate : Type 0 where
  pub fn : Bytes
  pub arg : Bytes
  pub alias : Bytes

mutual
  -- `no_expr` is the nil Expression.
  pub data Expr (A : Type 0) : Type 0 where
    no_expr : Expr A
    column_expr : Column → Expr A
    aggregate_expr : Aggregate → Expr A
    value : A → Expr A
    raw_expr : RawExpr A → Expr A
    predicate_expr : Predicate A → Expr A

  pub data Predicate (A : Type 0) : Type 0 where
    predicate : (left : Expr A) (op : Bytes) (right : Expr A) → Predicate A

pub data Selectable (A : Type 0) : Type 0 where
  select_column : Column → Selectable A
  select_aggregate : Aggregate → Selectable A
  select_raw : RawExpr A → Selectable A

pub record OrderBy : Type 0 where
  pub col : Bytes
  pub order : Bytes

pub record Selector (E A : Type 0) : Type 0 where
  pub entity : E
  pub table : Bytes
  pub where_ : List (Predicate A)
  pub having : List (Predicate A)
  pub columns : List (Selectable A)
  pub group_by : List Column
  pub order_by : List OrderBy
  pub offset : ℤ
  pub limit : ℤ

abbrev pub asc : Bytes → OrderBy
asc col = record { col = col; order = bytes "ASC" }

abbrev pub desc : Bytes → OrderBy
desc col = record { col = col; order = bytes "DESC" }

-- `C`
abbrev pub c_ : Bytes → Column
c_ name = record { name = name; alias = [] }

abbrev pub column_as : Column → Bytes → Column
column_as c alias = record { name = c.name; alias = alias }

abbrev pub aggregate_of : Bytes → Bytes → Aggregate
aggregate_of fn arg = record { fn = fn; arg = arg; alias = [] }

abbrev pub avg : Bytes → Aggregate
avg arg = aggregate_of (bytes "AVG") arg

abbrev pub max_ : Bytes → Aggregate
max_ arg = aggregate_of (bytes "MAX") arg

abbrev pub min_ : Bytes → Aggregate
min_ arg = aggregate_of (bytes "MIN") arg

abbrev pub count : Bytes → Aggregate
count arg = aggregate_of (bytes "COUNT") arg

abbrev pub sum : Bytes → Aggregate
sum arg = aggregate_of (bytes "SUM") arg

abbrev pub aggregate_as : Aggregate → Bytes → Aggregate
aggregate_as a alias = record { fn = a.fn; arg = a.arg; alias = alias }

module _ {A : Type 0} where
  abbrev pub column_eq : Column → Expr A → Predicate A
  column_eq c arg = predicate (column_expr c) (bytes "=") arg

  abbrev pub column_lt : Column → Expr A → Predicate A
  column_lt c arg = predicate (column_expr c) (bytes "<") arg

  abbrev pub column_gt : Column → Expr A → Predicate A
  column_gt c arg = predicate (column_expr c) (bytes ">") arg

  abbrev pub aggregate_eq : Aggregate → Expr A → Predicate A
  aggregate_eq a arg = predicate (aggregate_expr a) (bytes "=") arg

  abbrev pub aggregate_lt : Aggregate → Expr A → Predicate A
  aggregate_lt a arg = predicate (aggregate_expr a) (bytes "<") arg

  abbrev pub aggregate_gt : Aggregate → Expr A → Predicate A
  aggregate_gt a arg = predicate (aggregate_expr a) (bytes ">") arg

  abbrev pub raw_predicate : RawExpr A → Predicate A
  raw_predicate r = predicate (raw_expr r) [] no_expr

  abbrev pub not_ : Predicate A → Predicate A
  not_ p = predicate no_expr (bytes "NOT") (predicate_expr p)

  abbrev pub and_ : Predicate A → Predicate A → Predicate A
  and_ p r = predicate (predicate_expr p) (bytes "AND") (predicate_expr r)

  abbrev pub or_ : Predicate A → Predicate A → Predicate A
  or_ p r = predicate (predicate_expr p) (bytes "OR") (predicate_expr r)

  abbrev pub is_predicate : Expr A → Bool
  is_predicate (predicate_expr p) = true
  is_predicate _ = false

  -- The byte '`'.
  abbrev pub tick : Write A
  tick = text (96 ∷ [])

  unfoldable pub build_as : Bytes → Write A
  unfolding text silent ◌▷◌
  build_as [] = silent
  build_as (c ∷ cs) = text (bytes " AS ") ▷ tick ▷ text (c ∷ cs) ▷ tick

  -- `buildColumn`
  unfoldable pub build_column : Model → Bytes → Bytes → Write A
  unfolding build_as field_col
  build_column m c alias = tick ▷ (field_col m c >>= λ col. text col ▷ tick ▷ build_as alias)

  -- `buildAggregate`
  unfoldable pub build_aggregate : Model → Aggregate → Bool → Write A
  unfolding build_as field_col
  build_aggregate m a use_alias =
      text a.fn
      ▷ text (bytes "(`")
      ▷ (field_col m a.arg >>= λ col.
          text col ▷ text (bytes "`)") ▷ (if use_alias then build_as a.alias else silent))

  unfoldable pub raw : RawExpr A → Write A
  unfolding text add_args ◌▷◌
  raw r = text r.raw ▷ add_args r.args

  -- The parentheses around a side of a predicate.
  unfoldable pub side : Bool → Write A → Write A
  unfolding text ◌▷◌
  side parens w = if parens then text (bytes "(") ▷ w ▷ text (bytes ")") else w

  unfoldable pub op_part : Bytes → Write A
  unfolding text silent ◌▷◌
  op_part [] = silent
  op_part (c ∷ cs) = text (bytes " ") ▷ text (c ∷ cs) ▷ text (bytes " ")

  -- `buildExpression`
  unfoldable mutual
    unfolding build_column build_aggregate raw side op_part

    pub build_expr : Model → Expr A → Write A
    build_expr m no_expr = silent
    build_expr m (column_expr c) = build_column m c.name []
    build_expr m (aggregate_expr a) = build_aggregate m a false
    build_expr m (value v) = text (bytes "?") ▷ add_args (v ∷ [])
    build_expr m (raw_expr r) = raw r
    build_expr m (predicate_expr p) = build_predicate m p

    pub build_predicate : Model → Predicate A → Write A
    build_predicate m (predicate left op right) =
        side (is_predicate left) (build_expr m left)
        ▷ op_part op
        ▷ side (is_predicate right) (build_expr m right)

  -- `buildPredicates`: all of them as one, and a panic where there is none, which does not happen.
  abbrev pub and_all : Predicate A → List (Predicate A) → Predicate A
  and_all p [] = p
  and_all p (r ∷ ps) = and_all (and_ p r) ps

  unfoldable pub predicates_part : Bytes → Model → List (Predicate A) → Write A
  unfolding build_expr
  predicates_part keyword m [] = silent
  predicates_part keyword m (p ∷ ps) = text keyword ▷ build_expr m (predicate_expr (and_all p ps))

  unfoldable pub build_selectable : Model → Selectable A → Write A
  unfolding build_column build_aggregate raw
  build_selectable m (select_column c) = build_column m c.name c.alias
  build_selectable m (select_aggregate a) = build_aggregate m a true
  build_selectable m (select_raw r) = raw r

  unfoldable pub more_columns : Model → List (Selectable A) → Write A
  unfolding build_selectable
  more_columns m [] = silent
  more_columns m (c ∷ cs) = text (bytes ",") ▷ build_selectable m c ▷ more_columns m cs

  -- `buildColumns`
  unfoldable pub build_columns : Model → List (Selectable A) → Write A
  unfolding more_columns
  build_columns m [] = text (bytes "*")
  build_columns m (c ∷ cs) = build_selectable m c ▷ more_columns m cs

  unfoldable pub more_groups : Model → List Column → Write A
  unfolding build_column
  more_groups m [] = silent
  more_groups m (c ∷ cs) = text (bytes ",") ▷ build_column m c.name c.alias ▷ more_groups m cs

  -- `buildGroupBy`
  unfoldable pub build_group_by : Model → List Column → Write A
  unfolding more_groups
  build_group_by m [] = silent
  build_group_by m (c ∷ cs) =
      text (bytes " GROUP BY ") ▷ build_column m c.name c.alias ▷ more_groups m cs

  unfoldable pub build_order : Model → OrderBy → Write A
  unfolding build_column
  build_order m ob = build_column m ob.col [] ▷ text (bytes " ") ▷ text ob.order

  unfoldable pub more_orders : Model → List OrderBy → Write A
  unfolding build_order
  more_orders m [] = silent
  more_orders m (ob ∷ obs) = text (bytes ",") ▷ build_order m ob ▷ more_orders m obs

  -- `buildOrderBy`
  unfoldable pub build_order_by : Model → List OrderBy → Write A
  unfolding more_orders
  build_order_by m [] = silent
  build_order_by m (ob ∷ obs) = text (bytes " ORDER BY ") ▷ build_order m ob ▷ more_orders m obs

  unfoldable pub build_table : Model → Bytes → Write A
  unfolding text ◌▷◌
  build_table m [] = tick ▷ text m.table_name ▷ tick
  build_table m (c ∷ cs) = text (c ∷ cs)

  -- `buildLimit` and `buildOffset`
  unfoldable pub number_part : (ℤ → A) → Bytes → ℤ → Write A
  unfolding text add_args silent ◌▷◌
  number_part of_int keyword (pos zero) = silent
  number_part of_int keyword (pos (suc n)) =
      text keyword ▷ text (bytes "?") ▷ add_args (of_int (pos (suc n)) ∷ [])
  number_part of_int keyword (negsuc n) =
      text keyword ▷ text (bytes "?") ▷ add_args (of_int (negsuc n) ∷ [])

module _ {E A : Type 0} (registry : E → Result Error Model) (of_int : ℤ → A) where
  -- `Build`, on a fresh selector
  unfoldable pub build : Selector E A → Write A
  unfolding build_columns build_table predicates_part build_group_by build_order_by number_part
  build s = registry s.entity >>= λ m.
      text (bytes "SELECT ")
      ▷ build_columns m s.columns
      ▷ text (bytes " FROM ")
      ▷ build_table m s.table
      ▷ predicates_part (bytes " WHERE ") m s.where_
      ▷ build_group_by m s.group_by
      ▷ predicates_part (bytes " HAVING ") m s.having
      ▷ build_order_by m s.order_by
      ▷ number_part of_int (bytes " LIMIT ") s.limit
      ▷ number_part of_int (bytes " OFFSET ") s.offset
      ▷ text (bytes ";")
