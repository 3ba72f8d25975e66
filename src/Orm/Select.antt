-- ===== src/Orm/Select.antt =====
-- orm/homework3/builder.go and select.go: the text and the arguments of a SELECT.
-- `registry` stands for the model registry, `quoter` for the dialect's quote, `of_int` for the
-- conversion of an int to `any`. LIMIT and OFFSET are only written when positive, so a negative one
-- is 0 here. An expression that is built again in parentheses is built once, and wrapped.
use go_study.Prelude.{
  ℕ, zero, suc, ◌-◌, Bool, true, false, if◌then◌else◌, List, [], ◌∷◌, Result, ok, err, ◌>>=◌, Bytes,
  bytes, beq, length, take,
}
use go_study.Orm.Syntax.{
  RawExpr, TableRef, no_table, table, join, subquery_table, Subquery, subquery, Selector, selector,
  Column, column, Columns, no_columns, columns, Aggregate, aggregate, Selectable, select_column,
  select_aggregate, select_raw, Selectables, no_selected, selected, Expr, no_expr, column_expr,
  aggregate_expr, value, raw_expr, math, predicate, binary_expr, subquery_pred, subquery_expr,
  Binary, binary, Predicates, no_predicates, predicates, selected_alias, field_name,
}
use go_study.Orm.Output.{
  Error, unknown_field, Model, Out, Write, ◌▷◌, text, silent, add_args, quote, build_as, field_col,
}

module _ {A : Type 0} where
  -- `raw`
  unfoldable pub raw : RawExpr A → Write A
  unfolding text add_args ◌▷◌
  raw r = text r.raw ▷ add_args r.args

  -- `buildSubExpr`, given what `buildExpression` writes.
  unfoldable pub paren : Write A → Write A
  paren w = text (bytes "(") ▷ w ▷ text (bytes ")")

  unfoldable pub op_part : Bytes → Write A
  op_part [] = silent
  op_part (c ∷ cs) = text (bytes " ") ▷ text (c ∷ cs)

  -- What `buildBinaryExpr` writes for `p.And(r)`.
  unfoldable pub and_write : Write A → Write A → Write A
  unfolding paren
  and_write p r = paren p ▷ text (bytes " AND") ▷ (text (bytes " ") ▷ paren r)

  -- `q.SQL[:len(q.SQL)-1]`
  unfoldable pub cut_last : Out A → Write A
  cut_last q = ok (record { sql = take (length q.sql - 1) q.sql; args = q.args })

module _ {E A : Type 0} where
  abbrev pub is_empty : Selectables E A → Bool
  is_empty no_selected = true
  is_empty (selected c cs) = false

  abbrev pub sub_alias : Subquery E A → Bytes
  sub_alias (subquery s cs alias of) = alias

  -- `tableAlias`
  abbrev pub table_alias : TableRef E A → Bytes
  table_alias no_table = []
  table_alias (table e alias) = alias
  table_alias (join l r t on u) = []
  table_alias (subquery_table s) = sub_alias s

  unfoldable pub sub_parens : Expr E A → Write A → Write A
  unfolding paren
  sub_parens (math b) w = paren w
  sub_parens (binary_expr b) w = paren w
  sub_parens (predicate b) w = paren w
  sub_parens e w = w

  unfoldable pub right_part : Expr E A → Write A → Write A
  unfolding sub_parens
  right_part no_expr w = silent
  right_part e w = text (bytes " ") ▷ sub_parens e w

  -- An optional part, with the keyword in front.
  unfoldable pub clause : Bytes → Predicates E A → Write A → Write A
  clause keyword no_predicates w = silent
  clause keyword (predicates p ps) w = text keyword ▷ w

-- The Join case of `colName`, given what its two sides answer.
unfoldable pub join_col : Result Error Bytes → Result Error Bytes → Result Error Bytes
join_col (err e) right = ok []
join_col (ok c) right = right

module _ {E A : Type 0} (registry : E → Result Error Model) where
  -- `colName`
  unfoldable mutual
    pub col_name : Model → TableRef E A → Bytes → Result Error Bytes
    col_name m no_table fd = field_col m fd
    col_name m (table e alias) fd = registry e >>= λ tm. field_col tm fd
    col_name m (join l r t on u) fd = join_col (col_name m l fd) (col_name m r fd)
    col_name m (subquery_table s) fd = sub_col m s fd

    pub sub_col : Model → Subquery E A → Bytes → Result Error Bytes
    sub_col m (subquery s cs alias of) fd =
        if is_empty cs then col_name m of fd else cols_col m cs fd

    pub cols_col : Model → Selectables E A → Bytes → Result Error Bytes
    cols_col m no_selected fd = err (unknown_field fd)
    cols_col m (selected c cs) fd =
        if beq (selected_alias c) fd
        then ok fd
        else if beq (field_name c) fd
        then target_col m c fd
        else cols_col m cs fd

    pub target_col : Model → Selectable E A → Bytes → Result Error Bytes
    target_col m (select_column (column of name alias)) fd = col_name m of fd
    target_col m (select_aggregate (aggregate of fn arg alias)) fd = col_name m of fd
    target_col m (select_raw r) fd = field_col m fd

module _ {E A : Type 0} (registry : E → Result Error Model) (quoter : ℕ) (of_int : ℕ → A) where
  unfoldable pub alias_part : Bytes → Write A
  alias_part [] = silent
  alias_part (c ∷ cs) = quote quoter (c ∷ cs) ▷ text (bytes ".")

  -- `builder.buildColumn`
  unfoldable pub build_col : Model → TableRef E A → Bytes → Write A
  build_col m of fd = alias_part (table_alias of) ▷ (col_name registry m of fd >>= quote quoter)

  -- `Selector.buildColumn` without and with the alias.
  unfoldable pub build_column : Model → Column E A → Write A
  build_column m (column of name alias) = build_col m of name

  unfoldable pub build_column_as : Model → Column E A → Write A
  build_column_as m (column of name alias) = build_col m of name ▷ build_as quoter alias

  unfoldable pub build_aggregate : Model → Aggregate E A → Write A
  build_aggregate m (aggregate of fn arg alias) =
      text fn ▷ text (bytes "(") ▷ build_col m of arg ▷ text (bytes ")")

  unfoldable pub build_aggregate_as : Model → Aggregate E A → Write A
  build_aggregate_as m (aggregate of fn arg alias) =
      build_aggregate m (aggregate of fn arg alias) ▷ build_as quoter alias

  unfoldable pub build_selectable : Model → Selectable E A → Write A
  build_selectable m (select_column c) = build_column_as m c
  build_selectable m (select_aggregate a) = build_aggregate_as m a
  build_selectable m (select_raw r) = raw r

  unfoldable pub more_columns : Model → Selectables E A → Write A
  more_columns m no_selected = silent
  more_columns m (selected c cs) = text (bytes ",") ▷ build_selectable m c ▷ more_columns m cs

  -- `buildColumns`
  unfoldable pub build_columns : Model → Selectables E A → Write A
  build_columns m no_selected = text (bytes "*")
  build_columns m (selected c cs) = build_selectable m c ▷ more_columns m cs

  unfoldable pub more_groups : Model → Columns E A → Write A
  more_groups m no_columns = silent
  more_groups m (columns c cs) = text (bytes ",") ▷ build_column m c ▷ more_groups m cs

  unfoldable pub group_part : Model → Columns E A → Write A
  group_part m no_columns = silent
  group_part m (columns c cs) = text (bytes " GROUP BY ") ▷ build_column m c ▷ more_groups m cs

  -- The columns of a USING, and of ON CONFLICT: names of the model's own fields.
  unfoldable pub more_names : Model → List Bytes → Write A
  more_names m [] = silent
  more_names m (name ∷ names) = text (bytes ",") ▷ build_col m no_table name ▷ more_names m names

  unfoldable pub using_part : Model → List Bytes → Write A
  using_part m [] = silent
  using_part m (name ∷ names) =
      text (bytes " USING (") ▷ build_col m no_table name ▷ more_names m names ▷ text (bytes ")")

  -- ` LIMIT ?` and ` OFFSET ?`
  unfoldable pub number_part : Bytes → ℕ → Write A
  number_part keyword zero = silent
  number_part keyword (suc n) = text keyword ▷ add_args (of_int (suc n) ∷ [])

  unfoldable mutual
    unfolding more_names using_part number_part alias_part

    -- `Selector.Build`, on a fresh builder
    pub build_selector : Selector E A → Write A
    build_selector (selector e from cs ws gs hs limit offset) = registry e >>= λ m.
        text (bytes "SELECT ")
        ▷ build_columns m cs
        ▷ text (bytes " FROM ")
        ▷ build_table m from
        ▷ clause (bytes " WHERE ") ws (build_predicates m ws)
        ▷ group_part m gs
        ▷ clause (bytes " HAVING ") hs (build_predicates m hs)
        ▷ number_part (bytes " LIMIT ?") limit
        ▷ number_part (bytes " OFFSET ?") offset
        ▷ text (bytes ";")

    pub build_table : Model → TableRef E A → Write A
    build_table m no_table = quote quoter m.table_name
    build_table m (table e alias) =
        registry e >>= λ tm. quote quoter tm.table_name ▷ build_as quoter alias
    build_table m (join l r typ on using) =
        text (bytes "(")
        ▷ build_table m l
        ▷ text (bytes " ")
        ▷ text typ
        ▷ text (bytes " ")
        ▷ build_table m r
        ▷ using_part m using
        ▷ clause (bytes " ON ") on (build_predicates m on)
        ▷ text (bytes ")")
    build_table m (subquery_table s) =
        build_subquery s ▷ text (bytes " AS ") ▷ quote quoter (sub_alias s)

    -- `buildSubquery` without the alias
    pub build_subquery : Subquery E A → Write A
    build_subquery (subquery s cs alias of) =
        build_selector s >>= λ q. text (bytes "(") ▷ cut_last q ▷ text (bytes ")")

    pub build_predicates : Model → Predicates E A → Write A
    build_predicates m no_predicates = silent
    build_predicates m (predicates p ps) = and_all m (build_binary m p) ps

    pub and_all : Model → Write A → Predicates E A → Write A
    and_all m w no_predicates = w
    and_all m w (predicates p ps) = and_all m (and_write w (build_binary m p)) ps

    -- `buildExpression`
    pub build_expr : Model → Expr E A → Write A
    build_expr m no_expr = silent
    build_expr m (column_expr c) = build_column m c
    build_expr m (aggregate_expr a) = build_aggregate m a
    build_expr m (value v) = text (bytes "?") ▷ add_args (v ∷ [])
    build_expr m (raw_expr r) = raw r
    build_expr m (math b) = build_binary m b
    build_expr m (predicate b) = build_binary m b
    build_expr m (binary_expr b) = build_binary m b
    build_expr m (subquery_pred s pred) = text pred ▷ text (bytes " ") ▷ build_subquery s
    build_expr m (subquery_expr s) = build_subquery s

    -- `buildBinaryExpr`
    pub build_binary : Model → Binary E A → Write A
    build_binary m (binary l op r) =
        sub_parens l (build_expr m l) ▷ op_part op ▷ right_part r (build_expr m r)
