-- ===== src/Orm/Placeholders.antt =====
-- orm/homework3: the text of a query has as many placeholders as the query has arguments.
use go_study.Prelude.{ℕ, zero, suc, false, ◌==◌, List, [], ◌∷◌, Result, Bytes, ◌≡◌, refl, All}
use go_study.Orm.Syntax.{
  TableRef, no_table, table, join, subquery_table, subquery, Column, column, Columns, no_columns,
  columns, Aggregate, aggregate, Selectable, select_column, select_aggregate, select_raw,
  Selectables, no_selected, selected, Expr, no_expr, math, predicate, binary_expr, Predicates,
  no_predicates, predicates,
}
use go_study.Orm.Output.{Error, Model, Write}
use go_study.Orm.Select.{
  table_alias, sub_parens, op_part, right_part, and_write, clause, col_name, build_col,
  build_column, build_column_as, build_aggregate, build_aggregate_as, build_selectable,
  build_columns, group_part, more_names, alias_part, more_columns, more_groups, using_part,
  number_part,
}
use go_study.Orm.Clean.{
  marks, HasNoMark, IsCleanModel, IsCleanRegistry, CleanTable, CleanColumn, CleanColumns,
  CleanAggregate, CleanSelectable, CleanSelectables,
}
use go_study.Orm.Balanced.{
  IsBalanced, ◌▶◌, bind-IsBalanced, text-IsBalanced, silent-IsBalanced, raw-IsBalanced,
  mark-IsBalanced, paren-IsBalanced, quote-IsBalanced, build_as-IsBalanced,
}
use go_study.Orm.Names.{col_name-IsCleanName}

module _ {A : Type 0} where
  pub and_write-IsBalanced :
      {p r : Write A} → IsBalanced p → IsBalanced r → IsBalanced (and_write p r)
  unfolding and_write
  and_write-IsBalanced hp hr =
      paren-IsBalanced hp ▶ text-IsBalanced _ refl ▶ (text-IsBalanced _ refl ▶ paren-IsBalanced hr)

  pub op_part-IsBalanced : (op : Bytes) → HasNoMark op → IsBalanced {A = A} (op_part op)
  unfolding op_part
  op_part-IsBalanced [] h = silent-IsBalanced
  op_part-IsBalanced (c ∷ cs) h = text-IsBalanced _ refl ▶ text-IsBalanced (c ∷ cs) h

module _ {E A : Type 0} where
  pub sub_parens-IsBalanced :
      (e : Expr E A) {w : Write A} → IsBalanced w → IsBalanced (sub_parens e w)
  unfolding sub_parens
  sub_parens-IsBalanced (math b) h = paren-IsBalanced h
  sub_parens-IsBalanced (binary_expr b) h = paren-IsBalanced h
  sub_parens-IsBalanced (predicate b) h = paren-IsBalanced h
  sub_parens-IsBalanced _ h = h

  pub right_part-IsBalanced :
      (e : Expr E A) {w : Write A} → IsBalanced w → IsBalanced (right_part e w)
  unfolding right_part
  right_part-IsBalanced no_expr h = silent-IsBalanced
  right_part-IsBalanced (math b) h = text-IsBalanced _ refl ▶ paren-IsBalanced h
  right_part-IsBalanced (binary_expr b) h = text-IsBalanced _ refl ▶ paren-IsBalanced h
  right_part-IsBalanced (predicate b) h = text-IsBalanced _ refl ▶ paren-IsBalanced h
  right_part-IsBalanced _ h = text-IsBalanced _ refl ▶ h

  pub clause-IsBalanced :
      (keyword : Bytes) (ps : Predicates E A) {w : Write A}
      → HasNoMark keyword
      → IsBalanced w
      → IsBalanced (clause keyword ps w)
  unfolding clause
  clause-IsBalanced keyword no_predicates k h = silent-IsBalanced
  clause-IsBalanced keyword (predicates p ps) k h = text-IsBalanced keyword k ▶ h

  pub table_alias-HasNoMark : (of : TableRef E A) → CleanTable of → HasNoMark (table_alias of)
  unfolding CleanTable
  table_alias-HasNoMark no_table h = refl
  table_alias-HasNoMark (table e alias) h = h
  table_alias-HasNoMark (join l r t on u) h = refl
  table_alias-HasNoMark (subquery_table (subquery s cs alias of)) (_, h) = h

module _ {E A : Type 0} (registry : E → Result Error Model) (quoter : ℕ) (of_int : ℕ → A)
    (clean : IsCleanRegistry registry) (plain : (quoter == b'?') ≡ false) where
  pub alias_part-IsBalanced :
      (s : Bytes) → HasNoMark s → IsBalanced (alias_part registry quoter of_int s)
  unfolding alias_part
  alias_part-IsBalanced [] h = silent-IsBalanced
  alias_part-IsBalanced (c ∷ cs) h =
      quote-IsBalanced quoter plain (c ∷ cs) h ▶ text-IsBalanced _ refl

  pub number_part-IsBalanced :
      (keyword : Bytes) (n : ℕ)
      → marks keyword ≡ 1
      → IsBalanced (number_part registry quoter of_int keyword n)
  unfolding number_part
  number_part-IsBalanced keyword zero h = silent-IsBalanced
  number_part-IsBalanced keyword (suc n) h = mark-IsBalanced keyword (of_int (suc n)) h

  module _ (m : Model) (h : IsCleanModel m) where
    pub build_col-IsBalanced :
        (of : TableRef E A) (name : Bytes)
        → CleanTable of
        → HasNoMark name
        → IsBalanced (build_col registry quoter of_int m of name)
    unfolding build_col
    build_col-IsBalanced of name c n =
        alias_part-IsBalanced (table_alias of) (table_alias-HasNoMark of c)
        ▶ bind-IsBalanced (col_name registry m of name) λ s e.
          quote-IsBalanced quoter plain s (col_name-IsCleanName registry clean m h of name n s e)

    pub build_aggregate-IsBalanced :
        (a : Aggregate E A)
        → CleanAggregate a
        → IsBalanced (build_aggregate registry quoter of_int m a)
    unfolding build_aggregate CleanTable
    build_aggregate-IsBalanced (aggregate of fn arg alias) (t, f, a, _) =
        text-IsBalanced fn f
        ▶ text-IsBalanced _ refl
        ▶ build_col-IsBalanced of arg t a
        ▶ text-IsBalanced _ refl

    pub build_column-IsBalanced :
        (c : Column E A) → CleanColumn c → IsBalanced (build_column registry quoter of_int m c)
    unfolding build_column CleanTable
    build_column-IsBalanced (column of name alias) (t, n, _) = build_col-IsBalanced of name t n

    pub build_selectable-IsBalanced :
        (c : Selectable E A)
        → CleanSelectable c
        → IsBalanced (build_selectable registry quoter of_int m c)
    unfolding build_selectable build_column_as build_aggregate_as CleanTable
    build_selectable-IsBalanced (select_column (column of name alias)) (t, n, a) =
        build_col-IsBalanced of name t n ▶ build_as-IsBalanced quoter plain alias a
    build_selectable-IsBalanced (select_aggregate (aggregate of fn arg alias)) (t, f, a, as_clean) =
        build_aggregate-IsBalanced (aggregate of fn arg alias) (t, f, a, as_clean)
        ▶ build_as-IsBalanced quoter plain alias as_clean
    build_selectable-IsBalanced (select_raw r) k = raw-IsBalanced r k

    pub more_columns-IsBalanced :
        (cs : Selectables E A)
        → CleanSelectables cs
        → IsBalanced (more_columns registry quoter of_int m cs)
    unfolding more_columns CleanTable
    more_columns-IsBalanced no_selected k = silent-IsBalanced
    more_columns-IsBalanced (selected c cs) (k, ks) =
        text-IsBalanced _ refl ▶ build_selectable-IsBalanced c k ▶ more_columns-IsBalanced cs ks

    pub build_columns-IsBalanced :
        (cs : Selectables E A)
        → CleanSelectables cs
        → IsBalanced (build_columns registry quoter of_int m cs)
    unfolding build_columns CleanTable
    build_columns-IsBalanced no_selected k = text-IsBalanced _ refl
    build_columns-IsBalanced (selected c cs) (k, ks) =
        build_selectable-IsBalanced c k ▶ more_columns-IsBalanced cs ks

    pub more_groups-IsBalanced :
        (cs : Columns E A) → CleanColumns cs → IsBalanced (more_groups registry quoter of_int m cs)
    unfolding more_groups CleanTable
    more_groups-IsBalanced no_columns k = silent-IsBalanced
    more_groups-IsBalanced (columns c cs) (k, ks) =
        text-IsBalanced _ refl ▶ build_column-IsBalanced c k ▶ more_groups-IsBalanced cs ks

    pub group_part-IsBalanced :
        (cs : Columns E A) → CleanColumns cs → IsBalanced (group_part registry quoter of_int m cs)
    unfolding group_part CleanTable
    group_part-IsBalanced no_columns k = silent-IsBalanced
    group_part-IsBalanced (columns c cs) (k, ks) =
        text-IsBalanced _ refl ▶ build_column-IsBalanced c k ▶ more_groups-IsBalanced cs ks

    pub more_names-IsBalanced :
        (names : List Bytes)
        → All HasNoMark names
        → IsBalanced (more_names registry quoter of_int m names)
    unfolding more_names CleanTable
    more_names-IsBalanced [] k = silent-IsBalanced
    more_names-IsBalanced (n ∷ names) (k, ks) =
        text-IsBalanced _ refl
        ▶ build_col-IsBalanced no_table n tt k
        ▶ more_names-IsBalanced names ks

    pub using_part-IsBalanced :
        (names : List Bytes)
        → All HasNoMark names
        → IsBalanced (using_part registry quoter of_int m names)
    unfolding using_part CleanTable
    using_part-IsBalanced [] k = silent-IsBalanced
    using_part-IsBalanced (n ∷ names) (k, ks) =
        text-IsBalanced _ refl
        ▶ build_col-IsBalanced no_table n tt k
        ▶ more_names-IsBalanced names ks
        ▶ text-IsBalanced _ refl
