-- ===== src/Orm/SelectCounts.antt =====
-- orm/homework3/builder.go and select.go: placeholders and arguments of a whole SELECT.
use go_study.Prelude.{
  ℕ, false, ◌==◌, [], ◌∷◌, ◌++◌, Result, ok, err, Bytes, bytes, length, ◌≡◌, refl, sym, ap,
  >>=-eq-ok,
}
use go_study.Orm.Syntax.{
  TableRef, no_table, table, join, subquery_table, Subquery, subquery, Selector, selector, Expr,
  no_expr, column_expr, aggregate_expr, value, raw_expr, math, predicate, binary_expr,
  subquery_pred, subquery_expr, Binary, binary, Predicates, no_predicates, predicates,
}
use go_study.Orm.Output.{Error, Model, Out, Write, ◌▷◌, text}
use go_study.Orm.Select.{
  sub_alias, build_selector, build_table, build_subquery, build_predicates, and_all, build_expr,
  build_binary,
}
use go_study.Orm.Clean.{
  marks, HasNoMark, IsCleanModel, IsCleanRegistry, CleanTable, CleanSubquery, CleanSelector,
  CleanExpr, CleanBinary, CleanPredicates,
}
use go_study.Orm.Balanced.{
  IsBalanced, ◌▶◌, bind-IsBalanced, text-IsBalanced, silent-IsBalanced, raw-IsBalanced,
  mark-IsBalanced, cut_last-IsBalanced, quote-IsBalanced, build_as-IsBalanced,
}
use go_study.Orm.Placeholders.{
  and_write-IsBalanced, op_part-IsBalanced, sub_parens-IsBalanced, right_part-IsBalanced,
  clause-IsBalanced, number_part-IsBalanced, build_aggregate-IsBalanced, build_column-IsBalanced,
  build_columns-IsBalanced, group_part-IsBalanced, using_part-IsBalanced,
}

module _ {A : Type 0} where
  terminated_lem :
      (w : Write A) (q : Out A)
      → (w ▷ text (bytes ";")) ≡ ok q
      → (front : Bytes) × (q.sql ≡ front ++ (b';' ∷ []))
  unfolding ◌▷◌ text
  terminated_lem (ok x) q e = (x.sql, sym (ap sql_of e))
    where
      sql_of : Write A → Bytes
      sql_of (ok o) = o.sql
      sql_of (err e) = []
  terminated_lem (err x) q e = cc

sub_alias-HasNoMark : {E A : Type 0} (s : Subquery E A) → CleanSubquery s → HasNoMark (sub_alias s)
unfolding CleanTable
sub_alias-HasNoMark (subquery s cs alias of) (_, h) = h

module _ {E A : Type 0} (registry : E → Result Error Model) (quoter : ℕ) (of_int : ℕ → A)
    (clean : IsCleanRegistry registry) (plain : (quoter == b'?') ≡ false) where
  build_selector_terminated :
      (s : Selector E A) (q : Out A)
      → build_selector registry quoter of_int s ≡ ok q
      → (front : Bytes) × (q.sql ≡ front ++ (b';' ∷ []))
  unfolding build_selector
  build_selector_terminated (selector e from cs ws gs hs limit offset) q h =
      let (m, _, written) = >>=-eq-ok (registry e) _ h in terminated_lem _ q written

  mutual
    unfolding build_selector CleanTable

    build_selector_counts :
        (s : Selector E A) → CleanSelector s → IsBalanced (build_selector registry quoter of_int s)
    build_selector_counts (selector e from cs ws gs hs limit offset) (f, c, w, g, h) =
        bind-IsBalanced (registry e) λ m e'.
          let k = clean e m e' in
          text-IsBalanced _ refl
          ▶ build_columns-IsBalanced registry quoter of_int clean plain m k cs c
          ▶ text-IsBalanced _ refl
          ▶ build_table_counts m k from f
          ▶ clause-IsBalanced _ ws refl (build_predicates_counts m k ws w)
          ▶ group_part-IsBalanced registry quoter of_int clean plain m k gs g
          ▶ clause-IsBalanced _ hs refl (build_predicates_counts m k hs h)
          ▶ number_part-IsBalanced registry quoter of_int clean plain _ limit refl
          ▶ number_part-IsBalanced registry quoter of_int clean plain _ offset refl
          ▶ text-IsBalanced _ refl

    build_table_counts :
        (m : Model)
        → IsCleanModel m
        → (t : TableRef E A) → CleanTable t
        → IsBalanced (build_table registry quoter of_int m t)
    build_table_counts m k no_table c = quote-IsBalanced quoter plain m.table_name k.table_clean
    build_table_counts m k (table e alias) c = bind-IsBalanced (registry e) λ tm e'.
        quote-IsBalanced quoter plain tm.table_name (clean e tm e').table_clean
        ▶ build_as-IsBalanced quoter plain alias c
    build_table_counts m k (join l r typ on using) (cl, cr, ct, co, cu) =
        text-IsBalanced _ refl
        ▶ build_table_counts m k l cl
        ▶ text-IsBalanced _ refl
        ▶ text-IsBalanced typ ct
        ▶ text-IsBalanced _ refl
        ▶ build_table_counts m k r cr
        ▶ using_part-IsBalanced registry quoter of_int clean plain m k using cu
        ▶ clause-IsBalanced _ on refl (build_predicates_counts m k on co)
        ▶ text-IsBalanced _ refl
    build_table_counts m k (subquery_table s) c =
        build_subquery_counts s c
        ▶ text-IsBalanced _ refl
        ▶ quote-IsBalanced quoter plain (sub_alias s) (sub_alias-HasNoMark s c)

    build_subquery_counts :
        (s : Subquery E A) → CleanSubquery s → IsBalanced (build_subquery registry quoter of_int s)
    build_subquery_counts (subquery s cs alias of) (c, _) =
        bind-IsBalanced (build_selector registry quoter of_int s) λ q e.
          let (front, ends) = build_selector_terminated s q e in
          text-IsBalanced _ refl
          ▶ cut_last-IsBalanced q front ends ((build_selector_counts s c).counts q e)
          ▶ text-IsBalanced _ refl

    pub build_predicates_counts :
        (m : Model)
        → IsCleanModel m
        → (ps : Predicates E A) → CleanPredicates ps
        → IsBalanced (build_predicates registry quoter of_int m ps)
    build_predicates_counts m k no_predicates c = silent-IsBalanced
    build_predicates_counts m k (predicates p ps) (c, cs) =
        and_all_counts m k _ ps (build_binary_counts m k p c) cs

    and_all_counts :
        (m : Model)
        → IsCleanModel m
        → (w : Write A) (ps : Predicates E A) → IsBalanced w
        → CleanPredicates ps
        → IsBalanced (and_all registry quoter of_int m w ps)
    and_all_counts m k w no_predicates h c = h
    and_all_counts m k w (predicates p ps) h (c, cs) =
        and_all_counts m k _ ps (and_write-IsBalanced h (build_binary_counts m k p c)) cs

    pub build_expr_counts :
        (m : Model)
        → IsCleanModel m
        → (e : Expr E A) → CleanExpr e
        → IsBalanced (build_expr registry quoter of_int m e)
    build_expr_counts m k no_expr c = silent-IsBalanced
    build_expr_counts m k (column_expr x) c =
        build_column-IsBalanced registry quoter of_int clean plain m k x c
    build_expr_counts m k (aggregate_expr a) c =
        build_aggregate-IsBalanced registry quoter of_int clean plain m k a c
    build_expr_counts m k (value v) c = mark-IsBalanced _ v refl
    build_expr_counts m k (raw_expr r) c = raw-IsBalanced r c
    build_expr_counts m k (math b) c = build_binary_counts m k b c
    build_expr_counts m k (predicate b) c = build_binary_counts m k b c
    build_expr_counts m k (binary_expr b) c = build_binary_counts m k b c
    build_expr_counts m k (subquery_pred s pred) (c, p) =
        text-IsBalanced pred p ▶ text-IsBalanced _ refl ▶ build_subquery_counts s c
    build_expr_counts m k (subquery_expr s) c = build_subquery_counts s c

    build_binary_counts :
        (m : Model)
        → IsCleanModel m
        → (b : Binary E A) → CleanBinary b
        → IsBalanced (build_binary registry quoter of_int m b)
    build_binary_counts m k (binary l op r) (cl, co, cr) =
        sub_parens-IsBalanced l (build_expr_counts m k l cl)
        ▶ op_part-IsBalanced op co
        ▶ right_part-IsBalanced r (build_expr_counts m k r cr)

-- Wherever a SELECT is built, its text has as many placeholders as it has arguments: at any depth
-- of joins, subqueries and expressions, if the quote is no question mark, the registry's and the
-- query's names hold none, and each raw part has as many as it brings arguments.
pub build_selector-placeholders :
    {E A : Type 0} (registry : E → Result Error Model) (quoter : ℕ) (of_int : ℕ → A)
    (s : Selector E A) (q : Out A)
    → IsCleanRegistry registry
    → (quoter == b'?') ≡ false
    → CleanSelector s
    → build_selector registry quoter of_int s ≡ ok q
    → marks q.sql ≡ length q.args
build_selector-placeholders registry quoter of_int s q clean plain c e =
    (build_selector_counts registry quoter of_int clean plain s c).counts q e
