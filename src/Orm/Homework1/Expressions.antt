-- ===== src/Orm/Homework1/Expressions.antt =====
-- orm/homework1 and orm/homework3: columns, aggregates and expressions in both builders.
use go_study.Prelude.{
  ℕ, ◌≡◌, refl, sym, ap, ◌∙◌, false, [], ◌∷◌, Result, ok, err, ◌>>=◌, Bytes, bytes, append_assoc,
}
use go_study.Orm.Output.{Error, Model, Out, Write, ◌▷◌, text, silent, add_args, quote, field_col}
use go_study.Orm.Output as Output
use go_study.Orm.Laws.{out_ap, ▷_assoc, ▷-silent}
use go_study.Orm.Select as Select
use go_study.Orm.Homework1.{
  Column, Aggregate, Expr, no_expr, column_expr, aggregate_expr, value, raw_expr, predicate_expr,
  Predicate, predicate, is_predicate, tick, build_as, build_column, build_aggregate, raw, side,
  op_part, build_expr, build_predicate,
}
use go_study.Orm.Homework1.Lift.{
  lift_column, lift_aggregate, lift_expr, lift_predicate, IsFull, IsMade, IsMadeExpr,
}

-- What a column and an aggregate write, given what the model answers.
module _ {A : Type 0} where
  column_as_on :
      (r : Result Error Bytes) (alias : Bytes)
      → (tick {A = A} ▷ (r >>= λ col. text col ▷ tick ▷ build_as alias))
        ≡ silent ▷ (r >>= quote 96) ▷ Output.build_as 96 alias
  unfolding build_as Output.build_as text silent quote ◌▷◌
  column_as_on (err e) alias = refl
  column_as_on (ok col) [] = refl
  column_as_on (ok col) (c ∷ cs) = refl

  pub as_lem : (alias : Bytes) → build_as {A = A} alias ≡ Output.build_as 96 alias
  unfolding build_as Output.build_as text silent quote ◌▷◌
  as_lem [] = refl
  as_lem (c ∷ cs) = refl

  column_on :
      (r : Result Error Bytes)
      → (tick {A = A} ▷ (r >>= λ col. text col ▷ tick ▷ build_as [])) ≡ silent ▷ (r >>= quote 96)
  unfolding Output.build_as
  column_on r = column_as_on r [] ∙ ▷-silent _

  pub aggregate_on :
      (r : Result Error Bytes) (fn : Bytes) (last : Write A)
      → text fn ▷ text (bytes "(`") ▷ (r >>= λ col. text col ▷ text (bytes "`)") ▷ last)
        ≡ text fn ▷ text (bytes "(") ▷ (silent ▷ (r >>= quote 96)) ▷ text (bytes ")") ▷ last
  unfolding text silent quote ◌▷◌
  aggregate_on (err e) fn last = refl
  aggregate_on (ok col) fn (err e) = refl
  aggregate_on (ok col) fn (ok l) = ap ok (out_ap (simp append_assoc) refl)

module _ {E A : Type 0} (registry : E → Result Error Model) (of_int : ℕ → A) (m : Model) where
  pub build_column_as_lem :
      (c : Column)
      → build_column {A = A} m c.name c.alias
        ≡ Select.build_column_as registry 96 of_int m (lift_column c)
  unfolding build_column build_as Select.build_column_as Select.build_col Select.col_name
      Select.alias_part Output.build_as text silent quote ◌▷◌
  build_column_as_lem c = column_as_on (field_col m c.name) c.alias

  pub build_column_lem :
      (c : Column)
      → build_column {A = A} m c.name [] ≡ Select.build_column registry 96 of_int m (lift_column c)
  unfolding build_column build_as Select.build_column Select.build_col Select.col_name
      Select.alias_part text silent quote ◌▷◌
  build_column_lem c = column_on (field_col m c.name)

  build_aggregate_lem :
      (a : Aggregate)
      → build_aggregate {A = A} m a false
        ≡ Select.build_aggregate registry 96 of_int m (lift_aggregate a)
  unfolding build_aggregate build_as Select.build_aggregate Select.build_col Select.col_name
      Select.alias_part text silent quote ◌▷◌
  build_aggregate_lem a = aggregate_on (field_col m a.arg) a.fn silent ∙ ▷-silent _

  -- Parentheses.
  side_lem :
      (e : Expr A) (w : Write A)
      → side (is_predicate e) w ≡ Select.sub_parens (lift_expr {E = E} e) w
  unfolding side Select.sub_parens Select.paren
  side_lem no_expr w = refl
  side_lem (column_expr c) w = refl
  side_lem (aggregate_expr a) w = refl
  side_lem (value v) w = refl
  side_lem (raw_expr r) w = refl
  side_lem (predicate_expr p) w = refl

  right_part_lem :
      (r : Expr A) (w : Write A) (c : ℕ) (cs : Bytes)
      → IsFull (c ∷ cs) r
      → Select.right_part (lift_expr {E = E} r) w
        ≡ text (bytes " ") ▷ Select.sub_parens (lift_expr {E = E} r) w
  unfolding Select.right_part
  right_part_lem no_expr w c cs full = absurd full
  right_part_lem (column_expr c') w c cs full = refl
  right_part_lem (aggregate_expr a) w c cs full = refl
  right_part_lem (value v) w c cs full = refl
  right_part_lem (raw_expr r) w c cs full = refl
  right_part_lem (predicate_expr p) w c cs full = refl

  regroup : (x u t s : Write A) → x ▷ (u ▷ t) ▷ s ≡ x ▷ u ▷ (t ▷ s)
  regroup x u t s = ap (λ y. y ▷ s) (sym (▷_assoc x u t)) ∙ ▷_assoc (x ▷ u) t s

  abbrev pub expr : Expr A → Write A
  expr e = Select.build_expr registry 96 of_int m (lift_expr e)

  operator_lem :
      (x : Write A) (op : Bytes) (r : Expr A)
      → IsFull op r
      → x ▷ op_part op ▷ side (is_predicate r) (expr r)
        ≡ x ▷ Select.op_part op ▷ Select.right_part (lift_expr {E = E} r) (expr r)
  unfolding op_part Select.op_part side Select.right_part Select.build_expr
  operator_lem x [] no_expr full = refl
  operator_lem x [] (column_expr c) full = absurd full
  operator_lem x [] (aggregate_expr a) full = absurd full
  operator_lem x [] (value v) full = absurd full
  operator_lem x [] (raw_expr r) full = absurd full
  operator_lem x [] (predicate_expr p) full = absurd full
  operator_lem x (c ∷ cs) r full =
      regroup x (text (bytes " ") ▷ text (c ∷ cs)) (text (bytes " "))
        (side (is_predicate r) (expr r))
      ∙ ap (λ y. x ▷ (text (bytes " ") ▷ text (c ∷ cs)) ▷ (text (bytes " ") ▷ y))
          (side_lem r (expr r))
      ∙ ap (λ y. x ▷ (text (bytes " ") ▷ text (c ∷ cs)) ▷ y)
          (sym (right_part_lem r (expr r) c cs full))

  mutual
    unfolding build_expr Select.build_expr raw Select.raw

    pub build_expr_lem : (e : Expr A) → IsMadeExpr e → build_expr m e ≡ expr e
    build_expr_lem no_expr made = refl
    build_expr_lem (column_expr c) made = build_column_lem c
    build_expr_lem (aggregate_expr a) made = build_aggregate_lem a
    build_expr_lem (value v) made = refl
    build_expr_lem (raw_expr r) made = refl
    build_expr_lem (predicate_expr p) made = build_predicate_lem p made

    build_predicate_lem :
        (p : Predicate A)
        → IsMade p
        → build_predicate m p ≡ Select.build_binary registry 96 of_int m (lift_predicate p)
    build_predicate_lem (predicate l op r) (made, made', full) =
        ap (λ y. side (is_predicate l) y ▷ op_part op ▷ side (is_predicate r) (build_expr m r))
          (build_expr_lem l made)
        ∙ ap (λ y. side (is_predicate l) (expr l) ▷ op_part op ▷ side (is_predicate r) y)
            (build_expr_lem r made')
        ∙ operator_lem (side (is_predicate l) (expr l)) op r full
        ∙ ap (λ y. y ▷ Select.op_part op ▷ Select.right_part (lift_expr {E = E} r) (expr r))
            (side_lem l (expr l))
