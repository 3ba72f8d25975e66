-- ===== src/Orm/Homework1/Agrees.antt =====
-- orm/homework1 and orm/homework3: the SELECT builders on the queries that both know.
use go_study.Prelude.{
  ℕ, zero, suc, ◌≡◌, refl, sym, ap, ◌∙◌, List, [], ◌∷◌, ◌++◌, Result, ok, err, ◌>>=◌, Bytes, bytes,
  All, arith,
}
use go_study.Orm.Syntax.{Binary, Predicates}
use go_study.Orm.Syntax as Later
use go_study.Orm.Output.{Error, Model, Write, ◌▷◌, text, silent, add_args, quote, field_col}
use go_study.Orm.Laws.{▷-silent}
use go_study.Orm.Select as Select
use go_study.Orm.Behaviour.{fold_and, build_predicates-fold_and}
use go_study.Orm.Homework1.{
  Column, predicate_expr, Predicate, and_, and_all, Selectable, select_column, select_aggregate,
  select_raw, Selector, ℤ, pos, negsuc, build_as, build_column, build_aggregate, raw,
  predicates_part, build_selectable, more_columns, build_columns, more_groups, build_group_by,
  build_order_by, build_table, number_part, build, OrderBy,
}
use go_study.Orm.Homework1.Lift.{
  lift_column, lift_predicate, lift_predicates, lift_selectable, lift_selectables, lift_columns,
  lift_number, lift, IsMade, IsPlain, IsNatural, IsCommon,
}
use go_study.Orm.Homework1.Expressions.{
  as_lem, aggregate_on, build_column_as_lem, build_column_lem, build_expr_lem,
}

module _ {E A : Type 0} (registry : E → Result Error Model) (of_int : ℕ → A) (m : Model) where
  and_all-IsMade :
      (p : Predicate A) (ps : List (Predicate A)) → IsMade p → All IsMade ps → IsMade (and_all p ps)
  and_all-IsMade p [] made mades = made
  and_all-IsMade p (r ∷ ps) made (made', mades) =
      and_all-IsMade (and_ p r) ps (made, made', tt) mades

  lift_and_all :
      (p : Predicate A) (ps : List (Predicate A))
      → lift_predicate {E = E} (and_all p ps) ≡ fold_and (lift_predicate p) (lift_predicates ps)
  unfolding Later.and_
  lift_and_all p [] = refl
  lift_and_all p (r ∷ ps) = lift_and_all (and_ p r) ps

  predicates_part_lem :
      (keyword : Bytes) (ps : List (Predicate A))
      → All IsMade ps
      → predicates_part keyword m ps
        ≡ Select.clause keyword
            (lift_predicates {E = E} ps)
            (Select.build_predicates registry 96 of_int m (lift_predicates ps))
  unfolding predicates_part Select.clause
  predicates_part_lem keyword [] mades = refl
  predicates_part_lem keyword (p ∷ ps) (made, mades) =
      ap (λ w. text keyword ▷ w)
        (build_expr_lem registry of_int m (predicate_expr (and_all p ps))
            (and_all-IsMade p ps made mades)
          ∙ ap (λ b. Select.build_expr registry 96 of_int m (Later.predicate b)) (lift_and_all p ps)
          ∙ sym (
              build_predicates-fold_and registry 96 of_int m (lift_predicate p)
                (lift_predicates ps)))

  build_selectable_lem :
      (c : Selectable A)
      → build_selectable m c ≡ Select.build_selectable registry 96 of_int m (lift_selectable c)
  unfolding build_selectable Select.build_selectable raw Select.raw build_aggregate
      Select.build_aggregate_as Select.build_aggregate Select.build_col Select.alias_part
      Select.col_name
  build_selectable_lem (select_column c) = build_column_as_lem registry of_int m c
  build_selectable_lem (select_aggregate a) =
      aggregate_on (field_col m a.arg) a.fn (build_as a.alias)
      ∙ ap
          (λ w.
            text a.fn
            ▷ text (bytes "(")
            ▷ (silent ▷ (field_col m a.arg >>= quote 96))
            ▷ text (bytes ")")
            ▷ w)
          (as_lem a.alias)
  build_selectable_lem (select_raw r) = refl

  more_columns_lem :
      (cs : List (Selectable A))
      → more_columns m cs ≡ Select.more_columns registry 96 of_int m (lift_selectables cs)
  unfolding more_columns Select.more_columns
  more_columns_lem [] = refl
  more_columns_lem (c ∷ cs) = cc (build_selectable_lem c, more_columns_lem cs)

  build_columns_lem :
      (cs : List (Selectable A))
      → build_columns m cs ≡ Select.build_columns registry 96 of_int m (lift_selectables cs)
  unfolding build_columns Select.build_columns
  build_columns_lem [] = refl
  build_columns_lem (c ∷ cs) = cc (build_selectable_lem c, more_columns_lem cs)

  group_lem :
      (c : Column)
      → IsPlain c
      → build_column m c.name c.alias ≡ Select.build_column registry 96 of_int m (lift_column c)
  group_lem c plain = ap (build_column m c.name) plain ∙ build_column_lem registry of_int m c

  more_groups_lem :
      (cs : List Column)
      → All IsPlain cs
      → more_groups m cs ≡ Select.more_groups registry 96 of_int m (lift_columns cs)
  unfolding more_groups Select.more_groups
  more_groups_lem [] plain = refl
  more_groups_lem (c ∷ cs) (p, ps) = cc (group_lem c p, more_groups_lem cs ps)

  build_group_by_lem :
      (cs : List Column)
      → All IsPlain cs
      → build_group_by m cs ≡ Select.group_part registry 96 of_int m (lift_columns cs)
  unfolding build_group_by Select.group_part
  build_group_by_lem [] plain = refl
  build_group_by_lem (c ∷ cs) (p, ps) = cc (group_lem c p, more_groups_lem cs ps)

  build_table_lem :
      (t : Bytes)
      → t ≡ []
      → build_table {A = A} m t ≡ Select.build_table registry 96 of_int m Later.no_table
  unfolding build_table Select.build_table text quote ◌▷◌
  build_table_lem [] e = refl
  build_table_lem (c ∷ cs) e = absurd (ground (arith, e))

module _ {E A : Type 0} (registry : E → Result Error Model) (of_int : ℤ → A) where
  number_lem :
      (keyword : Bytes) (n : ℤ)
      → IsNatural n
      → number_part of_int keyword n
        ≡ Select.number_part registry 96
            (λ k. of_int (pos k))
            (keyword ++ bytes "?")
            (lift_number n)
  unfolding number_part Select.number_part text add_args silent ◌▷◌
  number_lem keyword (pos zero) h = refl
  number_lem keyword (pos (suc n)) h = refl
  number_lem keyword (negsuc n) h = absurd h

bind_ap :
    {A B : Type 0} (r : Result Error A) (f g : A → Result Error B)
    → ((a : A) → f a ≡ g a)
    → (r >>= f) ≡ (r >>= g)
bind_ap (err e) f g h = refl
bind_ap (ok a) f g h = h a

unordered :
    {A : Type 0} (m : Model) (obs : List OrderBy) → obs ≡ [] → build_order_by {A = A} m obs ≡ silent
unfolding build_order_by
unordered m [] e = refl
unordered m (ob ∷ obs) e = absurd (ground (arith, e))

module _ {A : Type 0} where
  -- The parts of a SELECT.
  select_parts :
      {cols cols' from from' wh wh' gr gr' ha ha' ord li li' off off' : Write A}
      → cols ≡ cols'
      → from ≡ from'
      → wh ≡ wh'
      → gr ≡ gr'
      → ha ≡ ha'
      → ord ≡ silent
      → li ≡ li'
      → off ≡ off'
      → text (bytes "SELECT ")
          ▷ cols
          ▷ text (bytes " FROM ")
          ▷ from
          ▷ wh
          ▷ gr
          ▷ ha
          ▷ ord
          ▷ li
          ▷ off
          ▷ text (bytes ";")
        ≡ text (bytes "SELECT ")
          ▷ cols'
          ▷ text (bytes " FROM ")
          ▷ from'
          ▷ wh'
          ▷ gr'
          ▷ ha'
          ▷ li'
          ▷ off'
          ▷ text (bytes ";")
  select_parts {cols' = cols'} {from' = from'} {wh' = wh'} {gr' = gr'} {ha' = ha'} {li' = li'}
        {off' = off'} c f w g h o l p =
      (λ i.
        text (bytes "SELECT ")
        ▷ c i
        ▷ text (bytes " FROM ")
        ▷ f i
        ▷ w i
        ▷ g i
        ▷ h i
        ▷ o i
        ▷ l i
        ▷ p i
        ▷ text (bytes ";"))
      ∙ ap (λ x. x ▷ li' ▷ off' ▷ text (bytes ";"))
          (▷-silent
            (text (bytes "SELECT ") ▷ cols' ▷ text (bytes " FROM ") ▷ from' ▷ wh' ▷ gr' ▷ ha'))

module _ {E A : Type 0} (registry : E → Result Error Model) (of_int : ℤ → A) where
  -- For a query that both versions know, the builder of homework1 writes the same text and the same
  -- arguments as the one of homework3 with a backquote as its quote, or both end with the same error.
  pub build-lift :
      (s : Selector E A)
      → IsCommon s
      → build registry of_int s ≡ Select.build_selector registry 96 (λ n. of_int (pos n)) (lift s)
  unfolding build Select.build_selector
  build-lift s c = bind_ap (registry s.entity) _ _ (λ m.
      select_parts (build_columns_lem registry (λ n. of_int (pos n)) m s.columns)
        (build_table_lem registry (λ n. of_int (pos n)) m s.table c.table)
        (predicates_part_lem registry (λ n. of_int (pos n)) m (bytes " WHERE ") s.where_
          c.where_made)
        (build_group_by_lem registry (λ n. of_int (pos n)) m s.group_by c.groups)
        (predicates_part_lem registry (λ n. of_int (pos n)) m (bytes " HAVING ") s.having
          c.having_made)
        (unordered m s.order_by c.unordered)
        (number_lem registry of_int (bytes " LIMIT ") s.limit c.limit)
        (number_lem registry of_int (bytes " OFFSET ") s.offset c.offset))
