-- ===== src/Orm/Names.antt =====
-- orm/homework3/builder.go: the names of columns that a query writes.
use go_study.Prelude.{
  List, [], ◌∷◌, Result, ok, err, Bytes, beq, ◌≡◌, refl, subst, inl, inr, Bool-cases, Option-cases,
  >>=-eq-ok, lookup, arith, All, some,
}
use go_study.Orm.Syntax.{
  TableRef, no_table, table, join, subquery_table, Subquery, subquery, column, aggregate,
  Selectable, select_column, select_aggregate, select_raw, Selectables, no_selected, selected,
  selected_alias, field_name,
}
use go_study.Orm.Output.{Error, Field, Model, field_col}
use go_study.Orm.Select.{is_empty, join_col, col_name, sub_col, cols_col, target_col}
use go_study.Orm.Clean.{HasNoMark, IsCleanModel, IsCleanRegistry}

-- The name of a column holds no mark: it is the model's, or the one that was asked for.
abbrev pub IsCleanName : Result Error Bytes → Type 0
IsCleanName r = (s : Bytes) → r ≡ ok s → HasNoMark s

pub ok_inj : {s t : Bytes} → ◌≡◌ {A = Result Error Bytes} (ok s) (ok t) → s ≡ t
ok_inj e = cc

join_col-IsCleanName : (l r : Result Error Bytes) → IsCleanName r → IsCleanName (join_col l r)
unfolding join_col
join_col-IsCleanName (err x) r h = λ s e. subst HasNoMark (ok_inj e) refl
join_col-IsCleanName (ok c) r h = h

pub lookup-HasNoMark :
    (fd : Bytes) (m : List (Bytes × Field)) (f : Field)
    → All (λ e. HasNoMark e.1.col_name) m
    → lookup fd m ≡ some f
    → HasNoMark f.col_name
unfolding lookup
lookup-HasNoMark fd [] f h e = cc
lookup-HasNoMark fd ((k, g) ∷ m) f (h, hs) e = elim (Bool-cases (beq k fd)) [
  | inl same ↦ let q : g ≡ f = ground arith in subst (λ (x : Field). HasNoMark x.col_name) q h
  | inr other ↦ lookup-HasNoMark fd m f hs (ground arith)
]

field_col-IsCleanName : (m : Model) (fd : Bytes) → IsCleanModel m → IsCleanName (field_col m fd)
unfolding field_col
field_col-IsCleanName m fd h s e = elim (Option-cases (lookup fd m.field_map)) [
  | inl missing ↦ cc (rw (missing, field_col) at e)
  | inr (f, found) ↦
      subst HasNoMark (ok_inj (rw (found, field_col) at e))
        (lookup-HasNoMark fd m.field_map f h.map_clean found)
]

module _ {E A : Type 0} (registry : E → Result Error Model) (clean : IsCleanRegistry registry) where
  module _ (m : Model) (h : IsCleanModel m) where
    mutual
      unfolding col_name

      pub col_name-IsCleanName :
          (of : TableRef E A) (fd : Bytes) → HasNoMark fd → IsCleanName (col_name registry m of fd)
      col_name-IsCleanName no_table fd k = field_col-IsCleanName m fd h
      col_name-IsCleanName (table e0 alias) fd k = λ s e.
          let (tm, got, e') = >>=-eq-ok (registry e0) (λ tm. field_col tm fd) e in
          field_col-IsCleanName tm fd (clean e0 tm got) s e'
      col_name-IsCleanName (join l r t on u) fd k =
          join_col-IsCleanName (col_name registry m l fd) (col_name registry m r fd)
            (col_name-IsCleanName r fd k)
      col_name-IsCleanName (subquery_table s) fd k = sub_col-IsCleanName s fd k

      sub_col-IsCleanName :
          (s : Subquery E A) (fd : Bytes) → HasNoMark fd → IsCleanName (sub_col registry m s fd)
      sub_col-IsCleanName (subquery s cs alias of) fd k = elim (Bool-cases (is_empty cs)) [
        | inl e ↦ rw (e, sub_col) (col_name-IsCleanName of fd k)
        | inr e ↦ rw (e, sub_col) (cols_col-IsCleanName cs fd k)
      ]

      cols_col-IsCleanName :
          (cs : Selectables E A) (fd : Bytes)
          → HasNoMark fd
          → IsCleanName (cols_col registry m cs fd)
      cols_col-IsCleanName no_selected fd k = λ s e. cc
      cols_col-IsCleanName (selected c cs) fd k = elim (Bool-cases (beq (selected_alias c) fd)) [
        | inl e ↦ rw (e, cols_col) (λ s q. subst HasNoMark (ok_inj q) k)
        | inr e ↦ elim (Bool-cases (beq (field_name c) fd)) [
          | inl e' ↦ rw (e, e', cols_col) (target_col-IsCleanName c fd k)
          | inr e' ↦ rw (e, e', cols_col) (cols_col-IsCleanName cs fd k)
        ]
      ]

      target_col-IsCleanName :
          (c : Selectable E A) (fd : Bytes)
          → HasNoMark fd
          → IsCleanName (target_col registry m c fd)
      target_col-IsCleanName (select_column (column of name alias)) fd k =
          col_name-IsCleanName of fd k
      target_col-IsCleanName (select_aggregate (aggregate of fn arg alias)) fd k =
          col_name-IsCleanName of fd k
      target_col-IsCleanName (select_raw r) fd k = field_col-IsCleanName m fd h
