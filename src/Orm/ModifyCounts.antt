-- ===== src/Orm/ModifyCounts.antt =====
-- orm/homework3/insert.go, updater.go and dialect.go: placeholders and arguments of an INSERT and of
-- an UPDATE.
use go_study.Prelude.{
  ℕ, Bool, true, false, ◌==◌, List, [], ◌∷◌, Result, ok, Bytes, length, ◌≡◌, refl, subst, inl, inr,
  Option, Option-cases, >>=-eq-ok, lookup, All, none, some,
}
use go_study.Orm.Syntax.{no_table, column, Assignable, assign_column, assignment, assign_raw}
use go_study.Orm.Output.{
  Error, unsupported_assignable, insert_zero_row, no_updated_columns, Field, Model, Out,
}
use go_study.Orm.Select.{col_name}
use go_study.Orm.Clean.{
  marks, HasNoMark, IsCleanModel, IsCleanRegistry, CleanTable, CleanColumn, CleanExpr,
  CleanPredicates,
}
use go_study.Orm.Modify.{
  Dialect, mysql, sqlite3, Upsert, Inserter, Updater, pick_fields, insert_fields, comma, overwrite,
  upsert_assigns, conflict_part, build_upsert, column_list, row_values, rows_part, upsert_part,
  insert_rows, build_insert, update_all, update_assigns, build_update,
}
use go_study.Orm.Balanced.{
  IsBalanced, ◌▶◌, bind-IsBalanced, text-IsBalanced, silent-IsBalanced, mark-IsBalanced,
  quote-IsBalanced, err-IsBalanced,
}
use go_study.Orm.Names.{col_name-IsCleanName, lookup-HasNoMark}
use go_study.Orm.Placeholders.{build_col-IsBalanced, more_names-IsBalanced, clause-IsBalanced}
use go_study.Orm.SelectCounts.{build_expr_counts, build_predicates_counts}

module _ {E A : Type 0} where
  abbrev pub IsCleanAssignable : Assignable E A → Type 0
  IsCleanAssignable (assign_column c) = CleanColumn c
  IsCleanAssignable (assignment name val) = HasNoMark name × CleanExpr val
  IsCleanAssignable (assign_raw r) = Unit

  abbrev pub IsCleanUpsert : Option (Upsert E A) → Type 0
  IsCleanUpsert none = Unit
  IsCleanUpsert (some odk) = All HasNoMark odk.conflict_columns × All IsCleanAssignable odk.assigns

comma-IsBalanced : {A : Type 0} (first : Bool) → IsBalanced {A = A} (comma first)
unfolding comma
comma-IsBalanced true = silent-IsBalanced
comma-IsBalanced false = text-IsBalanced _ refl

fields_inj : {a b : List Field} → ◌≡◌ {A = Result Error (List Field)} (ok a) (ok b) → a ≡ b
fields_inj e = cc

pick_fields-HasNoMark :
    (m : Model) (cs : List Bytes) (fs : List Field)
    → IsCleanModel m
    → pick_fields m cs ≡ ok fs
    → All (λ f. HasNoMark f.col_name) fs
unfolding pick_fields
pick_fields-HasNoMark m [] fs h e =
    subst (All (λ (f : Field). HasNoMark f.col_name)) (fields_inj e) tt
pick_fields-HasNoMark m (c ∷ cs) fs h e = elim (Option-cases (lookup c m.field_map)) [
  | inl missing ↦ cc (rw (missing, pick_fields) at e)
  | inr (f, found) ↦
      let (rest, picked, same) =
        >>=-eq-ok (pick_fields m cs) (λ fs. ok (f ∷ fs)) (rw (found, pick_fields) at e) in
      subst (All (λ (f : Field). HasNoMark f.col_name)) (fields_inj same) (
        lookup-HasNoMark c m.field_map f h.map_clean found,
        pick_fields-HasNoMark m cs rest h picked,
      )
]

insert_fields-HasNoMark :
    (m : Model) (cs : List Bytes) (fs : List Field)
    → IsCleanModel m
    → insert_fields m cs ≡ ok fs
    → All (λ f. HasNoMark f.col_name) fs
insert_fields-HasNoMark m [] fs h e =
    unfold insert_fields in
    subst (All (λ (f : Field). HasNoMark f.col_name)) (fields_inj e) h.fields_clean
insert_fields-HasNoMark m (c ∷ cs) fs h e =
    unfold insert_fields in pick_fields-HasNoMark m (c ∷ cs) fs h e

module _ {E A Row : Type 0} (registry : E → Result Error Model) (quoter : ℕ) (of_int : ℕ → A)
    (field_of : Row → Bytes → Result Error A) (clean : IsCleanRegistry registry)
    (plain : (quoter == b'?') ≡ false) where
  module _ (m : Model) (k : IsCleanModel m) where
    overwrite-IsBalanced :
        (d : Dialect) (c : Bytes)
        → HasNoMark c
        → IsBalanced (overwrite registry quoter of_int field_of d c)
    unfolding overwrite
    overwrite-IsBalanced mysql c h =
        quote-IsBalanced quoter plain c h
        ▶ text-IsBalanced _ refl
        ▶ quote-IsBalanced quoter plain c h
        ▶ text-IsBalanced _ refl
    overwrite-IsBalanced sqlite3 c h =
        quote-IsBalanced quoter plain c h
        ▶ text-IsBalanced _ refl
        ▶ quote-IsBalanced quoter plain c h

    upsert_assigns-IsBalanced :
        (d : Dialect) (first : Bool) (l : List (Assignable E A))
        → All IsCleanAssignable l
        → IsBalanced (upsert_assigns registry quoter of_int field_of d m first l)
    unfolding upsert_assigns CleanTable
    upsert_assigns-IsBalanced d first [] c = silent-IsBalanced
    upsert_assigns-IsBalanced d first (assign_column (column of name alias) ∷ l) ((t, n, _), cs) =
        comma-IsBalanced first
        ▶ bind-IsBalanced (col_name registry m of name) (λ s e.
          overwrite-IsBalanced d s (col_name-IsCleanName registry clean m k of name n s e))
        ▶ upsert_assigns-IsBalanced d false l cs
    upsert_assigns-IsBalanced d first (assignment name val ∷ l) ((n, v), cs) =
        comma-IsBalanced first
        ▶ build_col-IsBalanced registry quoter of_int clean plain m k no_table name tt n
        ▶ text-IsBalanced _ refl
        ▶ build_expr_counts registry quoter of_int clean plain m k val v
    upsert_assigns-IsBalanced d first (assign_raw r ∷ l) c =
        comma-IsBalanced first ▶ err-IsBalanced unsupported_assignable

    upsert_part-IsBalanced :
        (d : Dialect) (u : Option (Upsert E A))
        → IsCleanUpsert u
        → IsBalanced (upsert_part registry quoter of_int field_of d m u)
    unfolding upsert_part build_upsert
    upsert_part-IsBalanced d none c = silent-IsBalanced
    upsert_part-IsBalanced mysql (some odk) (_, c) =
        text-IsBalanced _ refl ▶ upsert_assigns-IsBalanced mysql true odk.assigns c
    upsert_part-IsBalanced sqlite3 (some odk) (n, c) =
        text-IsBalanced _ refl
        ▶ conflict odk.conflict_columns n
        ▶ text-IsBalanced _ refl
        ▶ upsert_assigns-IsBalanced sqlite3 true odk.assigns c
      where
        conflict :
            (cs : List Bytes)
            → All HasNoMark cs
            → IsBalanced (conflict_part registry quoter of_int field_of m cs)
        conflict [] c = unfold conflict_part in silent-IsBalanced
        conflict (n ∷ cs) (h, hs) =
            unfold conflict_part CleanTable in
            (text-IsBalanced _ refl
              ▶ build_col-IsBalanced registry quoter of_int clean plain m k no_table n tt h
              ▶ more_names-IsBalanced registry quoter of_int clean plain m k cs hs
              ▶ text-IsBalanced _ refl)

    update_assigns-IsBalanced :
        (row : Row) (first : Bool) (l : List (Assignable E A))
        → All IsCleanAssignable l
        → IsBalanced (update_assigns registry quoter of_int field_of m row first l)
    unfolding update_assigns CleanTable
    update_assigns-IsBalanced row first [] c = silent-IsBalanced
    update_assigns-IsBalanced row first (assign_column (column of name alias) ∷ l) ((t, n, _), cs) =
        comma-IsBalanced first
        ▶ build_col-IsBalanced registry quoter of_int clean plain m k of name t n
        ▶ bind-IsBalanced (field_of row name) (λ v _. mark-IsBalanced _ v refl)
        ▶ update_assigns-IsBalanced row false l cs
    update_assigns-IsBalanced row first (assignment name val ∷ l) ((n, v), cs) =
        comma-IsBalanced first
        ▶ build_col-IsBalanced registry quoter of_int clean plain m k no_table name tt n
        ▶ text-IsBalanced _ refl
        ▶ build_expr_counts registry quoter of_int clean plain m k val v
        ▶ update_assigns-IsBalanced row false l cs
    update_assigns-IsBalanced row first (assign_raw r ∷ l) c =
        comma-IsBalanced first ▶ err-IsBalanced unsupported_assignable

  column_list-IsBalanced :
      (first : Bool) (fs : List Field)
      → All (λ f. HasNoMark f.col_name) fs
      → IsBalanced (column_list registry quoter of_int field_of first fs)
  unfolding column_list
  column_list-IsBalanced first [] h = silent-IsBalanced
  column_list-IsBalanced first (f ∷ fs) (h, hs) =
      comma-IsBalanced first
      ▶ quote-IsBalanced quoter plain f.col_name h
      ▶ column_list-IsBalanced false fs hs

  row_values-IsBalanced :
      (row : Row) (first : Bool) (fs : List Field)
      → IsBalanced (row_values registry quoter of_int field_of row first fs)
  unfolding row_values
  row_values-IsBalanced row first [] = silent-IsBalanced
  row_values-IsBalanced row first (f ∷ fs) =
      comma-IsBalanced first
      ▶ bind-IsBalanced (field_of row f.go_name) (λ v _. mark-IsBalanced _ v refl)
      ▶ row_values-IsBalanced row false fs

  rows_part-IsBalanced :
      (fs : List Field) (first : Bool) (rows : List Row)
      → IsBalanced (rows_part registry quoter of_int field_of fs first rows)
  unfolding rows_part
  rows_part-IsBalanced fs first [] = silent-IsBalanced
  rows_part-IsBalanced fs first (row ∷ rows) =
      comma-IsBalanced first
      ▶ text-IsBalanced _ refl
      ▶ row_values-IsBalanced row true fs
      ▶ text-IsBalanced _ refl
      ▶ rows_part-IsBalanced fs false rows

  insert_rows_counts :
      (d : Dialect) (i : Inserter E A Row) (rows : List Row)
      → IsCleanUpsert i.upsert
      → IsBalanced (insert_rows registry quoter of_int field_of d i rows)
  unfolding insert_rows
  insert_rows_counts d i [] u = err-IsBalanced insert_zero_row
  insert_rows_counts d i (row ∷ rows) u = bind-IsBalanced (registry i.entity) λ m e.
      bind-IsBalanced (insert_fields m i.columns) λ fs e'.
        text-IsBalanced _ refl
        ▶ quote-IsBalanced quoter plain m.table_name (clean i.entity m e).table_clean
        ▶ text-IsBalanced _ refl
        ▶ column_list-IsBalanced true fs
            (insert_fields-HasNoMark m i.columns fs (clean i.entity m e) e')
        ▶ text-IsBalanced _ refl
        ▶ rows_part-IsBalanced fs true (row ∷ rows)
        ▶ upsert_part-IsBalanced m (clean i.entity m e) d i.upsert u
        ▶ text-IsBalanced _ refl

  update_all_counts :
      (u : Updater E A Row) (l : List (Assignable E A))
      → All IsCleanAssignable l
      → CleanPredicates u.where_
      → IsBalanced (update_all registry quoter of_int field_of u l)
  unfolding update_all
  update_all_counts u [] a w = err-IsBalanced no_updated_columns
  update_all_counts u (a ∷ rest) c w = bind-IsBalanced (registry u.entity) λ m e.
      let k = clean u.entity m e in
      text-IsBalanced _ refl
      ▶ quote-IsBalanced quoter plain m.table_name k.table_clean
      ▶ text-IsBalanced _ refl
      ▶ update_assigns-IsBalanced m k u.val true (a ∷ rest) c
      ▶ clause-IsBalanced _ u.where_ refl
          (build_predicates_counts registry quoter of_int clean plain m k u.where_ w)
      ▶ text-IsBalanced _ refl

-- The text of a built INSERT has as many placeholders as it has arguments, in both dialects and with
-- any upsert part, if the quote is no question mark, the names of the registry and the upsert part
-- hold none, and each raw part there has as many as it brings arguments.
pub build_insert-placeholders :
    {E A Row : Type 0} (registry : E → Result Error Model) (quoter : ℕ) (of_int : ℕ → A)
    (field_of : Row → Bytes → Result Error A) (d : Dialect) (i : Inserter E A Row) (q : Out A)
    → IsCleanRegistry registry
    → (quoter == b'?') ≡ false
    → IsCleanUpsert i.upsert
    → build_insert registry quoter of_int field_of d i ≡ ok q
    → marks q.sql ≡ length q.args
unfolding build_insert
build_insert-placeholders registry quoter of_int field_of d i q clean plain u e =
    (insert_rows_counts registry quoter of_int field_of clean plain d i i.values u).counts q e

-- The text of a built UPDATE has as many placeholders as it has arguments, if the quote is no
-- question mark, the names of the registry, the assignments and the WHERE part hold none, and each
-- raw part has as many as it brings arguments.
pub build_update-placeholders :
    {E A Row : Type 0} (registry : E → Result Error Model) (quoter : ℕ) (of_int : ℕ → A)
    (field_of : Row → Bytes → Result Error A) (u : Updater E A Row) (q : Out A)
    → IsCleanRegistry registry
    → (quoter == b'?') ≡ false
    → All IsCleanAssignable u.assigns
    → CleanPredicates u.where_
    → build_update registry quoter of_int field_of u ≡ ok q
    → marks q.sql ≡ length q.args
unfolding build_update
build_update-placeholders registry quoter of_int field_of u q clean plain a w e =
    (update_all_counts registry quoter of_int field_of clean plain u u.assigns a w).counts q e
