-- ===== src/Orm/Modify.antt =====
-- orm/homework3/insert.go, updater.go and dialect.go: the text and the arguments of an INSERT, with
-- its upsert part, and of an UPDATE. `Row` stands for the values of the entity's type, and
-- `field_of` for reading a field of one, which the program does by reflection.
use go_study.Prelude.{
  ℕ, Bool, true, false, List, [], ◌∷◌, Option, none, some, Result, ok, err, ◌>>=◌, Bytes, bytes,
  lookup, if◌then◌else◌,
}
use go_study.Orm.Syntax.{
  no_table, column, Predicates, Assignable, assign_column, assignment, assign_raw,
}
use go_study.Orm.Output.{
  Error, unknown_field, unsupported_assignable, insert_zero_row, no_updated_columns, Field, Model,
  Write, ◌▷◌, text, silent, add_args, quote,
}
use go_study.Orm.Select.{clause, col_name, build_col, more_names, build_expr, build_predicates}

pub data Dialect : Type 0 where
  mysql sqlite3 : Dialect

pub record Upsert (E A : Type 0) : Type 0 where
  pub conflict_columns : List Bytes
  pub assigns : List (Assignable E A)

pub record Inserter (E A Row : Type 0) : Type 0 where
  pub entity : E
  pub values : List Row
  pub columns : List Bytes
  pub upsert : Option (Upsert E A)

pub record Updater (E A Row : Type 0) : Type 0 where
  pub entity : E
  pub assigns : List (Assignable E A)
  pub val : Row
  pub where_ : Predicates E A

-- The fields of the columns that were asked for, in that order.
unfoldable pub pick_fields : Model → List Bytes → Result Error (List Field)
pick_fields m [] = ok []
pick_fields m (c ∷ cs) = elim (lookup c m.field_map) [
  | none ↦ err (unknown_field c)
  | some f ↦ pick_fields m cs >>= λ fs. ok (f ∷ fs)
]

unfoldable pub insert_fields : Model → List Bytes → Result Error (List Field)
unfolding pick_fields
insert_fields m [] = ok m.fields
insert_fields m (c ∷ cs) = pick_fields m (c ∷ cs)

module _ {A : Type 0} where
  -- The comma in front of every item but the first.
  unfoldable pub comma : Bool → Write A
  comma first = if first then silent else text (bytes ",")

module _ {E A Row : Type 0} (registry : E → Result Error Model) (quoter : ℕ) (of_int : ℕ → A)
    (field_of : Row → Bytes → Result Error A) where
  -- `colName=VALUES(colName)`, `colName=excluded.colName`
  unfoldable pub overwrite : Dialect → Bytes → Write A
  overwrite mysql c = quote quoter c ▷ text (bytes "=VALUES(") ▷ quote quoter c ▷ text (bytes ")")
  overwrite sqlite3 c = quote quoter c ▷ text (bytes "=excluded.") ▷ quote quoter c

  -- The loop of `buildUpsert`, the same in both dialects; an Assignment returns from it.
  unfoldable pub upsert_assigns : Dialect → Model → Bool → List (Assignable E A) → Write A
  upsert_assigns d m first [] = silent
  upsert_assigns d m first (assign_column (column of name alias) ∷ rest) =
      comma first ▷ (col_name registry m of name >>= overwrite d) ▷ upsert_assigns d m false rest
  upsert_assigns d m first (assignment name val ∷ rest) =
      comma first
      ▷ build_col registry quoter of_int m no_table name
      ▷ text (bytes "=")
      ▷ build_expr registry quoter of_int m val
  upsert_assigns d m first (assign_raw r ∷ rest) = comma first ▷ err unsupported_assignable

  unfoldable pub conflict_part : Model → List Bytes → Write A
  conflict_part m [] = silent
  conflict_part m (c ∷ cs) =
      text (bytes "(")
      ▷ build_col registry quoter of_int m no_table c
      ▷ more_names registry quoter of_int m cs
      ▷ text (bytes ")")

  -- `buildUpsert`
  unfoldable pub build_upsert : Dialect → Model → Upsert E A → Write A
  build_upsert mysql m odk =
      text (bytes " ON DUPLICATE KEY UPDATE ") ▷ upsert_assigns mysql m true odk.assigns
  build_upsert sqlite3 m odk =
      text (bytes " ON CONFLICT")
      ▷ conflict_part m odk.conflict_columns
      ▷ text (bytes " DO UPDATE SET ")
      ▷ upsert_assigns sqlite3 m true odk.assigns

  unfoldable pub column_list : Bool → List Field → Write A
  column_list first [] = silent
  column_list first (f ∷ fs) = comma first ▷ quote quoter f.col_name ▷ column_list false fs

  -- The placeholders of one row, and its values.
  unfoldable pub row_values : Row → Bool → List Field → Write A
  row_values row first [] = silent
  row_values row first (f ∷ fs) =
      comma first
      ▷ (field_of row f.go_name >>= λ v. text (bytes "?") ▷ add_args (v ∷ []))
      ▷ row_values row false fs

  unfoldable pub rows_part : List Field → Bool → List Row → Write A
  rows_part fs first [] = silent
  rows_part fs first (row ∷ rows) =
      comma first
      ▷ text (bytes "(")
      ▷ row_values row true fs
      ▷ text (bytes ")")
      ▷ rows_part fs false rows

  unfoldable pub upsert_part : Dialect → Model → Option (Upsert E A) → Write A
  upsert_part d m none = silent
  upsert_part d m (some odk) = build_upsert d m odk

  -- `Inserter.Build`, on its values
  unfoldable pub insert_rows : Dialect → Inserter E A Row → List Row → Write A
  insert_rows d i [] = err insert_zero_row
  insert_rows d i (row ∷ rows) = registry i.entity >>= λ m. insert_fields m i.columns >>= λ fs.
      text (bytes "INSERT INTO ")
      ▷ quote quoter m.table_name
      ▷ text (bytes "(")
      ▷ column_list true fs
      ▷ text (bytes ") VALUES")
      ▷ rows_part fs true (row ∷ rows)
      ▷ upsert_part d m i.upsert
      ▷ text (bytes ";")

  unfoldable pub build_insert : Dialect → Inserter E A Row → Write A
  build_insert d i = insert_rows d i i.values

  -- The loop of `Updater.Build`.
  unfoldable pub update_assigns : Model → Row → Bool → List (Assignable E A) → Write A
  update_assigns m row first [] = silent
  update_assigns m row first (assign_column (column of name alias) ∷ rest) =
      comma first
      ▷ build_col registry quoter of_int m of name
      ▷ (field_of row name >>= λ v. text (bytes "=?") ▷ add_args (v ∷ []))
      ▷ update_assigns m row false rest
  update_assigns m row first (assignment name val ∷ rest) =
      comma first
      ▷ build_col registry quoter of_int m no_table name
      ▷ text (bytes "=")
      ▷ build_expr registry quoter of_int m val
      ▷ update_assigns m row false rest
  update_assigns m row first (assign_raw r ∷ rest) = comma first ▷ err unsupported_assignable

  -- `Updater.Build`, on its assignments
  unfoldable pub update_all : Updater E A Row → List (Assignable E A) → Write A
  update_all u [] = err no_updated_columns
  update_all u (a ∷ rest) = registry u.entity >>= λ m.
      text (bytes "UPDATE ")
      ▷ quote quoter m.table_name
      ▷ text (bytes " SET ")
      ▷ update_assigns m u.val true (a ∷ rest)
      ▷ clause (bytes " WHERE ") u.where_ (build_predicates registry quoter of_int m u.where_)
      ▷ text (bytes ";")

  unfoldable pub build_update : Updater E A Row → Write A
  build_update u = update_all u u.assigns
