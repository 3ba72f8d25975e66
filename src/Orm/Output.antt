-- ===== src/Orm/Output.antt =====
-- orm/homework3: what a builder writes (builder.go), and its errors. A builder only ever appends to
-- its text and its arguments, so a step is what it appends, or an error, which ends the build.
use go_study.Prelude.{ℕ, List, [], ◌∷◌, ◌++◌, Result, ok, err, Bytes, bytes, lookup, none, some}

pub data Error : Type 0 where
  unknown_field : Bytes → Error
  unsupported_assignable : Error
  insert_zero_row no_updated_columns : Error
  -- What the registry, or the reading of a field's value, answers.
  no_model no_value : Error

pub record Field : Type 0 where
  pub go_name : Bytes
  pub col_name : Bytes

pub record Model : Type 0 where
  pub table_name : Bytes
  pub fields : List Field
  pub field_map : List (Bytes × Field)

module _ (A : Type 0) where
  pub record Out : Type 0 where
    pub sql : Bytes
    pub args : List A

  abbrev pub Write : Type 0
  Write = Result Error Out

module _ {A : Type 0} where
  -- One step, then another.
  infixl 6 ◌▷◌
  unfoldable pub ◌▷◌ : Write A → Write A → Write A
  ok a ▷ ok b = ok (record { sql = a.sql ++ b.sql; args = a.args ++ b.args })
  ok a ▷ err e = err e
  err e ▷ w = err e

  -- `sb.WriteString`
  unfoldable pub text : Bytes → Write A
  text s = ok (record { sql = s; args = [] })

  unfoldable pub silent : Write A
  silent = ok (record { sql = []; args = [] })

  -- `addArgs`
  unfoldable pub add_args : List A → Write A
  add_args args = ok (record { sql = []; args = args })

  unfoldable pub quote : ℕ → Bytes → Write A
  quote quoter name = ok (record { sql = quoter ∷ (name ++ (quoter ∷ [])); args = [] })

  unfoldable pub build_as : ℕ → Bytes → Write A
  unfolding text quote silent
  build_as quoter [] = silent
  build_as quoter (c ∷ cs) = text (bytes " AS ") ▷ quote quoter (c ∷ cs)

-- `b.model.FieldMap[fd]`
unfoldable pub field_col : Model → Bytes → Result Error Bytes
field_col m fd = elim (lookup fd m.field_map) [
  | none ↦ err (unknown_field fd)
  | some f ↦ ok f.col_name
]
