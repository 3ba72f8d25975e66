-- ===== src/Orm/Registry/Columns.antt =====
-- orm/homework3/model/registry.go: the columns that the builders look up in a registered model.
use go_study.Prelude.{
  false, Option, some, List, [], ◌∷◌, ◌≡◌, inl, inr, refl, ◌∙◌, map, ok, Bytes, beq, beq_refl,
  lookup, lookup-insert, Result-cases, All,
}
use go_study.Orm.Registry.Tags.{
  Tagged, field_type, expected_column, IsPlainPair, made_field, field_of-field_type,
}
use go_study.Orm.Output.{Model, field_col}
use go_study.Orm.Registry.{
  FieldType, pointer_to, Meta, field_of, add_field, parse_fields, parse_model, empty_meta,
  or_underscore,
}

-- No two fields have one name.
abbrev pub AreDistinct : List FieldType → Type 0
AreDistinct [] = Unit
AreDistinct (f ∷ fs) = All (λ g. beq g.name f.name ≡ false) fs × AreDistinct fs

parse_fields-keeps :
    (key : Bytes) (fs : List FieldType) (m m' : Meta)
    → All (λ g. beq g.name key ≡ false) fs
    → parse_fields fs m ≡ ok m'
    → lookup key m'.model.field_map ≡ lookup key m.model.field_map
unfolding parse_fields
parse_fields-keeps key [] m m' other e = cc
parse_fields-keeps key (f ∷ fs) m m' (one, others) e = elim (Result-cases (field_of f)) [
  | inl (g, made) ↦
      parse_fields-keeps key fs (add_field f g m) m' others (rw (made, parse_fields) at e)
      ∙ lookup-insert f.name key g m.model.field_map
      ∙ rw one refl
  | inr (x, bad) ↦ cc (rw (bad, parse_fields) at e)
]

-- The column of a field, as the builders find it.
abbrev pub HasColumn : Model → Tagged → Type 0
HasColumn m t = field_col m t.name ≡ ok (expected_column t)

parse_fields-HasColumn :
    (ts : List Tagged) (m : Meta)
    → AreDistinct (map field_type ts)
    → All (λ t. All IsPlainPair t.pairs) ts
    → (m' : Meta) × (parse_fields (map field_type ts) m ≡ ok m') × All (HasColumn m'.model) ts
unfolding parse_fields field_col
parse_fields-HasColumn [] m distinct plain = (m, refl, tt)
parse_fields-HasColumn (t ∷ ts) m (others, distinct) (h, hs) =
    let made = field_of-field_type t h in
    let (m', parsed, rest) =
      parse_fields-HasColumn ts (add_field (field_type t) (made_field t) m) distinct hs in
    let found =
      parse_fields-keeps t.name (map field_type ts) (add_field (field_type t) (made_field t) m) m'
        others parsed
      ∙ lookup-insert t.name t.name (made_field t) m.model.field_map in
    let at_name : lookup t.name m'.model.field_map ≡ some (made_field t) =
      found ∙ rw (beq_refl t.name) refl in
    (m', rw (made, parse_fields) parsed, (rw (at_name, field_col) refl, rest))

-- A struct type whose fields have different names, and tags of pairs without stray commas and equals
-- signs, is parsed, and the builders find for each field the column that the last pair with the key
-- "column" names or, with no such pair or an empty name, the field's own name in small letters, with
-- an underscore in front of each capital but a first one.
pub parse_model-HasColumn :
    (name : Bytes) (ts : List Tagged) (table_name : Option Bytes)
    → AreDistinct (map field_type ts)
    → All (λ t. All IsPlainPair t.pairs) ts
    → (m : Meta) × (parse_model
          (pointer_to (record { name = name; fields = map field_type ts }) table_name)
        ≡ ok m)
      × All (HasColumn m.model) ts
unfolding parse_model
parse_model-HasColumn name ts table_name distinct plain =
    parse_fields-HasColumn ts (empty_meta (or_underscore name table_name)) distinct plain
