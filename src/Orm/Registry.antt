-- ===== src/Orm/Registry.antt =====
-- orm/homework3/model: the models of entities, and their registry.
-- What reflection says of a type is a value: the names of the fields, and what their tags hold under
-- "orm". Names are ASCII. A registered model is not changed afterwards.
pub mod Tags
pub mod Columns
mod Tests
use go_study.Prelude.{
  ℕ, ◌+◌, Bool, true, false, Option, none, some, List, [], ◌∷◌, ◌++◌, ◌==◌, ◌&&◌, leb,
  if◌then◌else◌, Result, ok, err, Bytes, bytes, beq, lookup, insert,
}
use go_study.Orm.Output.{Field, Model}

pub data RegistryError : Type 0 where
  pointer_only : RegistryError
  invalid_tag_content : Bytes → RegistryError

pub record FieldType : Type 0 where
  pub name : Bytes
  pub orm_tag : Bytes

pub record StructType : Type 0 where
  pub name : Bytes
  pub fields : List FieldType

-- An entity: a pointer to a struct, with what its TableName says, if it has one, or something else.
pub data Val : Type 0 where
  pointer_to : StructType → Option Bytes → Val
  no_pointer : Val

-- A Model with its ColumnMap.
pub record Meta : Type 0 where
  pub model : Model
  pub column_map : List (Bytes × Field)

abbrev pub is_upper : ℕ → Bool
is_upper v = leb 65 v && leb v 90

-- `underscoreName`, from an index that is 0 or not.
unfoldable pub underscore_from : Bool → Bytes → Bytes
underscore_from at_start [] = []
underscore_from at_start (v ∷ vs) =
    let rest = underscore_from false vs in
    if is_upper v then (if at_start then (v + 32) ∷ rest else 95 ∷ (v + 32) ∷ rest) else v ∷ rest

unfoldable pub underscore_name : Bytes → Bytes
unfolding underscore_from
underscore_name name = underscore_from true name

-- `strings.Split`, at a byte.
add_to_first : ℕ → List Bytes → List Bytes
add_to_first b [] = (b ∷ []) ∷ []
add_to_first b (part ∷ parts) = (b ∷ part) ∷ parts

unfoldable pub split_at : ℕ → Bytes → List Bytes
unfolding add_to_first
split_at sep [] = [] ∷ []
split_at sep (b ∷ bs) =
    let rest = split_at sep bs in if b == sep then [] ∷ rest else add_to_first b rest

-- A pair of a tag: two parts.
abbrev pub set_pair :
    Bytes → List Bytes → List (Bytes × Bytes) → Result RegistryError (List (Bytes × Bytes))
set_pair pair (key ∷ val ∷ []) res = ok (insert key val res)
set_pair pair [] res = err (invalid_tag_content pair)
set_pair pair (key ∷ []) res = err (invalid_tag_content pair)
set_pair pair (key ∷ val ∷ more ∷ parts) res = err (invalid_tag_content pair)

unfoldable pub parse_pairs :
    List Bytes → List (Bytes × Bytes) → Result RegistryError (List (Bytes × Bytes))
unfolding insert split_at
parse_pairs [] res = ok res
parse_pairs (pair ∷ pairs) res = elim (set_pair pair (split_at 61 pair) res) [
  | err e ↦ err e
  | ok res' ↦ parse_pairs pairs res'
]

-- `parseTag`
unfoldable pub parse_tag : Bytes → Result RegistryError (List (Bytes × Bytes))
unfolding parse_pairs split_at
parse_tag [] = ok []
parse_tag (b ∷ bs) = parse_pairs (split_at 44 (b ∷ bs)) []

-- An empty name is replaced.
abbrev pub or_underscore : Bytes → Option Bytes → Bytes
or_underscore name none = underscore_name name
or_underscore name (some []) = underscore_name name
or_underscore name (some (c ∷ cs)) = c ∷ cs

-- The Field of a field.
unfoldable pub field_of : FieldType → Result RegistryError Field
unfolding parse_tag underscore_name lookup
field_of f = elim (parse_tag f.orm_tag) [
  | err e ↦ err e
  | ok tags ↦
      ok (record {
        go_name = f.name;
        col_name = or_underscore f.name (lookup (bytes "column") tags);
      })
]

abbrev pub add_field : FieldType → Field → Meta → Meta
add_field f g m = record {
  model = record m.model {
    fields = m.model.fields ++ (g ∷ []);
    field_map = insert f.name g m.model.field_map;
  };
  column_map = insert g.col_name g m.column_map;
}

-- The loop of `parseModel` over the fields.
unfoldable pub parse_fields : List FieldType → Meta → Result RegistryError Meta
unfolding field_of insert
parse_fields [] m = ok m
parse_fields (f ∷ fs) m = elim (field_of f) [
  | err e ↦ err e
  | ok g ↦ parse_fields fs (add_field f g m)
]

abbrev pub empty_meta : Bytes → Meta
empty_meta table_name = record {
  model = record { table_name = table_name; fields = []; field_map = [] };
  column_map = [];
}

-- `parseModel`
unfoldable pub parse_model : Val → Result RegistryError Meta
unfolding parse_fields underscore_name
parse_model no_pointer = err pointer_only
parse_model (pointer_to t table_name) =
    parse_fields t.fields (empty_meta (or_underscore t.name table_name))

-- The options of a registration, one after the other.
unfoldable pub apply_opts :
    List (Meta → Result RegistryError Meta) → Meta → Result RegistryError Meta
apply_opts [] m = ok m
apply_opts (opt ∷ opts) m = elim (opt m) [ err e ↦ err e | ok m' ↦ apply_opts opts m' ]

-- The registry: the models by the name of the type.
abbrev pub Models : Type 0
Models = List (Bytes × Meta)

abbrev pub stored : Bytes → Models → Result RegistryError Meta → Models × Result RegistryError Meta
stored typ r (err e) = (r, err e)
stored typ r (ok m) = (insert typ m r, ok m)

-- `Register`
unfoldable pub register_model :
    Bytes
    → Val
    → List (Meta → Result RegistryError Meta)
    → Models
    → Models × Result RegistryError Meta
unfolding parse_model apply_opts insert
register_model typ val opts r = elim (parse_model val) [
  | err e ↦ (r, err e)
  | ok m ↦ stored typ r (apply_opts opts m)
]

-- `Get`
unfoldable pub get_model : Bytes → Val → Models → Models × Result RegistryError Meta
unfolding lookup register_model
get_model typ val r = elim (lookup typ r) [
  | some m ↦ (r, ok m)
  | none ↦ register_model typ val [] r
]
