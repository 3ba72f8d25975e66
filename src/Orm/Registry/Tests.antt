-- ===== src/Orm/Registry/Tests.antt =====
-- A struct with a tagged field and an untagged one.
use go_study.Prelude.{
  none, List, [], ◌∷◌, ◌≡◌, refl, ok, err, Bytes, bytes, beq, lookup, insert, map, All,
}
use go_study.Orm.Output.{Field}
use go_study.Orm.Registry.{
  FieldType, StructType, pointer_to, no_pointer, Meta, Models, pointer_only, invalid_tag_content,
  parse_model, register_model, get_model,
}
use go_study.Orm.Registry.Tags.{Tagged, IsPlain, field_type, expected_column}
use go_study.Orm.Registry.Columns.{HasColumn, parse_model-HasColumn}

abbrev first_name : FieldType
first_name = record { name = bytes "FirstName"; orm_tag = [] }

abbrev id_field : FieldType
id_field = record { name = bytes "Id"; orm_tag = bytes "k=v,column=key" }

abbrev user : StructType
user = record { name = bytes "TestUser"; fields = first_name ∷ id_field ∷ [] }

abbrev user_fields : List Field
user_fields =
    record { go_name = bytes "FirstName"; col_name = bytes "first_name" }
    ∷ record { go_name = bytes "Id"; col_name = bytes "key" }
    ∷ []

abbrev by_name : List (Bytes × Field)
by_name =
    (bytes "FirstName", record { go_name = bytes "FirstName"; col_name = bytes "first_name" })
    ∷ (bytes "Id", record { go_name = bytes "Id"; col_name = bytes "key" })
    ∷ []

abbrev by_column : List (Bytes × Field)
by_column =
    (bytes "first_name", record { go_name = bytes "FirstName"; col_name = bytes "first_name" })
    ∷ (bytes "key", record { go_name = bytes "Id"; col_name = bytes "key" })
    ∷ []

abbrev user_meta : Meta
user_meta = record {
  model = record { table_name = bytes "test_user"; fields = user_fields; field_map = by_name };
  column_map = by_column;
}

parsed : parse_model (pointer_to user none) ≡ ok user_meta
unfolding parse_model insert lookup beq
parsed = refl

abbrev tagged : List Tagged
tagged =
    record { name = bytes "FirstName"; pairs = [] }
    ∷ record {
      name = bytes "Id";
      pairs = (bytes "k", bytes "v") ∷ (bytes "column", bytes "key") ∷ [];
    }
    ∷ record { name = bytes "LastName"; pairs = (bytes "column", []) ∷ [] }
    ∷ []

columns_are : map expected_column tagged ≡ bytes "first_name" ∷ bytes "key" ∷ bytes "last_name" ∷ []
unfolding beq
columns_are = refl

tag_k : IsPlain (bytes "k")
tag_k = ((refl, refl), tt)

tag_v : IsPlain (bytes "v")
tag_v = ((refl, refl), tt)

tag_column : IsPlain (bytes "column")
tag_column = (
  (refl, refl),
  ((refl, refl), ((refl, refl), ((refl, refl), ((refl, refl), ((refl, refl), tt))))),
)

tag_key : IsPlain (bytes "key")
tag_key = ((refl, refl), ((refl, refl), ((refl, refl), tt)))

parse_model-HasColumn_example :
    (m : Meta) × (parse_model
        (pointer_to (record { name = bytes "TestUser"; fields = map field_type tagged }) none)
      ≡ ok m)
    × All (HasColumn m.model) tagged
unfolding beq
parse_model-HasColumn_example =
    parse_model-HasColumn (bytes "TestUser") tagged none
      ((refl, (refl, tt)), ((refl, tt), (tt, tt)))
      (tt, (((tag_k, tag_v), ((tag_column, tag_key), tt)), (((tag_column, tt), tt), tt)))

abbrev no_models : Models
no_models = []

not_a_struct : get_model (bytes "int") no_pointer no_models ≡ ([], err pointer_only)
unfolding get_model lookup
not_a_struct = refl

found_again :
    get_model (bytes "TestUser") no_pointer ((bytes "TestUser", user_meta) ∷ [])
    ≡ ((bytes "TestUser", user_meta) ∷ [], ok user_meta)
unfolding get_model lookup beq
found_again = refl

bad_pair :
    (register_model
      (bytes "T")
      (pointer_to
        (record {
          name = bytes "T";
          fields = record { name = bytes "F"; orm_tag = bytes "column" } ∷ [];
        })
        none)
      []
      no_models).1
    ≡ err (invalid_tag_content (bytes "column"))
unfolding register_model lookup beq insert
bad_pair = refl
