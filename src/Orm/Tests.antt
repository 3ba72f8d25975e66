-- ===== src/Orm/Tests.antt =====
-- Queries of orm/homework3, built, and the theorems about them at concrete queries.
use go_study.Prelude.{
  inr, ℕ, suc, ◌≡◌, refl, [], ◌∷◌, some, none, Bytes, bytes, beq, lookup, Result, ok, err, length,
  subst, if◌then◌else◌,
}
use go_study.Orm.Syntax.{
  TableRef, no_table, table, join, Selector, selector, column, no_columns, select_column,
  no_selected, selected, value, no_predicates, predicates, binary, eq, lt, gt, and_, not_, in_query,
  as_subquery, column_expr, no_expr, subquery_expr, subquery, assign_column, assignment, predicate,
}
use go_study.Orm.Output.{
  Error, unknown_field, Field, Model, field_col, ◌▷◌, text, silent, add_args, quote, build_as,
}
use go_study.Orm.Select.{
  raw, paren, sub_parens, op_part, right_part, and_write, clause, col_name, alias_part, build_col,
  build_column, build_column_as, build_selectable, more_columns, build_columns, group_part,
  more_names, number_part, build_selector, build_expr, build_predicates,
}
use go_study.Orm.Compose.{
  set_limit, set_where, set_columns, set_from, table_of, plain_column, upsert_with, on_conflict,
  on_duplicate_key, assign_to, join_using, left_join, table_as,
}
use go_study.Orm.Clean.{marks, IsCleanModel, IsCleanRegistry, CleanSelector}
use go_study.Orm.SelectCounts.{build_selector-placeholders}
use go_study.Orm.Modify.{
  mysql, sqlite3, Upsert, Inserter, Updater, pick_fields, insert_fields, comma, overwrite,
  upsert_assigns, conflict_part, build_upsert, column_list, row_values, rows_part, upsert_part,
  insert_rows, build_insert, update_assigns, update_all, build_update,
}
use go_study.Orm.ModifyCounts.{build_insert-placeholders, build_update-placeholders}
use go_study.Orm.Behaviour.{before_assignment, build_upsert-before_assignment}

abbrev id_field : Field
id_field = record { go_name = bytes "Id"; col_name = bytes "id" }

abbrev age_field : Field
age_field = record { go_name = bytes "Age"; col_name = bytes "age" }

abbrev user : Model
user = record {
  table_name = bytes "user";
  fields = id_field ∷ age_field ∷ [];
  field_map = (bytes "Id", id_field) ∷ (bytes "Age", age_field) ∷ [];
}

abbrev order : Model
order = record {
  table_name = bytes "order";
  fields = id_field ∷ [];
  field_map = (bytes "Id", id_field) ∷ [];
}

-- The entity 0 is a user, any other an order; arguments are numbers.
abbrev registry : ℕ → Result Error Model
registry ℕ.zero = ok user
registry (suc n) = ok order

ok-inj : {m n : Model} → ◌≡◌ {A = Result Error Model} (ok m) (ok n) → m ≡ n
ok-inj e = cc

user-IsClean : IsCleanModel user
user-IsClean = record {
  table_clean = refl;
  fields_clean = (refl, (refl, tt));
  map_clean = (refl, (refl, tt));
}

order-IsClean : IsCleanModel order
order-IsClean = record { table_clean = refl; fields_clean = (refl, tt); map_clean = (refl, tt) }

registry-IsClean : IsCleanRegistry registry
registry-IsClean ℕ.zero m e = subst IsCleanModel (ok-inj e) user-IsClean
registry-IsClean (suc n) m e = subst IsCleanModel (ok-inj e) order-IsClean

-- SELECT `id` FROM (`user` JOIN `order`) WHERE (`id` = ?) AND (`age` < ?) LIMIT ?;
abbrev query : Selector ℕ ℕ
query =
    selector 0 (table 0 []) (selected (select_column (column no_table (bytes "Id") [])) no_selected)
      (predicates (binary (column_expr (column no_table (bytes "Id") [])) (bytes "=") (value 7)) (
        predicates (binary (column_expr (column no_table (bytes "Age") [])) (bytes "<") (value 30))
          no_predicates))
      no_columns no_predicates 5 0

query_run :
    build_selector registry 96 (λ n. n) query
    ≡ ok (record {
      sql = bytes "SELECT `id` FROM `user` WHERE (`id` = ?) AND (`age` < ?) LIMIT ?;";
      args = 7 ∷ 30 ∷ 5 ∷ [];
    })
unfolding build_selector text silent add_args quote build_as ◌▷◌ raw paren sub_parens op_part
    right_part and_write clause col_name alias_part build_col build_column build_column_as
    build_selectable more_columns build_columns group_part number_part field_col lookup beq
query_run = refl

query-Clean : CleanSelector query
unfolding CleanSelector
query-Clean = (
  refl,
  ((tt, refl, refl), tt),
  (((tt, refl, refl), refl, tt), (((tt, refl, refl), refl, tt), tt)),
  tt,
  tt,
)

build_selector-placeholders_example :
    marks (bytes "SELECT `id` FROM `user` WHERE (`id` = ?) AND (`age` < ?) LIMIT ?;")
    ≡ length {A = ℕ} (7 ∷ 30 ∷ 5 ∷ [])
build_selector-placeholders_example =
    build_selector-placeholders registry 96 (λ n. n) query _ registry-IsClean refl query-Clean
      query_run

-- A row is its two fields.
abbrev field_of : ℕ × ℕ → Bytes → Result Error ℕ
field_of row name =
    if beq name (bytes "Id")
    then ok row.0
    else if beq name (bytes "Age")
    then ok row.1
    else err (unknown_field name)

abbrev upsert : Upsert ℕ ℕ
upsert = record {
  conflict_columns = bytes "Id" ∷ [];
  assigns =
      assign_column (column no_table (bytes "Age") []) ∷ assignment (bytes "Id") (value 3) ∷ [];
}

abbrev two_users : Inserter ℕ ℕ (ℕ × ℕ)
two_users = record {
  entity = 0;
  values = (1, 20) ∷ (2, 30) ∷ [];
  columns = [];
  upsert = some upsert;
}

two_users_run :
    build_insert registry 96 (λ n. n) field_of sqlite3 two_users
    ≡ ok (record {
      sql =
          bytes
            "INSERT INTO `user`(`id`,`age`) VALUES(?,?),(?,?) ON CONFLICT(`id`) DO UPDATE SET `age`=excluded.`age`,`id`=?;";
      args = 1 ∷ 20 ∷ 2 ∷ 30 ∷ 3 ∷ [];
    })
unfolding build_insert insert_rows insert_fields column_list rows_part row_values upsert_part
    build_upsert upsert_assigns conflict_part overwrite comma build_expr more_names text silent
    add_args quote ◌▷◌ col_name alias_part build_col field_col lookup beq
two_users_run = refl

build_insert-placeholders_example :
    marks (
      bytes
        "INSERT INTO `user`(`id`,`age`) VALUES(?,?),(?,?) ON CONFLICT(`id`) DO UPDATE SET `age`=excluded.`age`,`id`=?;")
    ≡ length {A = ℕ} (1 ∷ 20 ∷ 2 ∷ 30 ∷ 3 ∷ [])
unfolding CleanSelector
build_insert-placeholders_example =
    build_insert-placeholders registry 96 (λ n. n) field_of sqlite3 two_users _ registry-IsClean
      refl ((refl, tt), ((tt, refl, refl), ((refl, tt), tt))) two_users_run

abbrev plain_users : Inserter ℕ ℕ (ℕ × ℕ)
plain_users = record two_users { columns = bytes "Age" ∷ []; upsert = none }

plain_users_run :
    build_insert registry 96 (λ n. n) field_of mysql plain_users
    ≡ ok (record { sql = bytes "INSERT INTO `user`(`age`) VALUES(?),(?);"; args = 20 ∷ 30 ∷ [] })
unfolding build_insert insert_rows insert_fields pick_fields column_list rows_part row_values
    upsert_part comma text silent add_args quote ◌▷◌ lookup beq
plain_users_run = refl

plain_fields : insert_fields user (bytes "Age" ∷ []) ≡ ok (age_field ∷ [])
unfolding insert_fields pick_fields lookup beq
plain_fields = refl

abbrev update : Updater ℕ ℕ (ℕ × ℕ)
update = record {
  entity = 0;
  assigns = assign_column (column no_table (bytes "Age") []) ∷ [];
  val = (1, 20);
  where_ =
      predicates (binary (column_expr (column no_table (bytes "Id") [])) (bytes "=") (value 1))
        no_predicates;
}

update_run :
    build_update registry 96 (λ n. n) field_of update
    ≡ ok (record { sql = bytes "UPDATE `user` SET `age`=? WHERE `id` = ?;"; args = 20 ∷ 1 ∷ [] })
unfolding build_update update_all update_assigns comma build_predicates op_part right_part
    sub_parens clause build_column text silent add_args quote ◌▷◌ col_name alias_part build_col
    field_col lookup beq
update_run = refl

build_update-placeholders_example :
    marks (bytes "UPDATE `user` SET `age`=? WHERE `id` = ?;") ≡ length {A = ℕ} (20 ∷ 1 ∷ [])
unfolding CleanSelector
build_update-placeholders_example =
    build_update-placeholders registry 96 (λ n. n) field_of update _ registry-IsClean refl
      ((tt, refl, refl), tt) (((tt, refl, refl), refl, tt), tt) update_run

-- A user has an age and no total, an order the other way round.
abbrev joined : ℕ → Result Error Model
joined ℕ.zero = ok user
joined (suc n) =
    ok (record {
      table_name = bytes "order";
      fields = [];
      field_map = (bytes "Total", id_field) ∷ [];
    })

abbrev zero_table : TableRef ℕ ℕ
zero_table = table 0 []

abbrev one_table : TableRef ℕ ℕ
one_table = table 1 []

total_left : col_name joined user zero_table (bytes "Total") ≡ err (unknown_field (bytes "Total"))
unfolding col_name field_col lookup beq
total_left = refl

total_right : col_name joined user one_table (bytes "Total") ≡ ok (bytes "id")
unfolding col_name field_col lookup beq
total_right = refl

age_left : col_name joined user zero_table (bytes "Age") ≡ ok (bytes "age")
unfolding col_name field_col lookup beq
age_left = refl

age_right : col_name joined user one_table (bytes "Age") ≡ err (unknown_field (bytes "Age"))
unfolding col_name field_col lookup beq
age_right = refl

build_upsert-before_assignment_example :
    build_upsert registry 96 (λ n. n) field_of sqlite3 user upsert
    ≡ build_upsert registry 96
        (λ n. n)
        field_of
        sqlite3
        user
        (record upsert { assigns = before_assignment upsert.assigns })
build_upsert-before_assignment_example =
    build_upsert-before_assignment registry 96 (λ n. n) field_of sqlite3 user upsert

-- The functions that put a query together.
parts_run :
    and_
      (gt {E = ℕ} {A = ℕ} (column no_table (bytes "Age") []) (value 1))
      (not_ (lt (column no_table (bytes "Id") []) (value 2)))
    ≡ binary
        (predicate (binary (column_expr (column no_table (bytes "Age") [])) (bytes ">") (value 1)))
        (bytes "AND")
        (predicate (
          binary no_expr (bytes "NOT") (
            predicate
              (binary (column_expr (column no_table (bytes "Id") [])) (bytes "<") (value 2)))))
unfolding and_ gt not_ lt
parts_run = refl

in_query_run :
    in_query (column no_table (bytes "Id") []) (as_subquery query (bytes "q"))
    ≡ binary (column_expr (column no_table (bytes "Id") [])) (bytes "IN") (
        subquery_expr (
          subquery query
            (selected (select_column (column no_table (bytes "Id") [])) no_selected)
            (bytes "q")
            (table 0 [])))
unfolding in_query as_subquery
in_query_run = refl

-- The queries above, put together by the methods.
composed_query :
    set_limit 5 (
      set_where
        (predicates
          (eq (plain_column (bytes "Id")) (value 7))
          (predicates (lt (plain_column (bytes "Age")) (value 30)) no_predicates))
        (set_columns (selected (select_column (plain_column (bytes "Id"))) no_selected) (
          set_from
            (table_of 0)
            (selector 0 no_table no_selected no_predicates no_columns no_predicates 0 0))))
    ≡ query
unfolding set_limit set_where set_columns set_from table_of plain_column eq lt
composed_query = refl

composed_insert :
    upsert_with
      (assign_column (plain_column (bytes "Age")) ∷ assign_to (bytes "Id") (inr 3) ∷ [])
      (on_conflict (bytes "Id" ∷ []) (on_duplicate_key (record two_users { upsert = none })))
    ≡ two_users
unfolding upsert_with on_conflict on_duplicate_key assign_to plain_column
composed_insert = refl

composed_join :
    join_using
      (left_join (table_as (table_of {E = ℕ} {A = ℕ} 0) (bytes "u")) (table_of 1))
      (bytes "Id" ∷ [])
    ≡ join (table 0 (bytes "u")) (table 1 []) (bytes "LEFT JOIN") no_predicates (bytes "Id" ∷ [])
unfolding join_using left_join table_as table_of
composed_join = refl
