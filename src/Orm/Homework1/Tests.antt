-- ===== src/Orm/Homework1/Tests.antt =====
-- Queries of orm/homework1, and its theorem at a concrete one.
use go_study.Prelude.{ℕ, ◌≡◌, refl, [], ◌∷◌, Result, ok, err, bytes, beq, lookup}
use go_study.Orm.Output.{Error, unknown_field, Field, Model}
use go_study.Orm.Select as Select
use go_study.Orm.Homework1.{
  c_, column_as, avg, value, column_gt, aggregate_lt, not_, column_eq, select_column, Selector, asc,
  desc, ℤ, pos, negsuc, build,
}
use go_study.Orm.Homework1.Lift.{lift}
use go_study.Orm.Homework1.Agrees.{build-lift}

abbrev age : Field
age = record { go_name = bytes "Age"; col_name = bytes "age" }

abbrev user : Model
user = record { table_name = bytes "user"; fields = age ∷ []; field_map = (bytes "Age", age) ∷ [] }

abbrev registry : ℕ → Result Error Model
registry n = ok user

abbrev plain : Selector ℕ ℤ
plain = record {
  entity = 0;
  table = [];
  where_ =
      column_gt (c_ (bytes "Age")) (value (pos 18))
      ∷ not_ (column_eq (c_ (bytes "Age")) (value (pos 30)))
      ∷ [];
  having = aggregate_lt (avg (bytes "Age")) (value (pos 40)) ∷ [];
  columns = select_column (column_as (c_ (bytes "Age")) (bytes "a")) ∷ [];
  group_by = c_ (bytes "Age") ∷ [];
  order_by = [];
  offset = pos 0;
  limit = pos 10;
}

plain_built :
    build registry (λ n. n) plain
    ≡ ok (record {
      sql =
          bytes
            "SELECT `age` AS `a` FROM `user` WHERE (`age` > ?) AND ( NOT (`age` = ?)) GROUP BY `age` HAVING AVG(`age`) < ? LIMIT ?;";
      args = pos 18 ∷ pos 30 ∷ pos 40 ∷ pos 10 ∷ [];
    })
unfolding build lookup beq
plain_built = refl

build-lift_example :
    build registry (λ n. n) plain ≡ Select.build_selector registry 96 (λ n. pos n) (lift plain)
build-lift_example =
    build-lift registry (λ n. n) plain
      (record {
        table = refl;
        where_made = ((tt, tt, tt), ((tt, (tt, tt, tt), tt), tt));
        having_made = ((tt, tt, tt), tt);
        groups = (refl, tt);
        unordered = refl;
        limit = tt;
        offset = tt;
      })

-- An alias of a column that is grouped by is written as well, and a negative limit is an argument.
group_by_alias :
    build registry
      (λ n. n)
      (record plain {
        where_ = [];
        having = [];
        group_by = column_as (c_ (bytes "Age")) (bytes "a") ∷ [];
        order_by = asc (bytes "Age") ∷ desc (bytes "Age") ∷ [];
        limit = negsuc 0;
      })
    ≡ ok (record {
      sql =
          bytes
            "SELECT `age` AS `a` FROM `user` GROUP BY `age` AS `a` ORDER BY `age` ASC,`age` DESC LIMIT ?;";
      args = negsuc 0 ∷ [];
    })
unfolding build lookup beq
group_by_alias = refl

order_by_unknown :
    build registry (λ n. n) (record plain { order_by = asc (bytes "Id") ∷ [] })
    ≡ err (unknown_field (bytes "Id"))
unfolding build lookup beq
order_by_unknown = refl
