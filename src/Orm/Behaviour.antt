-- ===== src/Orm/Behaviour.antt =====
-- orm/homework3: conditions joined by AND, assignments of an upsert, and the number of arguments of
-- an INSERT.
use go_study.Prelude.{
  ℕ, ◌+◌, ◌*◌, ◌≤◌, Bool, true, false, List, [], ◌∷◌, ◌++◌, Result, ok, err, ◌>>=◌, Bytes, bytes,
  length, ◌≡◌, refl, sym, ap, subst, none, arith, length-append,
}
use go_study.Orm.Syntax.{
  column, Binary, Predicates, no_predicates, predicates, predicate, and_, Assignable, assign_column,
  assignment, assign_raw,
}
use go_study.Orm.Output.{Error, Field, Model, Out, Write, ◌▷◌, text, silent, add_args, quote}
use go_study.Orm.Select.{
  build_expr, build_binary, build_predicates, and_all, and_write, sub_parens, right_part, op_part,
}
use go_study.Orm.Modify.{
  Dialect, mysql, sqlite3, Upsert, Inserter, insert_fields, comma, upsert_assigns, build_upsert,
  upsert_part, column_list, row_values, rows_part, insert_rows, build_insert,
}

-- `p = p.And(ps[i])` for each further predicate.
abbrev pub fold_and : {E A : Type 0} → Binary E A → Predicates E A → Binary E A
fold_and p no_predicates = p
fold_and p (predicates q ps) = fold_and (and_ p q) ps

module _ {E A : Type 0} (registry : E → Result Error Model) (quoter : ℕ) (of_int : ℕ → A)
    (m : Model) where
  build_binary-and_ :
      (p q : Binary E A)
      → build_binary registry quoter of_int m (and_ p q)
        ≡ and_write
            (build_binary registry quoter of_int m p)
            (build_binary registry quoter of_int m q)
  unfolding build_binary build_expr and_ and_write sub_parens right_part op_part text ◌▷◌
  build_binary-and_ p q = refl

  and_all-fold_and :
      (p : Binary E A) (ps : Predicates E A)
      → and_all registry quoter of_int m (build_binary registry quoter of_int m p) ps
        ≡ build_binary registry quoter of_int m (fold_and p ps)
  unfolding build_binary
  and_all-fold_and p no_predicates = refl
  and_all-fold_and p (predicates q ps) =
      subst
        (λ w.
          and_all registry quoter of_int m w ps
          ≡ build_binary registry quoter of_int m (fold_and p (predicates q ps)))
        (build_binary-and_ p q) (and_all-fold_and (and_ p q) ps)

  -- `buildPredicates` writes the conditions as the one expression that `And` makes of them.
  pub build_predicates-fold_and :
      (p : Binary E A) (ps : Predicates E A)
      → build_predicates registry quoter of_int m (predicates p ps)
        ≡ build_expr registry quoter of_int m (predicate (fold_and p ps))
  unfolding build_binary
  build_predicates-fold_and p ps = and_all-fold_and p ps

-- The assignments of an upsert up to the first one that is no plain column.
abbrev pub before_assignment : {E A : Type 0} → List (Assignable E A) → List (Assignable E A)
before_assignment [] = []
before_assignment (assign_column c ∷ l) = assign_column c ∷ before_assignment l
before_assignment (assignment name val ∷ l) = assignment name val ∷ []
before_assignment (assign_raw r ∷ l) = assign_raw r ∷ []

module _ {A : Type 0} where
  -- How many arguments a step brings.
  record Brings (w : Write A) (n : ℕ) : Type 0 where
    brings : (o : Out A) → w ≡ ok o → length o.args ≡ n

  ok-Brings : (o : Out A) → Brings (ok o) (length o.args)
  ok-Brings o = record { brings = λ o' e. sym (ap (λ (x : Out A). length x.args) (inj e)) }
    where
      inj : {o' : Out A} → ◌≡◌ {A = Write A} (ok o) (ok o') → o ≡ o'
      inj e = cc

  infixl 6 ◌▶◌
  ◌▶◌ : {a b : Write A} {i j : ℕ} → Brings a i → Brings b j → Brings (a ▷ b) (i + j)
  unfolding ◌▷◌
  ◌▶◌ {a = ok x} {b = ok y} p q = record {
    brings = λ o e. omega (
      arith,
      (ok-Brings (record { sql = x.sql ++ y.sql; args = x.args ++ y.args })).brings o e,
      length-append x.args y.args,
      p.brings x refl,
      q.brings y refl,
    );
  }
  ◌▶◌ {a = ok x} {b = err e} p q = record { brings = λ o h. cc }
  ◌▶◌ {a = err e} {b = b} p q = record { brings = λ o h. cc }

  Brings-eq : {w : Write A} {i j : ℕ} → Brings w i → i ≡ j → Brings w j
  Brings-eq {w} p e = subst (Brings w) e p

  text-Brings : (s : Bytes) → Brings (text s) 0
  unfolding text
  text-Brings s = ok-Brings (record { sql = s; args = [] })

  silent-Brings : Brings silent 0
  unfolding silent
  silent-Brings = ok-Brings (record { sql = []; args = [] })

  quote-Brings : (quoter : ℕ) (s : Bytes) → Brings (quote quoter s) 0
  unfolding quote
  quote-Brings quoter s = ok-Brings (record { sql = quoter ∷ (s ++ (quoter ∷ [])); args = [] })

  comma-Brings : (first : Bool) → Brings (comma first) 0
  unfolding comma
  comma-Brings true = silent-Brings
  comma-Brings false = text-Brings _

  mark-Brings : (r : Result Error A) → Brings (r >>= λ v. text (bytes "?") ▷ add_args (v ∷ [])) 1
  unfolding text add_args ◌▷◌
  mark-Brings (ok v) = ok-Brings (record { sql = bytes "?"; args = v ∷ [] })
  mark-Brings (err e) = record { brings = λ o h. cc }

module _ {E A Row : Type 0} (registry : E → Result Error Model) (quoter : ℕ) (of_int : ℕ → A)
    (field_of : Row → Bytes → Result Error A) where
  upsert_assigns-before_assignment :
      (d : Dialect) (m : Model) (first : Bool) (l : List (Assignable E A))
      → upsert_assigns registry quoter of_int field_of d m first l
        ≡ upsert_assigns registry quoter of_int field_of d m first (before_assignment l)
  unfolding upsert_assigns
  upsert_assigns-before_assignment d m first [] = refl
  upsert_assigns-before_assignment d m first (assign_column (column of name alias) ∷ l) =
      rw (upsert_assigns-before_assignment d m false l) refl
  upsert_assigns-before_assignment d m first (assignment name val ∷ l) = refl
  upsert_assigns-before_assignment d m first (assign_raw r ∷ l) = refl

  -- In both dialects the assignments of an upsert behind the first value assignment are lost: the
  -- text and the arguments are those of the query without them.
  pub build_upsert-before_assignment :
      (d : Dialect) (m : Model) (odk : Upsert E A)
      → build_upsert registry quoter of_int field_of d m odk
        ≡ build_upsert registry quoter of_int field_of d m
            (record odk { assigns = before_assignment odk.assigns })
  unfolding build_upsert
  build_upsert-before_assignment mysql m odk =
      rw (upsert_assigns-before_assignment mysql m true odk.assigns) refl
  build_upsert-before_assignment sqlite3 m odk =
      rw (upsert_assigns-before_assignment sqlite3 m true odk.assigns) refl

  column_list-Brings :
      (first : Bool) (fs : List Field)
      → Brings (column_list registry quoter of_int field_of first fs) 0
  unfolding column_list
  column_list-Brings first [] = silent-Brings
  column_list-Brings first (f ∷ fs) =
      comma-Brings first ▶ quote-Brings quoter f.col_name ▶ column_list-Brings false fs

  row_values-Brings :
      (row : Row) (first : Bool) (fs : List Field)
      → Brings (row_values registry quoter of_int field_of row first fs) (length fs)
  unfolding row_values
  row_values-Brings row first [] = silent-Brings
  row_values-Brings row first (f ∷ fs) =
      Brings-eq
        (comma-Brings first ▶ mark-Brings (field_of row f.go_name) ▶ row_values-Brings row false fs)
        (omega arith)

  rows_part-Brings :
      (fs : List Field) (first : Bool) (rows : List Row)
      → Brings (rows_part registry quoter of_int field_of fs first rows) (length rows * length fs)
  unfolding rows_part
  rows_part-Brings fs first [] = Brings-eq silent-Brings (omega arith)
  rows_part-Brings fs first (row ∷ rows) =
      Brings-eq
        (comma-Brings first
          ▶ text-Brings _
          ▶ row_values-Brings row true fs
          ▶ text-Brings _
          ▶ rows_part-Brings fs false rows)
        (omega arith)

  insert_rows_args :
      (d : Dialect) (i : Inserter E A Row) (rows : List Row) (m : Model) (fs : List Field)
      → registry i.entity ≡ ok m
      → insert_fields m i.columns ≡ ok fs
      → i.upsert ≡ none
      → 1 ≤ length rows
      → Brings (insert_rows registry quoter of_int field_of d i rows) (length rows * length fs)
  unfolding insert_rows upsert_part
  insert_rows_args d i [] m fs h k u pos = absurd (omega arith)
  insert_rows_args d i (row ∷ rows) m fs h k u pos = rw h (
      rw k (
        rw u (
          Brings-eq
            (text-Brings _
              ▶ quote-Brings quoter _
              ▶ text-Brings _
              ▶ column_list-Brings true fs
              ▶ text-Brings _
              ▶ rows_part-Brings fs true (row ∷ rows)
              ▶ silent-Brings
              ▶ text-Brings _)
            (omega arith))))

-- An INSERT with no upsert part brings an argument for each row and each column: its own columns
-- if it names any, and the model's otherwise.
pub build_insert-args :
    {E A Row : Type 0} (registry : E → Result Error Model) (quoter : ℕ) (of_int : ℕ → A)
    (field_of : Row → Bytes → Result Error A) (d : Dialect) (i : Inserter E A Row) (m : Model)
    (fs : List Field) (q : Out A)
    → registry i.entity ≡ ok m
    → insert_fields m i.columns ≡ ok fs
    → i.upsert ≡ none
    → 1 ≤ length i.values
    → build_insert registry quoter of_int field_of d i ≡ ok q
    → length q.args ≡ length i.values * length fs
unfolding build_insert
build_insert-args registry quoter of_int field_of d i m fs q h k u pos e =
    (insert_rows_args registry quoter of_int field_of d i i.values m fs h k u pos).brings q e
