-- ===== src/Orm/Session/Tests.antt =====
-- A database of one number, a transaction that adds to it, and middlewares that only watch.
use go_study.Prelude.{true, ℕ, suc, ◌≡◌, refl, Option, none, some, List, [], ◌∷◌, ok, err, bytes}
use go_study.Orm.Output.{Out}
use go_study.Orm.Session.{
  Driver, Ending, returned, panicked, result, business, panic, do_tx, rollback_if_not_commit,
  QueryResult, Handler, Reader, exec, get, raw_query, last_insert_id, rows_affected,
}
use go_study.Orm.Session.Atomic.{IsTransactional, DoesWork, TxStep, do_tx-TxStep}

-- What is committed, and what the transaction has.
abbrev Store : Type 0
Store = ℕ × ℕ

abbrev driver : Driver Store ℕ (Unit {0})
driver = record {
  begin = λ s. ((s.0, s.0), ok tt);
  commit = λ tx s. ((s.1, s.1), none);
  rollback = λ tx s. ((s.0, s.0), none);
  is_tx_done = λ x. true;
}

abbrev shown : Store → ℕ
shown s = s.0

abbrev open_number : Unit {0} → Store → ℕ
open_number tx s = s.1

driver-IsTransactional : IsTransactional driver shown open_number
driver-IsTransactional = record {
  begin_view = λ s. refl;
  begin_pending = λ s s' tx e. cc;
  rollback_view = λ tx s. refl;
  commit_failed = λ tx s s' x e. cc;
  commit_done = λ tx s s' e. cc;
}

abbrev adds : Option ℕ → Unit {0} → Store → Ending Store ℕ
adds e tx s = returned (s.0, suc s.1) e

abbrev adding : Option ℕ → ℕ → Ending ℕ ℕ
adding e n = returned (suc n) e

adds-DoesWork : (e : Option ℕ) → DoesWork shown open_number (adds e) (adding e)
adds-DoesWork e = record { simulates = λ tx s. refl; hidden = λ tx s. refl }

do_tx-TxStep_example : TxStep {X = ℕ} (adding none) 5 (result none) 6
unfolding do_tx
do_tx-TxStep_example =
    do_tx-TxStep driver shown open_number driver-IsTransactional (adding none) (adds none)
      (adds-DoesWork none) (5, 0)

failed_adding : do_tx driver (adds (some 3)) (5, 0) ≡ ((5, 5), result (some (business 3)))
unfolding do_tx
failed_adding = refl

abbrev dying : Unit {0} → Store → Ending Store ℕ
dying tx s = panicked (s.0, 9)

panicked_adding : do_tx driver dying (5, 0) ≡ ((5, 5), panic)
unfolding do_tx
panicked_adding = refl

rolled_back_twice :
    rollback_if_not_commit (record driver { rollback = λ tx s. (s, some 7) }) tt (5, 0)
    ≡ ((5, 0), none)
unfolding rollback_if_not_commit
rolled_back_twice = refl

-- A database that counts its statements.
abbrev counting : Out ℕ → ℕ → ℕ × (Option ℕ × Option ℕ)
counting q n = (suc n, (some n, none))

abbrev rows : Reader ℕ ℕ ℕ ℕ (List ℕ)
rows = record {
  query_context = λ q n. (suc n, ok (n ∷ []));
  next_row = λ rs. some rs;
  no_rows = 1;
  model = ok tt;
  set_columns = λ rs. (4, none);
}

-- The first answers with ten more, the second with nothing.
abbrev more : Handler ℕ ℕ ℕ ℕ → Handler ℕ ℕ ℕ ℕ
more next qc s = let (s', r) = next qc s in (s', record r { error = some 10 })

abbrev forgets : Handler ℕ ℕ ℕ ℕ → Handler ℕ ℕ ℕ ℕ
forgets next qc s = let (s', r) = next qc s in (s', record { value = none; error = none })

abbrev two_mdls : List (Handler ℕ ℕ ℕ ℕ → Handler ℕ ℕ ℕ ℕ)
two_mdls = more ∷ forgets ∷ []

inserted :
    exec two_mdls counting (raw_query (bytes "DELETE") []) 3
    ≡ (4, record { value = none; error = some 10 })
unfolding exec raw_query
inserted = refl

selected :
    get rows [] (raw_query (bytes "SELECT") []) 3 ≡ (4, record { value = some 4; error = none })
unfolding get raw_query
selected = refl

abbrev lost : QueryResult ℕ ℕ
lost = record { value = none; error = none }

no_result : last_insert_id (λ n. ok n) lost ≡ none
unfolding last_insert_id
no_result = refl

no_rows_affected : rows_affected (λ n. ok n) (record lost { error = some 2 }) ≡ some (err 2)
unfolding rows_affected
no_rows_affected = refl
