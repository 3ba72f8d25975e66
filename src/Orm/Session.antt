-- ===== src/Orm/Session.antt =====
-- orm/homework3: core.go, db.go, transaction.go, raw_query.go, result.go and middleware.go: running
-- queries and transactions on a database.
-- database/sql is a parameter: `S` stands for all that the calls may change, `X` for its errors.
pub mod Atomic
pub mod Middlewares
mod Tests
use mathlib.Core.List.{reverse}
use go_study.Prelude.{
  ℕ, Bool, true, false, Option, none, some, List, [], ◌∷◌, Result, ok, err, Bytes, bytes, apply_all,
  if◌then◌else◌,
}
use go_study.Orm.Output.{Out}

-- `BeginTx`, `Commit` and `Rollback` of database/sql, and whether an error is sql.ErrTxDone.
pub record Driver (S X Tx : Type 0) : Type 0 where
  pub begin : S → S × Result X Tx
  pub commit : Tx → S → S × Option X
  pub rollback : Tx → S → S × Option X
  pub is_tx_done : X → Bool

-- An error of the database, of the function that is run, or of a rollback after an error or a panic.
pub data TxError (X F : Type 0) : Type 0 where
  database : X → TxError X F
  business : F → TxError X F
  fail_to_rollback : Option F → X → (panicked : Bool) → TxError X F

-- How a function that works in a transaction ends.
pub data Ending (S F : Type 0) : Type 0 where
  returned : S → Option F → Ending S F
  panicked : S → Ending S F

-- What a caller of DoTx meets: the error that it returns, or the function's panic.
pub data TxResult (X F : Type 0) : Type 0 where
  result : Option (TxError X F) → TxResult X F
  panic : TxResult X F

module _ {S X Tx F : Type 0} (d : Driver S X Tx) where
  abbrev pub rolled_back : S × Option X → F → S × TxResult X F
  rolled_back (s, none) e = (s, result (some (business e)))
  rolled_back (s, some x) e = (s, result (some (fail_to_rollback (some e) x false)))

  abbrev pub committed : S × Option X → S × TxResult X F
  committed (s, none) = (s, result none)
  committed (s, some x) = (s, result (some (database x)))

  -- The deferred function; a panic goes on behind it, whatever the rollback says.
  unfoldable pub finish : Tx → Ending S F → S × TxResult X F
  finish tx (panicked s) = ((d.rollback tx s).0, panic)
  finish tx (returned s (some e)) = rolled_back (d.rollback tx s) e
  finish tx (returned s none) = committed (d.commit tx s)

  abbrev pub run_in : S × Result X Tx → (Tx → S → Ending S F) → S × TxResult X F
  run_in (s, err x) fn = (s, result (some (database x)))
  run_in (s, ok tx) fn = finish tx (fn tx s)

  -- `DB.DoTx`
  unfoldable pub do_tx : (Tx → S → Ending S F) → S → S × TxResult X F
  unfolding finish
  do_tx fn s = run_in (d.begin s) fn

module _ {S X Tx : Type 0} (d : Driver S X Tx) where
  abbrev pub unless_done : Option X → Option X
  unless_done none = none
  unless_done (some x) = if d.is_tx_done x then none else some x

  -- `Tx.RollbackIfNotCommit`
  unfoldable pub rollback_if_not_commit : Tx → S → S × Option X
  rollback_if_not_commit tx s = let (s', e) = d.rollback tx s in (s', unless_done e)

-- core.go. A builder is what its Build answers.
pub record QueryContext (A X : Type 0) : Type 0 where
  pub typ : Bytes
  pub build : Result X (Out A)

pub record QueryResult (V X : Type 0) : Type 0 where
  pub value : Option V
  pub error : Option X

-- `HandleFunc`
abbrev pub Handler : (S A V X : Type 0) → Type 0
Handler S A V X = QueryContext A X → S → S × QueryResult V X

module _ {S V X : Type 0} where
  abbrev pub executed : S × (Option V × Option X) → S × QueryResult V X
  executed (s, (res, e)) = (s, record { value = res; error = e })

module _ {S A V X : Type 0} where
  -- The innermost handler of `exec`; `exec_context` is the session's.
  unfoldable pub exec_handler : (Out A → S → S × (Option V × Option X)) → Handler S A V X
  exec_handler exec_context qc s = elim qc.build [
    | err x ↦ (s, record { value = none; error = some x })
    | ok q ↦ executed (exec_context q s)
  ]

  -- `exec`
  unfoldable pub exec :
      List (Handler S A V X → Handler S A V X)
      → (Out A → S → S × (Option V × Option X))
      → Handler S A V X
  unfolding apply_all exec_handler
  exec ms exec_context = apply_all (reverse ms) (exec_handler exec_context)

-- What `getHandler` reads a row with.
pub record Reader (S A V X Rows : Type 0) : Type 0 where
  pub query_context : Out A → S → S × Result X Rows
  -- `rows.Next`
  pub next_row : Rows → Option Rows
  pub no_rows : X
  -- What the registry says of the entity.
  pub model : Result X (Unit {0})
  -- `SetColumns` on a new entity: the entity, and the error.
  pub set_columns : Rows → V × Option X

module _ {S A V X Rows : Type 0} (reader : Reader S A V X Rows) where
  failed : X → QueryResult V X
  failed x = record { value = none; error = some x }

  read_columns : V × Option X → QueryResult V X
  read_columns (v, e) = record { value = some v; error = e }

  read_model : Rows → Result X (Unit {0}) → QueryResult V X
  unfolding failed read_columns
  read_model rows (err x) = failed x
  read_model rows (ok _) = read_columns (reader.set_columns rows)

  read_row : Option Rows → QueryResult V X
  unfolding failed read_model
  read_row none = failed reader.no_rows
  read_row (some rows) = read_model rows reader.model

  read_rows : S × Result X Rows → S × QueryResult V X
  unfolding failed read_row
  read_rows (s, err x) = (s, failed x)
  read_rows (s, ok rows) = (s, read_row (reader.next_row rows))

  -- `getHandler`
  unfoldable pub get_handler : QueryContext A X → S → S × QueryResult V X
  unfolding failed read_rows
  get_handler qc s = elim qc.build [
    | err x ↦ (s, failed x)
    | ok q ↦ read_rows (reader.query_context q s)
  ]

  -- `get`
  unfoldable pub get : List (Handler S A V X → Handler S A V X) → Handler S A V X
  unfolding apply_all get_handler
  get ms = apply_all (reverse ms) get_handler

-- result.go: the error of the query, or what the driver says; `none` is the panic of a nil result.
abbrev pub of_driver : {V N X : Type 0} → (V → Result X N) → Option V → Option (Result X N)
of_driver ask none = none
of_driver ask (some v) = some (ask v)

unfoldable pub last_insert_id :
    {V N X : Type 0} → (V → Result X N) → QueryResult V X → Option (Result X N)
last_insert_id ask r = elim r.error [ some x ↦ some (err x) | none ↦ of_driver ask r.value ]

unfoldable pub rows_affected :
    {V N X : Type 0} → (V → Result X N) → QueryResult V X → Option (Result X N)
rows_affected ask r = elim r.error [ some x ↦ some (err x) | none ↦ of_driver ask r.value ]

-- raw_query.go
unfoldable pub raw_query : {A X : Type 0} → Bytes → List A → QueryContext A X
raw_query sql args = record { typ = bytes "RAW"; build = ok (record { sql = sql; args = args }) }
