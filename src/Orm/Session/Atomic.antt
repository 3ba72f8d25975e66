-- ===== src/Orm/Session/Atomic.antt =====
-- orm/homework3/db.go: `DoTx` as an atomic step on what the database shows.
use go_study.Prelude.{false, Option, none, some, Result, ok, err, ◌≡◌, refl, sym, ap, ◌∙◌, subst}
use go_study.Orm.Session.{
  Driver, database, business, fail_to_rollback, Ending, returned, panicked, TxResult, result, panic,
  rolled_back, committed, finish, run_in, do_tx,
}

-- What a database does for one transaction at a time: `view` is what is committed, `pending` is
-- what the transaction sees, and would commit.
pub record IsTransactional {S X Tx V : Type 0} (d : Driver S X Tx) (view : S → V)
    (pending : Tx → S → V) : Type 0 where
  pub begin_view : (s : S) → view (d.begin s).0 ≡ view s
  pub begin_pending : (s s' : S) (tx : Tx) → d.begin s ≡ (s', ok tx) → pending tx s' ≡ view s
  pub rollback_view : (tx : Tx) (s : S) → view (d.rollback tx s).0 ≡ view s
  pub commit_failed : (tx : Tx) (s s' : S) (x : X) → d.commit tx s ≡ (s', some x) → view s' ≡ view s
  pub commit_done : (tx : Tx) (s s' : S) → d.commit tx s ≡ (s', none) → view s' ≡ pending tx s

abbrev pub state_of : {S F : Type 0} → Ending S F → S
state_of (returned s e) = s
state_of (panicked s) = s

module _ {S V F : Type 0} where
  abbrev pub ending_map : (S → V) → Ending S F → Ending V F
  ending_map f (returned s e) = returned (f s) e
  ending_map f (panicked s) = panicked (f s)

-- A function in a transaction does to the pending view what `work` says, and nothing to the
-- committed one.
pub record DoesWork {S Tx V F : Type 0} (view : S → V) (pending : Tx → S → V)
    (fn : Tx → S → Ending S F) (work : V → Ending V F) : Type 0 where
  pub simulates : (tx : Tx) (s : S) → ending_map (pending tx) (fn tx s) ≡ work (pending tx s)
  pub hidden : (tx : Tx) (s : S) → view (state_of (fn tx s)) ≡ view s

-- The transaction as one step on a committed view: all of the work, or none of it.
pub data TxStep {V X F : Type 0} (work : V → Ending V F) (v : V) : TxResult X F → V → Type 0 where
  commits : (v' : V) → work v ≡ returned v' none → TxStep work v (result none) v'
  refuses : (x : X) → TxStep work v (result (some (database x))) v
  fails :
      (v' : V) (e : F)
      → work v ≡ returned v' (some e)
      → TxStep work v (result (some (business e))) v
  keeps_open :
      (v' : V) (e : F) (x : X)
      → work v ≡ returned v' (some e)
      → TxStep work v (result (some (fail_to_rollback (some e) x false))) v
  dies : (v' : V) → work v ≡ panicked v' → TxStep work v panic v

module _ {S X Tx V F : Type 0} (d : Driver S X Tx) (view : S → V) (pending : Tx → S → V)
    (laws : IsTransactional d view pending) (work : V → Ending V F) where
  -- One outcome, and the view that it leaves.
  Leaves : V → S × TxResult X F → Type 0
  Leaves v p = TxStep work v p.1 (view p.0)

  step-Leaves :
      (v : V) (s : S) (r : TxResult X F) → view s ≡ v → TxStep work v r v → Leaves v (s, r)
  unfolding Leaves
  step-Leaves v s r same step = subst (λ v'. TxStep work v r v') (sym same) step

  commit-Leaves :
      (tx : Tx) (s : S) (v : V) (p : S × Option X)
      → d.commit tx s ≡ p
      → work v ≡ returned (pending tx s) none
      → view s ≡ v
      → Leaves v (committed d p)
  unfolding Leaves
  commit-Leaves tx s v (s', none) e does same =
      subst (λ v'. TxStep {X = X} work v (result none) v') (sym (laws.commit_done tx s s' e))
        (commits (pending tx s) does)
  commit-Leaves tx s v (s', some x) e does same =
      step-Leaves v s' _ (laws.commit_failed tx s s' x e ∙ same) (refuses x)

  rollback-Leaves :
      (tx : Tx) (v v' : V) (f : F) (p : S × Option X)
      → work v ≡ returned v' (some f)
      → view p.0 ≡ v
      → Leaves v (rolled_back d p f)
  unfolding Leaves
  rollback-Leaves tx v v' f (s', none) does same = step-Leaves v s' _ same (fails v' f does)
  rollback-Leaves tx v v' f (s', some x) does same =
      step-Leaves v s' _ same (keeps_open v' f x does)

  finish-Leaves :
      (tx : Tx) (v : V) (r : Ending S F)
      → ending_map (pending tx) r ≡ work v
      → view (state_of r) ≡ v
      → Leaves v (finish d tx r)
  unfolding Leaves finish
  finish-Leaves tx v (returned s none) does same =
      commit-Leaves tx s v (d.commit tx s) refl (sym does) same
  finish-Leaves tx v (returned s (some e)) does same =
      rollback-Leaves tx v (pending tx s) e (d.rollback tx s) (sym does)
        (laws.rollback_view tx s ∙ same)
  finish-Leaves tx v (panicked s) does same =
      step-Leaves v (d.rollback tx s).0 panic (laws.rollback_view tx s ∙ same)
        (dies (pending tx s) (sym does))

  module _ (fn : Tx → S → Ending S F) (does_work : DoesWork view pending fn work) where
    run_in-Leaves :
        (s : S) (p : S × Result X Tx)
        → d.begin s ≡ p
        → view p.0 ≡ view s
        → Leaves (view s) (run_in d p fn)
    run_in-Leaves s (s', err x) e same = step-Leaves (view s) s' _ same (refuses x)
    run_in-Leaves s (s', ok tx) e same =
        finish-Leaves tx (view s) (fn tx s')
          (does_work.simulates tx s' ∙ ap work (laws.begin_pending s s' tx e))
          (does_work.hidden tx s' ∙ same)

    -- `DoTx` is one step on the committed view: it returns nil only when the whole work is
    -- committed; with any error, of the database, of the function or of the rollback, and when the
    -- function panics, the view is what it was, and the error is the one that happened.
    pub do_tx-TxStep : (s : S) → TxStep work (view s) (do_tx d fn s).1 (view (do_tx d fn s).0)
    unfolding do_tx Leaves
    do_tx-TxStep s = run_in-Leaves s (d.begin s) refl (laws.begin_view s)
