-- ===== src/Api/Resolution.antt =====
-- BeginTransaction, CommitTransaction and AbortTransaction, example/BDBImpl.cc.
use sigmod2012contest.Base.{ℕ, ◌+◌, ◌≡◌, refl, true, false, ◌==◌, none, some, List, [], ◌∷◌, arith}
use sigmod2012contest.Interface.{ok}
use sigmod2012contest.Bdb.{Bdb, Exception, returns, throws, faults, ◌>>=◌}
use sigmod2012contest.Objects.{World, Transaction, update}
use sigmod2012contest.Transactions.{abort, commit, delete_transaction, new_transaction}
use sigmod2012contest.Transactions.Lifecycle.{AreAlive, Ended, close_transaction_lem}
use sigmod2012contest.Api.{
  begin_transaction, commit_transaction, abort_transaction, memory_or_failure,
}

module _ {b : Bdb} where
  delete_finished :
      (t : ℕ) (tx : Transaction) (w : World b)
      → w.transactions t ≡ some tx
      → tx.finished ≡ true
      → delete_transaction t w
        ≡ (returns tt, record w { transactions = update w.transactions t none })
  unfolding delete_transaction
  delete_finished t tx w h f = rw (h, ◌>>=◌, f) refl

  AreAlive-env :
      (ss : List ℕ) (e : b.Env) (w : World b) → AreAlive ss w → AreAlive ss (record w { env = e })
  AreAlive-env [] e w h = tt
  AreAlive-env (s ∷ ss) e w h = (h.0, AreAlive-env ss e w h.1)

  -- CommitTransaction and AbortTransaction of a transaction that has begun, whose schemas are all
  -- allocated, where Berkeley DB commits or aborts: both return kOk and set the handle to NULL. The
  -- transaction is deleted, and of the registered writers only it is gone, from the indices it used.
  pub transaction_resolved :
      (t : ℕ) (tx : Transaction) (e e' : b.Env) (w : World b)
      → w.transactions t ≡ some tx
      → (tx.tid == 0) ≡ false
      → AreAlive tx.indices w
      → b.txn_commit tx.tid w.env ≡ (returns tt, e)
      → b.txn_abort tx.tid w.env ≡ (returns tt, e')
      → (w' : World b) × (w'' : World b) × (commit_transaction (some t) w
          ≡ (returns (ok, none), w'))
        × (abort_transaction (some t) w ≡ (returns (ok, none), w''))
        × (w'.transactions t ≡ none)
        × (w''.transactions t ≡ none)
        × Ended tx.indices tx.tid w w'
        × Ended tx.indices tx.tid w w''
  unfolding commit_transaction abort_transaction commit abort
  transaction_resolved t tx e e' w h begun alive commits aborts =
      let (w1, run, gone, done) =
        close_transaction_lem t tx (record w { env = e }) h (AreAlive-env tx.indices e w alive) in
      let (w2, run', gone', done') =
        close_transaction_lem t tx (record w { env = e' }) h (AreAlive-env tx.indices e' w alive) in
      (
        record w1 { transactions = update w1.transactions t none },
        record w2 { transactions = update w2.transactions t none },
        rw
            (
              h,
              ◌>>=◌,
              begun,
              commits,
              run,
              delete_finished t (record tx { finished = true }) w1 done refl,
            )
            refl,
        rw
            (
              h,
              ◌>>=◌,
              begun,
              aborts,
              run',
              delete_finished t (record tx { finished = true }) w2 done' refl,
            )
            refl,
        ground arith,
        ground arith,
        gone,
        gone',
      )

  -- BeginTransaction where Berkeley DB cannot begin: an error is reported, but the handle is set to a
  -- transaction that has not begun, and both ways to resolve it go through a NULL pointer.
  pub failed_begin :
      (x : Exception) (e : b.Env) (w : World b)
      → b.txn_begin 0 w.env ≡ (throws x, e)
      → (w' : World b) × (begin_transaction true w
          ≡ (returns (memory_or_failure x, some w.next), w'))
        × (commit_transaction (some w.next) w' ≡ (faults, w'))
        × (abort_transaction (some w.next) w' ≡ (faults, w'))
  unfolding begin_transaction commit_transaction abort_transaction commit abort
  failed_begin x e w fails =
      let w' : World b = record w {
        env = e;
        next = w.next + 1;
        transactions = update w.transactions w.next (some new_transaction);
      } in
      let there : w'.transactions w.next ≡ some new_transaction = ground arith in
      (w', rw (◌>>=◌, fails) refl, rw (there, ◌>>=◌) refl, rw (there, ◌>>=◌) refl)
