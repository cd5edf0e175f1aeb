-- ===== src/Transactions.antt =====
-- The class Transaction, example/transaction.cc. A transaction registers as a writer with each index
-- schema on its first use, and is taken off all of them when it is resolved.
pub mod Lifecycle
use sigmod2012contest.Base.{ℕ, Bool, true, false, none, some, List, [], ◌∷◌, ◌==◌, if◌then◌else◌}
use sigmod2012contest.Containers.AddressSet.{mem, insert}
use sigmod2012contest.Bdb.{Bdb, M, returns, faults, ◌>>=◌, ◌>>◌, pure}
use sigmod2012contest.Schema.{begin_transaction, end_transaction}
use sigmod2012contest.Objects.{
  World, Transaction, bdb, set_schema, set_transaction, schema_at, transaction_at,
}

-- Transaction::Transaction
abbrev pub new_transaction : Transaction
new_transaction = record { indices = []; tid = 0; finished = false }

module _ {b : Bdb} where
  -- IndexSchema::BeginTransaction and EndTransaction, on the schema at an address.
  unfoldable pub begin_at : ℕ → ℕ → M (World b) Bool
  unfolding begin_transaction
  begin_at schema tid = do
    is ← schema_at (some schema)
    set_schema schema (some (begin_transaction tid is).1)
    pure (begin_transaction tid is).0

  unfoldable pub end_at : ℕ → ℕ → M (World b) (Unit {0})
  unfolding end_transaction
  end_at schema tid = do
    is ← schema_at (some schema)
    set_schema schema (some (end_transaction tid is))

  -- Transaction::Begin
  unfoldable pub begin : ℕ → M (World b) (Unit {0})
  begin t = do
    tid ← bdb (b.txn_begin 0)
    tx ← transaction_at (some t)
    set_transaction t (some (record tx { tid = tid }))

  -- Transaction::UseIndex
  unfoldable pub use_index : ℕ → ℕ → M (World b) Bool
  unfolding begin_at
  use_index t schema = do
    tx ← transaction_at (some t)
    if mem schema tx.indices then pure true else (do
      set_transaction t (some (record tx { indices = insert schema tx.indices }))
      begin_at schema tx.tid)

  -- The loop of Transaction::CloseTransaction over the schemas that were used.
  unfoldable pub end_all : List ℕ → ℕ → M (World b) (Unit {0})
  unfolding end_at
  end_all [] tid = pure tt
  end_all (s ∷ ss) tid = end_at s tid >> end_all ss tid

  -- Transaction::CloseTransaction
  unfoldable pub close_transaction : ℕ → M (World b) (Unit {0})
  unfolding end_all
  close_transaction t = do
    tx ← transaction_at (some t)
    end_all tx.indices tx.tid
    set_transaction t (some (record tx { finished = true }))

  -- The target of `tid->`: a DbTxn* that is NULL has none.
  abbrev pub begun_tid : ℕ → M (World b) ℕ
  begun_tid tid w = if tid == 0 then (faults, w) else (returns tid, w)

  -- Transaction::Abort
  unfoldable pub abort : ℕ → M (World b) (Unit {0})
  unfolding close_transaction
  abort t = do
    tx ← transaction_at (some t)
    tid ← begun_tid tx.tid
    bdb (b.txn_abort tid)
    close_transaction t

  -- Transaction::Commit
  unfoldable pub commit : ℕ → M (World b) (Unit {0})
  unfolding close_transaction
  commit t = do
    tx ← transaction_at (some t)
    tid ← begun_tid tx.tid
    bdb (b.txn_commit tid)
    close_transaction t

  -- Transaction::~Transaction and the release of the memory.
  unfoldable pub delete_transaction : ℕ → M (World b) (Unit {0})
  unfolding close_transaction
  delete_transaction t = do
    tx ← transaction_at (some t)
    (if tx.finished then pure tt else close_transaction t)
    set_transaction t none
