-- ===== src/Indexes/Writes.antt =====
-- The nested transactions of Update and Delete, as they are registered with the schema.
use sigmod2012contest.Base.{ℕ, ◌≡◌, refl, true, false, not, ◌&&◌, ◌==◌, none, some, List, arith}
use sigmod2012contest.Interface.{ErrorCode, Key}
use sigmod2012contest.Bdb.{Bdb, M, returns, throws, Exception}
use sigmod2012contest.Schema.{
  IndexSchema, get_bdb_key, has_values, begin_transaction, end_transaction,
}
use sigmod2012contest.Schema.Writers.{begin_transaction_registers, writes-end_transaction}
use sigmod2012contest.Objects.{World, Index, update}
use sigmod2012contest.Transactions.Lifecycle.{writes_at}
use sigmod2012contest.Indexes.{in_nested_transaction}

module _ {b : Bdb} where
  -- An open handle on a schema that takes writers, and the calls of Berkeley DB that begin a nested
  -- transaction outside any other.
  pub record Begins (w : World b) (i s db tid c : ℕ) (ix : Index) (is : IndexSchema) (e : b.Env)
      : Type 0 where
    pub handle : w.handles i ≡ some ix
    pub schema : ix.schema ≡ some s
    pub database : ix.db ≡ some db
    pub alive : w.schemas s ≡ some is
    pub writable : is.read_only ≡ false
    pub begun :
        (e' : b.Env) × (b.txn_begin 0 w.env ≡ (returns tid, e'))
        × (b.db_cursor db tid e' ≡ (returns c, e))

  -- The state in which the search for the record begins.
  abbrev pub begun_world : World b → ℕ → ℕ → IndexSchema → b.Env → World b
  begun_world w s tid is e = record w {
    env = e;
    schemas = update w.schemas s (some (begin_transaction tid is).1);
  }

  -- Outside a transaction of the caller: if the body ends by an exception, then so does the call, and the nested transaction stays
  -- registered as a writer of the index.
  pub nested_transaction_throws :
      (w : World b) (i s db tid c : ℕ) (ix : Index) (is : IndexSchema) (e : b.Env) (k : Key)
      (body : ℕ → IndexSchema → ℕ → List ℕ → M (World b) ErrorCode) (x : Exception) (w' : World b)
      → Begins w i s db tid c ix is e
      → has_values is.type k.value ≡ true
      → body s
          (begin_transaction tid is).1
          c
          (get_bdb_key s w.fresh is k false)
          (begun_world w s tid is e)
        ≡ (throws x, w')
      → (w'.schemas s ≡ (begun_world w s tid is e).schemas s)
      → (in_nested_transaction i none k body w ≡ (throws x, w')) × (writes_at tid w' s ≡ true)
  unfolding in_nested_transaction
  nested_transaction_throws w i s db tid c ix is e k body x w' v whole run same =
      (ground arith, ground (arith, (begin_transaction_registers tid tid is).1))

  -- Outside a transaction of the caller: if the body returns, has left the schema as it was, and Berkeley
  -- DB commits, then the call returns the result of the body, and of the registrations with the index only
  -- that of the nested transaction is gone. The state of Berkeley DB is the one after the commit.
  pub nested_transaction_returns :
      (w : World b) (i s db tid c : ℕ) (ix : Index) (is : IndexSchema) (e e' : b.Env) (k : Key)
      (body : ℕ → IndexSchema → ℕ → List ℕ → M (World b) ErrorCode) (result : ErrorCode)
      (w' : World b)
      → Begins w i s db tid c ix is e
      → has_values is.type k.value ≡ true
      → body s
          (begin_transaction tid is).1
          c
          (get_bdb_key s w.fresh is k false)
          (begun_world w s tid is e)
        ≡ (returns result, w')
      → w'.schemas s ≡ (begun_world w s tid is e).schemas s
      → b.txn_commit tid w'.env ≡ (returns tt, e')
      → (w'' : World b) × (in_nested_transaction i none k body w ≡ (returns result, w''))
        × ((other : ℕ) → writes_at other w'' s ≡ (not (other == tid) && writes_at other w s))
        × (w''.handles ≡ w'.handles)
        × (w''.iterators ≡ w'.iterators)
        × (w''.env ≡ e')
  unfolding in_nested_transaction
  nested_transaction_returns w i s db tid c ix is e e' k body result w' v whole run same commits = (
    record w' {
      env = e';
      schemas = update w'.schemas s (some (end_transaction tid (begin_transaction tid is).1));
    },
    ground arith,
    (λ other. ground (
      arith,
      writes-end_transaction tid other (begin_transaction tid is).1,
      (begin_transaction_registers tid other is).1,
      v.alive,
    )),
    refl,
    refl,
    refl,
  )
