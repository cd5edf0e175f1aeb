-- ===== src/Closing/Handles.antt =====
-- Index::Close, example/index.cc, on an open handle.
use sigmod2012contest.Base.{
  ℕ, ◌+◌, ◌≡◌, refl, ap, ◌∙◌, true, false, Option, none, some, [], length, arith,
}
use sigmod2012contest.Bdb.{Bdb, returns, ◌>>=◌}
use sigmod2012contest.Schema.{IndexSchema, unregister_handle}
use sigmod2012contest.Objects.{World, Index, update}
use sigmod2012contest.Closing.{close_index, close_db, unregister_from}
use sigmod2012contest.Closing.Iterators.{ClosesCursors, AllOpen, AreClosed, close_iterators_lem}

-- Berkeley DB closes databases without an error.
abbrev pub ClosesDatabases : Bdb → Type 0
ClosesDatabases b = (db : ℕ) (e : b.Env) → (e' : b.Env) × (b.db_close db e ≡ (returns tt, e'))

module _ (b : Bdb) (cursors : ClosesCursors b) (databases : ClosesDatabases b) where
  close_db_lem :
      (i db : ℕ) (ix : Index) (o : Option ℕ) (w : World b) (e : b.Env)
      → o ≡ some db
      → w.handles i ≡ some ix
      → b.db_close db w.env ≡ (returns tt, e)
      → close_db i o w ≡ (
        returns tt,
        record w { env = e; handles = update w.handles i (some (record ix { db = none })) },
      )
  unfolding close_db
  close_db_lem i db ix o w e d h closes = rw d (ground arith)

  unregister_from_lem :
      (i s : ℕ) (o : Option ℕ) (is : IndexSchema) (w : World b)
      → o ≡ some s
      → w.schemas s ≡ some is
      → unregister_from o i w
        ≡ (returns tt, record w { schemas = update w.schemas s (some (unregister_handle i is)) })
  unfolding unregister_from
  unregister_from_lem i s o is w sc alive = rw sc (ground arith)

  -- Index::Close on an open handle, whose iterators are open and its own, where Berkeley DB closes
  -- cursors and databases without an error: it returns. The handle is
  -- then closed, without iterators and without a database, its schema has forgotten it, other schemas
  -- are as before, and each of the iterators is closed and has given up its cursor.
  pub close_index_lem :
      (i s db : ℕ) (ix : Index) (is : IndexSchema) (w : World b)
      → w.handles i ≡ some ix
      → ix.closed ≡ false
      → ix.schema ≡ some s
      → ix.db ≡ some db
      → w.schemas s ≡ some is
      → AllOpen b cursors w i ix
      → (w' : World b) × (close_index i w ≡ (returns tt, w'))
        × (w'.handles i ≡ some (record ix { closed = true; iterators = []; db = none }))
        × (w'.schemas ≡ update w.schemas s (some (unregister_handle i is)))
        × AreClosed b cursors ix.iterators w'
  unfolding close_index
  close_index_lem i s db ix is w h o sc d alive open_ =
      let ix' : Index = record ix { closed = true } in
      let w0 : World b = record w { handles = update w.handles i (some ix') } in
      let (w1, run, h1, closed, same, kept) =
        close_iterators_lem b cursors (length ix.iterators + 1) i ix.iterators ix' w0 (ground arith)
          refl open_ (omega arith) in
      let (e, closes) = databases db w1.env in
      let w' : World b = record w1 {
        env = e;
        handles =
            update w1.handles i (some (record ix { closed = true; iterators = []; db = none }));
        schemas = update w1.schemas s (some (unregister_handle i is));
      } in
      (
        w',
        rw
            (
              h,
              ◌>>=◌,
              o,
              run,
              close_db_lem i db (record ix { closed = true; iterators = [] }) ix.db w1 e d h1
                  closes,
              unregister_from_lem i s ix.schema is (record w1 { env = e; handles = w'.handles }) sc
                  (ap (λ f. f s) kept ∙ alive),
            )
            refl,
        ground arith,
        ap (λ f. update f s (some (unregister_handle i is))) kept,
        closed,
      )
