-- ===== src/Api/Deadlocks.antt =====
-- A deadlock inside UpdateRecord or DeleteRecord, and what it leaves behind.
use sigmod2012contest.Base.{
  ℕ, ◌≡◌, refl, ap, ◌∙◌, Bool, true, false, Option, none, some, ◌∷◌, arith,
}
use sigmod2012contest.Containers.Text.{Text}
use sigmod2012contest.Containers.Map
use sigmod2012contest.Interface.{
  ErrorCode, error_deadlock, error_not_found, error_generic_failure, error_open_transactions,
  Record, Block, ignore_payload,
}
use sigmod2012contest.Bdb.{Bdb, M, returns, throws, deadlock, Code, Position, Entry, ◌>>=◌}
use sigmod2012contest.Schema.{
  IndexSchema, schema_compatible, schema_compatible-has_values, get_bdb_key, begin_transaction,
}
use sigmod2012contest.Objects.{World, Index, bdb}
use sigmod2012contest.Transactions.Lifecycle.{writes_at}
use sigmod2012contest.Closing.Deletion.{remove_index_refused}
use sigmod2012contest.Indexes.{change_matching, find_first}
use sigmod2012contest.Indexes
use sigmod2012contest.Indexes.Writes.{Begins, begun_world, nested_transaction_throws}
use sigmod2012contest.Api.{update_record, delete_record, delete_index, with_record}
use sigmod2012contest.Api.Arguments.{no_index_lem, compatible_lem}

-- The first read by the cursor runs into a deadlock.
abbrev pub Deadlocks : (b : Bdb) → ℕ → b.Env → b.Env → Type 0
Deadlocks b c e e' = (p : Position) (x : Entry) → b.cursor_get c p x e ≡ (throws deadlock, e')

module _ {b : Bdb} where
  find_first_deadlock :
      (c : ℕ) (is : IndexSchema) (ignore : Bool) (key payload : Text) (e e' : b.Env) (w : World b)
      → Deadlocks b c e e'
      → w.env ≡ e
      → find_first c is ignore key payload w ≡ (throws deadlock, record w { env = e' })
  unfolding find_first
  find_first_deadlock c is true key payload e e' w d h = rw (h, d, ◌>>=◌)
  find_first_deadlock c is false key payload e e' w d h = rw (h, d)

  change_matching_deadlock :
      (fuel c s flags : ℕ) (is : IndexSchema) (r : Record) (key : Text) (act : M (World b) Code)
      (late : ErrorCode) (e e' : b.Env) (w : World b)
      → Deadlocks b c e e'
      → w.env ≡ e
      → change_matching fuel c is s none r flags key act late w
        ≡ (throws deadlock, record w { env = e' })
  unfolding change_matching
  change_matching_deadlock fuel c s flags is r key act late e e' w d h =
      rw (find_first_deadlock c is (ignore_payload flags) key r.payload.bytes e e' w d h, ◌>>=◌)

  delete_index_refused :
      (c : ℕ) (cs : Text) (s tid : ℕ) (w : World b)
      → Map.find (c ∷ cs) w.indices ≡ some s
      → writes_at tid w s ≡ true
      → (w' : World b) × (delete_index (some (c ∷ cs)) w ≡ (returns error_open_transactions, w'))
  unfolding delete_index
  delete_index_refused c cs s tid w found writer = refused (w.schemas s) refl
    where
      refused :
          (o : Option IndexSchema)
          → w.schemas s ≡ o
          → (w' : World b) × (delete_index (some (c ∷ cs)) w
              ≡ (returns error_open_transactions, w'))
      refused none h = absurd (ground arith)
      refused (some is) h =
          let (w', run, _, _, _, _) =
            remove_index_refused (c ∷ cs) s tid is w found h (ground arith) in
          (w', rw (run, ◌>>=◌))

  -- A deadlock in the first read of UpdateRecord or DeleteRecord, called outside any transaction, is
  -- reported as a deadlock. The nested transaction is then neither aborted nor taken off the schema:
  -- DeleteIndex refuses the index because of open transactions, although no caller has one.
  pub deadlock_leaves_writer :
      (fuel i s db tid c letter : ℕ) (name : Text) (ix : Index) (is : IndexSchema) (e e' : b.Env)
      (w : World b) (r : Record) (payload : Block) (flags : ℕ)
      → Begins w i s db tid c ix is e
      → ix.closed ≡ false
      → schema_compatible is r.key ≡ some true
      → Map.find (letter ∷ name) w.indices ≡ some s
      → Deadlocks b c e e'
      → (w' : World b) × (update_record fuel none (some i) (some r) (some payload) flags w
          ≡ (returns error_deadlock, w'))
        × (delete_record fuel none (some i) (some r) flags w ≡ (returns error_deadlock, w'))
        × (w'' : World b) × (delete_index (some (letter ∷ name)) w'
            ≡ (returns error_open_transactions, w''))
  unfolding update_record delete_record with_record Indexes.update Indexes.delete
  deadlock_leaves_writer fuel i s db tid c letter name ix is e e' w r payload flags v o fits found
        d =
      let begun = begun_world w s tid is e in
      let is' = (begin_transaction tid is).1 in
      let key = get_bdb_key s w.fresh is r.key false in
      let w' : World b = record begun { env = e' } in
      let opened = no_index_lem i ix w v.handle ∙ ap (λ k. (returns k, w)) o in
      let suits = compatible_lem i s ix is r.key true w v.handle o v.schema v.alive fits in
      let whole = schema_compatible-has_values is r.key fits in
      let (ran, writer) =
        nested_transaction_throws w i s db tid c ix is e r.key
          (λ s is c k.
            change_matching fuel c is s none r flags k (bdb (b.cursor_put c payload.bytes))
              error_not_found)
          deadlock w' v whole
          (change_matching_deadlock fuel c s flags is' r key (bdb (b.cursor_put c payload.bytes))
            error_not_found e e' begun d refl)
          refl in
      let (ran', _) =
        nested_transaction_throws w i s db tid c ix is e r.key
          (λ s is c k.
            change_matching fuel c is s none r flags k (bdb (b.cursor_del c)) error_generic_failure)
          deadlock w' v whole
          (change_matching_deadlock fuel c s flags is' r key (bdb (b.cursor_del c))
            error_generic_failure e e' begun d refl)
          refl in
      let (w'', refused) = delete_index_refused letter name s tid w' found writer in
      (w', rw (opened, ◌>>=◌, suits, ran), rw (opened, ◌>>=◌, suits, ran'), w'', refused)
