-- ===== src/Tests/Interface.antt =====
-- The functions of the interface on the process of the file Objects.
use sigmod2012contest.Base.{arith, List, ◌≡◌, refl, true, false, none, some, [], ◌∷◌}
use sigmod2012contest.Containers.Text.{text_eq}
use sigmod2012contest.Containers.Map
use sigmod2012contest.Interface.{
  error_generic_failure, ok, error_deadlock, error_out_of_memory, error_open_transactions, Record,
  Block,
}
use sigmod2012contest.Bdb.{Bdb, throws, deadlock, Entry, returns, faults, Exception}
use sigmod2012contest.Schema.{schema_compatible, types_match}
use sigmod2012contest.Objects.{World, Index}
use sigmod2012contest.Transactions.Lifecycle.{Ended}
use sigmod2012contest.Indexes.Writes.{Begins}
use sigmod2012contest.Api.{
  begin_transaction, commit_transaction, abort_transaction, update_record, delete_record, get_next,
  delete_index, open_index,
}
use sigmod2012contest.Api.Deadlocks.{Deadlocks, deadlock_leaves_writer}
use sigmod2012contest.Api.Dangling.{delete_index_dangling}
use sigmod2012contest.Api.Delivery.{Delivers, get_next-Delivers}
use sigmod2012contest.Api.Resolution.{transaction_resolved, failed_begin}
use sigmod2012contest.Tests.Shelf.{shelf, number, working, working-ReadsInOrder, jammed, broken}
use sigmod2012contest.Tests.Iterators.{fresh_iterator, fresh-IsReady}
use sigmod2012contest.Tests.Objects.{
  name, only, schema_with, handle, transaction, world, written, unwritten, whole_key,
}

abbrev pub a_record : Record
a_record = record { key = whole_key; payload = record { bytes = number 1 } }

abbrev pub a_block : Block
a_block = record { bytes = number 9 }

transaction_resolved_example :
    (w' : World working) × (w'' : World working) × (commit_transaction (some 40) written
      ≡ (returns (ok, none), w'))
    × (abort_transaction (some 40) written ≡ (returns (ok, none), w''))
    × (w'.transactions 40 ≡ none)
    × (w''.transactions 40 ≡ none)
    × Ended (10 ∷ []) 7 written w'
    × Ended (10 ∷ []) 7 written w''
transaction_resolved_example =
    transaction_resolved 40 transaction [] [] written refl refl
      ((schema_with false (20 ∷ []) (7 ∷ []), refl), tt) refl refl

abbrev stuck : World broken
stuck = world broken [] (schema_with false (20 ∷ []) (7 ∷ [])) handle

failed_begin_example :
    (w' : World broken) × (begin_transaction true stuck
      ≡ (returns (error_out_of_memory, some 50), w'))
    × (commit_transaction (some 50) w' ≡ (faults, w'))
    × (abort_transaction (some 50) w' ≡ (faults, w'))
failed_begin_example = failed_begin Exception.memory [] stuck refl

abbrev clashing : World jammed
clashing = world jammed [] (schema_with false (20 ∷ []) []) handle

clashing-Begins : Begins clashing 20 10 6 7 3 handle (schema_with false (20 ∷ []) []) []
clashing-Begins = record {
  handle = refl;
  schema = refl;
  database = refl;
  alive = refl;
  writable = refl;
  begun = ([], refl, refl);
}

clashing-Deadlocks : Deadlocks jammed 3 [] []
clashing-Deadlocks p x = refl

deadlock_leaves_writer_example :
    (w' : World jammed) × (update_record 9 none (some 20) (some a_record) (some a_block) 3 clashing
      ≡ (returns error_deadlock, w'))
    × (delete_record 9 none (some 20) (some a_record) 3 clashing ≡ (returns error_deadlock, w'))
    × (w'' : World jammed) × (delete_index (some name) w' ≡ (returns error_open_transactions, w''))
unfolding Map.find text_eq schema_compatible types_match
deadlock_leaves_writer_example =
    deadlock_leaves_writer 9 20 10 6 7 3 97 [] handle (schema_with false (20 ∷ []) []) [] []
      clashing a_record a_block 3 clashing-Begins refl refl refl clashing-Deadlocks

abbrev browsed : World working
browsed = record unwritten { iterators = only 30 fresh_iterator }

get_next-Delivers_example :
    Delivers
      (λ (e : List Entry). e)
      30
      (schema_with false (20 ∷ []) [])
      fresh_iterator
      shelf
      none
      (get_next 5 (some 30) true none browsed)
unfolding working-ReadsInOrder
get_next-Delivers_example =
    get_next-Delivers working (schema_with false (20 ∷ []) []) 3 working-ReadsInOrder 5 30 20 10
      fresh_iterator handle browsed none refl refl refl refl refl refl refl fresh-IsReady
      (omega arith)

-- A Berkeley DB that cannot close a database, and a handle without iterators.
abbrev unclosable : Bdb
unclosable = record working { db_close = λ db e. (throws deadlock, e) }

abbrev idle : Index
idle = record handle { iterators = [] }

abbrev held_open : World unclosable
held_open = world unclosable [] (schema_with false (20 ∷ []) []) idle

delete_index_dangling_example :
    (w' : World unclosable) × (delete_index (some name) held_open
      ≡ (returns error_generic_failure, w'))
    × (w'.schemas 10 ≡ none)
    × (Map.find name w'.indices ≡ some 10)
    × ((open_index (some name) none w').0 ≡ faults)
unfolding Map.find text_eq
delete_index_dangling_example =
    delete_index_dangling 97 10 20 6 [] [] (schema_with false (20 ∷ []) []) idle deadlock []
      held_open refl refl refl refl refl refl refl refl refl
