-- ===== src/Tests/Objects.antt =====
-- A process with one index "a", whose schema lies at 10, a handle at 20 with the iterators at 30 and
-- 31, and a transaction at 40 that has written to the index.
use sigmod2012contest.Base.{
  ℕ, ◌≡◌, refl, Bool, true, false, ◌==◌, if◌then◌else◌, Option, none, some, List, [], ◌∷◌, arith,
}
use sigmod2012contest.Containers.Text.{Text, text_eq}
use sigmod2012contest.Containers.AddressSet.{mem}
use sigmod2012contest.Containers.Map
use sigmod2012contest.Interface.{ok, error_open_transactions, Key, AttributeType}
use sigmod2012contest.Bdb.{Bdb, returns, faults}
use sigmod2012contest.Schema.{IndexSchema, unregister_handle}
use sigmod2012contest.Objects.{World, Transaction, Index, Iterator, update}
use sigmod2012contest.Iterators.{new_iterator}
use sigmod2012contest.Transactions.{use_index}
use sigmod2012contest.Transactions.Lifecycle.{writes_at, use_index_read_only}
use sigmod2012contest.Closing.{close_iterators, close_index, remove_index}
use sigmod2012contest.Closing.Deletion.{remove_index_refused}
use sigmod2012contest.Closing.Removal.{remove_index_lem, remove_index_open_handle}
use sigmod2012contest.Closing.Iterators.{ClosesCursors, AllOpen, AreClosed, close_iterators_lem}
use sigmod2012contest.Closing.Handles.{ClosesDatabases, close_index_lem}
use sigmod2012contest.Tests.Shelf.{columns, number, working}

abbrev pub name : Text
name = 97 ∷ []

abbrev pub schema_with : Bool → List ℕ → List ℕ → IndexSchema
schema_with read_only handles writers = record {
  attribute_count = 2;
  type = columns;
  size = 8;
  read_only = read_only;
  handles = handles;
  transactions = writers;
}

abbrev pub handle : Index
handle = record {
  name = name;
  db = some 6;
  schema = some 10;
  closed = false;
  iterators = 30 ∷ 31 ∷ [];
}

abbrev pub open_iterator : Iterator
open_iterator = record new_iterator {
  index = some 20;
  is = some 10;
  cursor = some 3;
  closed = false;
}

abbrev pub transaction : Transaction
transaction = record { indices = 10 ∷ []; tid = 7; finished = false }

abbrev pub only {ℓ} : {A : Type ℓ} → ℕ → A → ℕ → Option A
only p a q = if q == p then some a else none

abbrev pub world : (b : Bdb) → b.Env → IndexSchema → Index → World b
world b e is ix = record {
  env = e;
  fresh = 1;
  free_takes_new = true;
  next = 50;
  indices = (name, 10) ∷ [];
  schemas = only 10 is;
  transactions = only 40 transaction;
  handles = only 20 ix;
  iterators = λ q. if q == 30 then some open_iterator else only 31 open_iterator q;
}

abbrev pub written : World working
written = world working [] (schema_with false (20 ∷ []) (7 ∷ [])) handle

abbrev pub unwritten : World working
unwritten = world working [] (schema_with false (20 ∷ []) []) handle

abbrev unopened : World working
unopened = world working [] (schema_with false [] []) handle

abbrev shut : World working
shut = world working [] (schema_with true (20 ∷ []) []) handle

abbrev unused : World working
unused = record unwritten { transactions = only 40 (record transaction { indices = [] }) }

remove_index_refused_example :
    (w' : World working) × (remove_index name written ≡ (returns error_open_transactions, w'))
    × (w'.indices ≡ written.indices)
    × (w'.handles ≡ written.handles)
    × (w'.transactions ≡ written.transactions)
    × ((q : ℕ) → w'.schemas q ≡ written.schemas q)
unfolding Map.find mem text_eq
remove_index_refused_example =
    remove_index_refused name 10 7 (schema_with false (20 ∷ []) (7 ∷ [])) written refl refl refl

remove_index_lem_example :
    (w' : World working) × (remove_index name unopened ≡ (returns ok, w'))
    × ((other : Text)
        → Map.find other w'.indices
          ≡ (if text_eq name other then none else Map.find other unopened.indices))
    × (w'.schemas 10 ≡ none)
    × ((q : ℕ) → (q == 10) ≡ false → w'.schemas q ≡ unopened.schemas q)
    × (w'.handles ≡ unopened.handles)
unfolding Map.find text_eq
remove_index_lem_example =
    remove_index_lem name 10 (schema_with false [] []) unopened refl refl refl refl

closes_cursors : ClosesCursors working
closes_cursors c e = (e, refl)

closes_databases : ClosesDatabases working
closes_databases db e = (e, refl)

both_open : AllOpen working closes_cursors unwritten 20 handle
unfolding mem
both_open p h = (open_iterator, ground arith, refl, refl)

remove_index_open_handle_example :
    (w' : World working) × (remove_index name unwritten ≡ (faults, w'))
unfolding Map.find text_eq
remove_index_open_handle_example =
    remove_index_open_handle working closes_cursors closes_databases name 10 20 6 []
      (schema_with false (20 ∷ []) []) handle unwritten refl refl refl refl refl refl refl refl
      both_open

close_iterators_lem_example :
    (w' : World working) × (close_iterators 3 20 unwritten ≡ (returns tt, w'))
    × (w'.handles 20 ≡ some (record handle { iterators = [] }))
    × AreClosed working closes_cursors (30 ∷ 31 ∷ []) w'
    × ((q : ℕ) → mem q (30 ∷ 31 ∷ []) ≡ false → w'.iterators q ≡ unwritten.iterators q)
    × (w'.schemas ≡ unwritten.schemas)
close_iterators_lem_example =
    close_iterators_lem working closes_cursors 3 20 (30 ∷ 31 ∷ []) handle unwritten refl refl
      both_open (omega arith)

close_index_lem_example :
    (w' : World working) × (close_index 20 unwritten ≡ (returns tt, w'))
    × (w'.handles 20 ≡ some (record handle { closed = true; iterators = []; db = none }))
    × (w'.schemas
        ≡ update unwritten.schemas 10
            (some (unregister_handle 20 (schema_with false (20 ∷ []) []))))
    × AreClosed working closes_cursors handle.iterators w'
close_index_lem_example =
    close_index_lem working closes_cursors closes_databases 20 10 6 handle
      (schema_with false (20 ∷ []) []) unwritten refl refl refl refl refl both_open

use_index_read_only_example :
    (w' : World working) × (use_index 40 10 (record shut { transactions = unused.transactions })
      ≡ (returns false, w'))
    × (use_index 40 10 w' ≡ (returns true, w'))
    × (writes_at 7 w' 10 ≡ writes_at 7 (record shut { transactions = unused.transactions }) 10)
unfolding mem
use_index_read_only_example =
    use_index_read_only 40 10 (record transaction { indices = [] }) (schema_with true (20 ∷ []) [])
      (record shut { transactions = unused.transactions }) refl refl refl refl

abbrev unwritten_schema : IndexSchema
unwritten_schema = schema_with false (20 ∷ []) []

abbrev pub whole_key : Key
whole_key = record {
  value =
      some (record { type = AttributeType.short; bytes = number 2 })
      ∷ some (record { type = AttributeType.short; bytes = number 3 })
      ∷ [];
  attribute_count = 2;
}
