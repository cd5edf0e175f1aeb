-- ===== src/Closing.antt =====
-- How handles are closed: Iterator::Close, Index::Close and IndexSchema::CloseHandles with their
-- destructors, and the IndexManager, whose Remove sets them off. From example/iterator.cc and
-- example/index.cc.
pub mod Deletion
pub mod Handles
pub mod Iterators
pub mod Removal
use sigmod2012contest.Base.{
  ℕ, zero, suc, ◌+◌, Bool, true, false, Option, none, some, List, [], ◌∷◌, length, if◌then◌else◌,
}
use sigmod2012contest.Containers.Text.{Text}
use sigmod2012contest.Containers.AddressSet.{mem, insert, erase}
use sigmod2012contest.Containers.Map
use sigmod2012contest.Interface.{
  ErrorCode, ok, error_unknown_index, error_open_transactions, AttributeType,
}
use sigmod2012contest.Bdb.{Bdb, M, returns, faults, out_of_fuel, ◌>>=◌, ◌>>◌, pure}
use sigmod2012contest.Schema.{new_schema, register_handle, unregister_handle, make_read_only}
use sigmod2012contest.Iterators.{close_cursor}
use sigmod2012contest.Objects.{
  World, Index, Iterator, bdb, set_schema, set_handle, set_iterator, set_indices, new_address,
  on_iterator, get_world, schema_at, handle_at, iterator_at, update, released, free_new,
}

-- `iterators_.begin()`, none at `end()`.
abbrev pub first_iterator : List ℕ → Option ℕ
first_iterator [] = none
first_iterator (p ∷ ps) = some p

module _ {b : Bdb} where
  -- Index::RegisterIterator, false if the index is closed; Index::UnregisterIterator.
  unfoldable pub register_iterator : Option ℕ → ℕ → M (World b) Bool
  register_iterator none p = handle_at none >>= λ _. pure false
  register_iterator (some i) p = do
    ix ← handle_at (some i)
    if ix.closed
        then pure false
        else (do set_handle i (some (record ix { iterators = insert p ix.iterators })); pure true)

  unfoldable pub unregister_iterator : Option ℕ → ℕ → M (World b) (Unit {0})
  unregister_iterator none p = handle_at none >>= λ _. pure tt
  unregister_iterator (some i) p = do
    ix ← handle_at (some i)
    set_handle i (some (record ix { iterators = erase p ix.iterators }))

  -- Iterator::Close. The two corners of the range are freed; that is not modelled.
  unfoldable pub close_iterator : ℕ → M (World b) (Unit {0})
  unfolding unregister_iterator close_cursor
  close_iterator p = do
    on_iterator p (close_cursor b)
    it ← iterator_at (some p)
    if it.closed then pure tt else (do
      set_iterator p (some (record it { closed = true }))
      unregister_iterator it.index p)

  -- Iterator::~Iterator. A key that the iterator has not moved from is freed, which GetBDBKey has
  -- allocated by new[].
  unfoldable pub destroy_iterator : ℕ → M (World b) (Unit {0})
  unfolding close_iterator free_new
  destroy_iterator p = do
    close_iterator p
    it ← iterator_at (some p)
    if it.key_set then free_new else pure tt

  -- `delete` of an iterator: the destructor and the release of the memory.
  unfoldable pub delete_iterator : ℕ → M (World b) (Unit {0})
  unfolding destroy_iterator released
  delete_iterator p w =
      released (λ (v : World b). record v { iterators = update v.iterators p none })
        (destroy_iterator p w)

  abbrev pub close_first : M (World b) (Unit {0}) → Option ℕ → M (World b) (Unit {0})
  close_first again none = pure tt
  close_first again (some p) = close_iterator p >> again

  -- The loop of Index::Close: the first iterator of the set is closed, which takes it out.
  unfoldable pub close_iterators : ℕ → ℕ → M (World b) (Unit {0})
  unfolding close_iterator
  close_iterators ℕ.zero i w = (out_of_fuel, w)
  close_iterators (suc fuel) i w =
      (do
        ix ← handle_at (some i)
        close_first (close_iterators fuel i) (first_iterator ix.iterators))
        w

  -- `db_->close(0); db_ = NULL;` if the handle has a database.
  unfoldable pub close_db : ℕ → Option ℕ → M (World b) (Unit {0})
  close_db i none = pure tt
  close_db i (some db) = do
    bdb (b.db_close db)
    ix ← handle_at (some i)
    set_handle i (some (record ix { db = none }))

  unfoldable pub unregister_from : Option ℕ → ℕ → M (World b) (Unit {0})
  unregister_from none i = pure tt
  unregister_from (some s) i = do
    is ← schema_at (some s)
    set_schema s (some (unregister_handle i is))

  -- Index::Close. One round more than there are iterators is enough for its loop.
  unfoldable pub close_index : ℕ → M (World b) (Unit {0})
  unfolding close_iterators close_db unregister_from unregister_handle
  close_index i = do
    ix ← handle_at (some i)
    if ix.closed then pure tt else (do
      set_handle i (some (record ix { closed = true }))
      close_iterators (length ix.iterators + 1) i
      close_db i ix.db
      unregister_from ix.schema i)

  -- `delete` of a handle: Index::~Index and the release of the memory.
  unfoldable pub delete_index_handle : ℕ → M (World b) (Unit {0})
  unfolding close_index released
  delete_index_handle i w =
      released (λ (v : World b). record v { handles = update v.handles i none }) (close_index i w)

  -- `it++`, which is undefined once the element that `it` points to has been erased from the set.
  unfoldable pub step_past : ℕ → ℕ → M (World b) (Unit {0})
  step_past s i = do
    is ← schema_at (some s)
    λ w. if mem i is.handles then (returns tt, w) else (faults, w)

  -- IndexSchema::CloseHandles of the schema at s, from a handle in its set on.
  unfoldable pub close_handles : ℕ → List ℕ → M (World b) (Unit {0})
  unfolding close_index step_past
  close_handles s [] = pure tt
  close_handles s (i ∷ is) = close_index i >> step_past s i >> close_handles s is

  abbrev pub release_schema : ℕ → World b → World b
  release_schema s w = record w { schemas = update w.schemas s none }

  -- `delete` of a schema: IndexSchema::~IndexSchema and the release of the memory.
  unfoldable pub delete_schema : ℕ → M (World b) (Unit {0})
  unfolding close_handles released
  delete_schema s = do
    is ← schema_at (some s)
    λ w. released (release_schema s) (close_handles s is.handles w)

  -- IndexManager::Find
  unfoldable pub find_index : Text → M (World b) (Option ℕ)
  find_index name = do w ← get_world; pure (Map.find name w.indices)

  -- IndexManager::Insert
  unfoldable pub insert_index : Text → ℕ → M (World b) (Unit {0})
  insert_index name schema = do w ← get_world; set_indices (Map.assign name schema w.indices)

  unfoldable pub remove_found : Text → Option ℕ → M (World b) ErrorCode
  unfolding delete_schema make_read_only
  remove_found name none = pure error_unknown_index
  remove_found name (some s) = do
    is ← schema_at (some s)
    set_schema s (some (make_read_only is).1)
    if (make_read_only is).0
        then (do delete_schema s; w ← get_world; set_indices (Map.remove name w.indices); pure ok)
        else pure error_open_transactions

  -- IndexManager::Remove
  unfoldable pub remove_index : Text → M (World b) ErrorCode
  unfolding find_index remove_found
  remove_index name = find_index name >>= remove_found name

  -- IndexSchema::Create
  unfoldable pub create_index_schema : Text → ℕ → List AttributeType → M (World b) (Unit {0})
  unfolding insert_index new_schema
  create_index_schema name column_count types = do
    bdb (b.db_create name)
    s ← new_address
    set_schema s (some (new_schema column_count types))
    insert_index name s
