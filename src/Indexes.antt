-- ===== src/Indexes.antt =====
-- The class Index, example/index.cc: opening, and the operations on records, each inside a nested
-- transaction of Berkeley DB; and Iterator::Init, Next and value of example/iterator.cc.
pub mod Writes
use sigmod2012contest.Base.{
  ℕ, zero, suc, Bool, true, false, not, ◌&&◌, ◌||◌, Option, none, some, List, [], ◌∷◌,
  if◌then◌else◌, is_some,
}
use sigmod2012contest.Containers.Text.{Text, text_eq}
use sigmod2012contest.Interface.{
  ErrorCode, ok, error_unknown_index, error_not_found, error_generic_failure, Key, Record, Block,
  ignore_payload, match_duplicates,
}
use sigmod2012contest.Keys.{is_zero, key_cmp}
use sigmod2012contest.Bdb.{
  Bdb, M, Outcome, returns, out_of_fuel, ◌>>=◌, ◌>>◌, pure, Code, success, not_found, failure,
  Position, Entry,
}
use sigmod2012contest.Schema.{
  IndexSchema, get_bdb_key, get_key, schema_compatible, has_values, register_handle,
}
use sigmod2012contest.Objects.{
  World, Transaction, Index, Iterator, bdb, set_schema, set_handle, set_iterator, on_iterator,
  get_world, schema_at, transaction_at, handle_at, iterator_at, deref, loaded, fault, free_new,
}
use sigmod2012contest.Iterators.{Verdict, found, ended, failed, search_next}
use sigmod2012contest.Transactions.{begin_at, end_at, use_index}
use sigmod2012contest.Closing.{find_index, register_iterator, close_iterator}

-- Index::Index
abbrev pub new_index : Text → Index
new_index name = record { name = name; db = none; schema = none; closed = true; iterators = [] }

-- An `int` of Berkeley DB as a test.
abbrev pub is_success : Code → Bool
is_success success = true
is_success _ = false

abbrev pub is_not_found : Code → Bool
is_not_found not_found = true
is_not_found _ = false

-- kErrorNotFound for DB_NOTFOUND, kErrorGenericFailure for any other code.
abbrev pub error_of : Code → ErrorCode
error_of not_found = error_not_found
error_of _ = error_generic_failure

module _ {b : Bdb} where
  -- A pointer of an open handle, which the source uses without a test.
  abbrev pub required : Option ℕ → M (World b) ℕ
  required p = deref (λ _ q. some q) p

  -- `(tx ? tx->tid : NULL)`
  unfoldable pub parent_tid : Option ℕ → M (World b) ℕ
  parent_tid none = pure 0
  parent_tid (some t) = do tx ← transaction_at (some t); pure tx.tid

  unfoldable pub open_found : ℕ → Option ℕ → M (World b) ErrorCode
  unfolding register_handle
  open_found i none = pure error_unknown_index
  open_found i (some s) = do
    ix ← handle_at (some i)
    set_handle i (some (record ix { schema = some s }))
    is ← schema_at (some s)
    set_schema s (some (register_handle i is))
    db ← bdb (b.db_open ix.name)
    set_handle i (some (record ix { schema = some s; db = some db; closed = false }))
    pure ok

  -- Index::Open, after `*index = new Index(name)` at the address i. The database handle is created
  -- shut, and is set here once it has been opened.
  unfoldable pub open_index_at : ℕ → Text → M (World b) ErrorCode
  unfolding find_index open_found
  open_index_at i name = find_index name >>= open_found i

  -- Index::Compatible of a record and of a key; a handle that is closed fits nothing.
  unfoldable pub compatible : ℕ → Key → M (World b) Bool
  unfolding schema_compatible
  compatible i key = do
    ix ← handle_at (some i)
    if ix.closed
        then pure false
        else (do is ← schema_at ix.schema; loaded (schema_compatible is key))

  -- Index::GetBDBKey. It reads beyond an array of values that is shorter than the list of the columns.
  unfoldable pub bdb_key : Index → Key → Bool → M (World b) Text
  unfolding get_bdb_key has_values
  bdb_key ix key max = do
    s ← required ix.schema
    is ← schema_at (some s)
    w ← get_world
    if has_values is.type key.value then pure (get_bdb_key s w.fresh is key max) else fault

  -- Whether the transaction of the caller may write to the index, if there is one.
  unfoldable pub enlist : Option ℕ → ℕ → M (World b) Bool
  unfolding use_index
  enlist none s = pure true
  enlist (some t) s = use_index t s

  -- Index::Insert. At its end it frees the key, which GetBDBKey has allocated by new[], and the Dbt.
  unfoldable pub insert : ℕ → Option ℕ → Record → M (World b) ErrorCode
  unfolding enlist parent_tid bdb_key free_new
  insert i tx r = do
    ix ← handle_at (some i)
    s ← required ix.schema
    accepted ← enlist tx s
    if not accepted then pure error_unknown_index else (do
      key ← bdb_key ix r.key false
      db ← required ix.db
      tid ← parent_tid tx
      code ← bdb (b.db_put db tid (record { key = key; value = r.payload.bytes }))
      free_new
      pure (if is_success code then ok else error_generic_failure))

  -- The loop over the duplicates of the record that was found: each that matches is changed by `act`,
  -- up to the first code that is not 0, which is the result. The Dbts hold the entry `x`.
  unfoldable pub duplicates_loop : ℕ → ℕ → Bool → Text → M (World b) Code → Entry → M (World b) Code
  duplicates_loop ℕ.zero c ignore payload act x w = (out_of_fuel, w)
  duplicates_loop (suc fuel) c ignore payload act x w =
      (do
        (err, y) ← bdb (b.cursor_get c Position.next_dup x)
        if is_success err
            then (if ignore || text_eq y.value payload
                then (do
                  err' ← act
                  if is_success err'
                      then duplicates_loop fuel c ignore payload act y
                      else pure err')
                else duplicates_loop fuel c ignore payload act y)
            else pure err)
        w

  -- The search for the first record: by its key alone, or by key and payload.
  unfoldable pub find_first : ℕ → IndexSchema → Bool → Text → Text → M (World b) (Code × Entry)
  find_first c is true key payload = do
    (err, x) ← bdb (b.cursor_get c Position.set_range (record { key = key; value = [] }))
    pure (if is_zero (key_cmp is.type key x.key false) then err else not_found, x)
  find_first c is false key payload =
      bdb (b.cursor_get c Position.get_both (record { key = key; value = payload }))

  unfoldable pub enlist_quietly : Option ℕ → ℕ → M (World b) (Unit {0})
  unfolding enlist
  enlist_quietly tx s = enlist tx s >>= λ _. pure tt

  -- What Update and Delete do with the first record and its duplicates, between the start of the
  -- nested transaction and its commit. `act` changes the record at the cursor, and `late` is the
  -- error for a duplicate that could not be changed.
  unfoldable pub change_matching :
      ℕ
      → ℕ
      → IndexSchema
      → ℕ
      → Option ℕ
      → Record
      → ℕ
      → Text
      → M (World b) Code
      → ErrorCode
      → M (World b) ErrorCode
  unfolding find_first enlist_quietly duplicates_loop
  change_matching fuel c is s tx r flags key act late = do
    (err, x) ← find_first c is (ignore_payload flags) key r.payload.bytes
    if not (is_success err) then pure (error_of err) else (do
      err' ← act
      if not (is_success err') then pure (error_of err') else (do
        enlist_quietly tx s
        if match_duplicates flags
            then (do
              last ← duplicates_loop fuel c (ignore_payload flags) r.payload.bytes act x
              pure (if is_not_found last then ok else late))
            else pure ok))

  -- The frame of Update and Delete: a nested transaction that is registered with the schema, is
  -- aborted if the index is read-only, and is committed and taken off the schema otherwise.
  unfoldable pub in_nested_transaction :
      ℕ
      → Option ℕ
      → Key
      → (ℕ → IndexSchema → ℕ → Text → M (World b) ErrorCode)
      → M (World b) ErrorCode
  unfolding bdb_key parent_tid begin_at end_at
  in_nested_transaction i tx k body = do
    ix ← handle_at (some i)
    s ← required ix.schema
    key ← bdb_key ix k false
    parent ← parent_tid tx
    tid ← bdb (b.txn_begin parent)
    accepted ← begin_at s tid
    if not accepted then (do bdb (b.txn_abort tid); pure error_unknown_index) else (do
      db ← required ix.db
      c ← bdb (b.db_cursor db tid)
      is ← schema_at (some s)
      result ← body s is c key
      bdb (b.txn_commit tid)
      end_at s tid
      pure result)

  -- Index::Update
  unfoldable pub update : ℕ → ℕ → Option ℕ → Record → Block → ℕ → M (World b) ErrorCode
  unfolding in_nested_transaction change_matching
  update fuel i tx r payload flags = in_nested_transaction i tx r.key λ s is c key.
      change_matching fuel c is s tx r flags key (bdb (b.cursor_put c payload.bytes))
        error_not_found

  -- Index::Delete
  unfoldable pub delete : ℕ → ℕ → Option ℕ → Record → ℕ → M (World b) ErrorCode
  unfolding in_nested_transaction change_matching
  delete fuel i tx r flags = in_nested_transaction i tx r.key λ s is c key.
      change_matching fuel c is s tx r flags key (bdb (b.cursor_del c)) error_generic_failure

  -- Iterator::Init on the iterator at p. The fields are set one after another, so an exception leaves
  -- those that were set before.
  unfoldable pub init_iterator : ℕ → Option ℕ → ℕ → Key → Key → M (World b) (Unit {0})
  unfolding close_iterator bdb_key parent_tid register_iterator
  init_iterator p tx i min_keys max_keys = do
    old ← iterator_at (some p)
    (if old.closed then pure tt else close_iterator p)
    ix ← handle_at (some i)
    it ← iterator_at (some p)
    min_key ← bdb_key ix min_keys false
    max_key ← bdb_key ix max_keys true
    set_iterator p (
        some (record it {
          index = some i;
          is = ix.schema;
          min_key = min_key;
          max_key = max_key;
          closed = false;
          end = false;
          initialized = false;
        }))
    db ← required ix.db
    tid ← parent_tid tx
    c ← bdb (b.db_cursor db tid)
    it' ← iterator_at (some p)
    set_iterator p
        (some (record it' { cursor = some c; key = min_key; value = []; key_set = true }))
    registered ← register_iterator (some i) p
    pure tt

  unfoldable pub after_search : ℕ → Verdict → M (World b) Bool
  unfolding close_iterator
  after_search p failed = do close_iterator p; pure false
  after_search p found = pure true
  after_search p ended = pure true

  -- Iterator::Next. The schema is there as long as the iterator is open.
  unfoldable pub next : ℕ → ℕ → M (World b) Bool
  unfolding search_next after_search
  next fuel p = do
    it ← iterator_at (some p)
    is ← schema_at it.is
    verdict ← on_iterator p (search_next b fuel is.type)
    after_search p verdict

  -- Iterator::value, NULL at the end.
  unfoldable pub value : ℕ → M (World b) (Option Record)
  unfolding get_key
  value p = do
    it ← iterator_at (some p)
    if it.end then pure none else (do
      ix ← handle_at it.index
      is ← schema_at ix.schema
      pure (some (record { key = get_key is it.key; payload = record { bytes = it.value } })))
