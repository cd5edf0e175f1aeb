-- ===== src/Api.antt =====
-- The functions of the interface, example/BDBImpl.cc: the tests of their arguments, the calls, and
-- the translation of exceptions into status codes. An argument `T **p` is the pointer `*p`, or
-- `none` for a NULL `p`; where the function assigns `*p` the new value is part of the result.
pub mod Arguments
pub mod Deadlocks
pub mod Fetching
pub mod Delivery
pub mod Resolution
pub mod Dangling
pub mod Putting
pub mod Insertion
pub mod Changing
pub mod Erasure
pub mod Replacement
use sigmod2012contest.Base.{
  ℕ, Bool, true, false, not, ◌&&◌, ◌||◌, Option, none, some, List, [], ◌∷◌, ltb, length,
  if◌then◌else◌, is_some,
}
use sigmod2012contest.Containers.Text.{Text}
use sigmod2012contest.Interface
use sigmod2012contest.Interface.{
  ErrorCode, ok, transaction_aborted, error_out_of_memory, error_deadlock, error_index_exists,
  error_unknown_index, error_iterator_closed, error_not_found, error_transaction_closed,
  error_incompatible_key, error_generic_failure, AttributeType, Key, Record, Block,
}
use sigmod2012contest.Bdb.{
  Bdb, M, Outcome, returns, throws, faults, out_of_fuel, ◌>>=◌, ◌>>◌, pure, Exception, deadlock,
  memory, exists, no_entry, invalid,
}
use sigmod2012contest.Objects.{
  World, Index, Iterator, bdb, set_transaction, set_handle, set_iterator, new_address, handle_at,
  iterator_at,
}
use sigmod2012contest.Iterators.{new_iterator}
use sigmod2012contest.Transactions.{new_transaction, begin, abort, commit, delete_transaction}
use sigmod2012contest.Closing.{
  close_iterator, delete_iterator, delete_index_handle, remove_index, create_index_schema,
}
use sigmod2012contest.Indexes.{
  new_index, open_index_at, compatible, insert, update, delete, init_iterator, next, value,
}

-- `try { … } catch (DbException &e) { … }`
abbrev pub handled : {S A : Type 0} → Outcome A × S → (Exception → M S A) → Outcome A × S
handled (throws e, s) handler = handler e s
handled (returns a, s) handler = (returns a, s)
handled (faults, s) handler = (faults, s)
handled (out_of_fuel, s) handler = (out_of_fuel, s)

abbrev pub try_catch : {S A : Type 0} → M S A → (Exception → M S A) → M S A
try_catch m handler s = handled (m s) handler

-- The codes that the handlers give for an exception.
abbrev pub memory_or_failure : Exception → ErrorCode
memory_or_failure memory = error_out_of_memory
memory_or_failure _ = error_generic_failure

abbrev pub deadlock_or_failure : Exception → ErrorCode
deadlock_or_failure deadlock = error_deadlock
deadlock_or_failure _ = error_generic_failure

abbrev pub deadlock_memory_or_failure : Exception → ErrorCode
deadlock_memory_or_failure deadlock = error_deadlock
deadlock_memory_or_failure memory = error_out_of_memory
deadlock_memory_or_failure _ = error_generic_failure

abbrev pub create_error : Exception → ErrorCode
create_error exists = error_index_exists
create_error memory = error_out_of_memory
create_error _ = error_generic_failure

abbrev pub open_error : Exception → ErrorCode
open_error no_entry = error_unknown_index
open_error memory = error_out_of_memory
open_error _ = error_generic_failure

abbrev pub remove_error : Exception → ErrorCode
remove_error no_entry = error_unknown_index
remove_error _ = error_generic_failure

-- A name that is not NULL and not empty.
abbrev pub is_name : Option Text → Bool
is_name none = false
is_name (some []) = false
is_name (some (c ∷ cs)) = true

-- What CloseIndex does with an exception: DbException with EINVAL, or any other.
abbrev pub close_failed : ℕ → Exception → ErrorCode × Option ℕ
close_failed i invalid = (error_unknown_index, none)
close_failed i _ = (error_generic_failure, some i)

module _ {b : Bdb} where
  -- BeginTransaction: the status and the new `*tx`. `valid` is whether tx is not NULL.
  unfoldable pub begin_transaction : Bool → M (World b) (ErrorCode × Option ℕ)
  unfolding begin
  begin_transaction false = pure (error_generic_failure, none)
  begin_transaction true = do
    t ← new_address
    set_transaction t (some new_transaction)
    try_catch (do begin t; pure (ok, some t)) (λ e. pure (memory_or_failure e, some t))

  -- AbortTransaction: the status and the new `*tx`.
  unfoldable pub abort_transaction : Option ℕ → M (World b) (ErrorCode × Option ℕ)
  unfolding abort delete_transaction
  abort_transaction none = pure (error_transaction_closed, none)
  abort_transaction (some t) =
      try_catch (do abort t; delete_transaction t; pure (ok, none))
        (λ e. pure (error_generic_failure, some t))

  -- CommitTransaction: the status and the new `*tx`.
  unfoldable pub commit_transaction : Option ℕ → M (World b) (ErrorCode × Option ℕ)
  unfolding commit delete_transaction
  commit_transaction none = pure (error_transaction_closed, none)
  commit_transaction (some t) =
      try_catch (do commit t; delete_transaction t; pure (ok, none))
        (λ e. pure (transaction_aborted, some t))

  create_named : Option Text → ℕ → List AttributeType → M (World b) ErrorCode
  unfolding create_index_schema
  create_named none column_count types = pure error_generic_failure
  create_named (some name) column_count types =
      try_catch (do create_index_schema name column_count types; pure ok)
        (λ e. pure (create_error e))

  -- CreateIndex. `types` is `none` for NULL.
  unfoldable pub create_index :
      Option Text → ℕ → Option (List AttributeType) → M (World b) ErrorCode
  unfolding create_named
  create_index name column_count none = pure error_generic_failure
  create_index name column_count (some types) =
      if not (is_name name) || ltb column_count 1
      then pure error_generic_failure
      else create_named name column_count types

  open_named : Option Text → M (World b) (ErrorCode × Option ℕ)
  unfolding open_index_at delete_index_handle
  open_named none = pure (error_generic_failure, none)
  open_named (some name) = do
    i ← new_address
    set_handle i (some (new_index name))
    try_catch (do err ← open_index_at i name; pure (err, some i))
        (λ e. do delete_index_handle i; pure (open_error e, none))

  -- OpenIndex: the status and the new `*idx`, which stays as it is if the name is not valid.
  unfoldable pub open_index : Option Text → Option ℕ → M (World b) (ErrorCode × Option ℕ)
  unfolding open_named
  open_index name old =
      if not (is_name name) then pure (error_generic_failure, old) else open_named name

  -- CloseIndex: the status and the new `*idx`.
  unfoldable pub close_index_handle : Option ℕ → M (World b) (ErrorCode × Option ℕ)
  unfolding delete_index_handle
  close_index_handle none = pure (error_unknown_index, none)
  close_index_handle (some i) = do
    ix ← handle_at (some i)
    try_catch (do delete_index_handle i; pure (if ix.closed then error_unknown_index else ok, none))
        (λ e. pure (close_failed i e))

  remove_named : Option Text → M (World b) ErrorCode
  unfolding remove_index
  remove_named none = pure error_generic_failure
  remove_named (some name) = do
    err ← remove_index name
    elim err [ ok ↦ (do bdb (b.db_remove name); pure ok) | failed ↦ pure failed ]

  -- DeleteIndex
  unfoldable pub delete_index : Option Text → M (World b) ErrorCode
  unfolding remove_named
  delete_index name =
      if not (is_name name)
      then pure error_generic_failure
      else try_catch (remove_named name) (λ e. pure (remove_error e))

  -- `(idx == NULL) || (idx->closed())`
  unfoldable pub no_index : Option ℕ → M (World b) Bool
  no_index none = pure true
  no_index (some i) = do ix ← handle_at (some i); pure ix.closed

  -- The tests that InsertRecord, UpdateRecord and DeleteRecord begin with: an open index, and a record
  -- that is not NULL and whose key fits.
  unfoldable pub with_record :
      Option ℕ → Option Record → (ℕ → Record → M (World b) ErrorCode) → M (World b) ErrorCode
  unfolding no_index compatible
  with_record none r body = pure error_unknown_index
  with_record (some i) none body = do
    unknown ← no_index (some i)
    pure (if unknown then error_unknown_index else error_incompatible_key)
  with_record (some i) (some r) body = do
    unknown ← no_index (some i)
    if unknown then pure error_unknown_index else (do
      fits ← compatible i r.key
      if not fits then pure error_incompatible_key else body i r)

  -- InsertRecord
  unfoldable pub insert_record : Option ℕ → Option ℕ → Option Record → M (World b) ErrorCode
  unfolding with_record insert
  insert_record tx idx r =
      with_record idx r
        λ i r'. try_catch (insert i tx r') (λ e. pure (deadlock_memory_or_failure e))

  -- UpdateRecord
  unfoldable pub update_record :
      ℕ → Option ℕ → Option ℕ → Option Record → Option Block → ℕ → M (World b) ErrorCode
  unfolding with_record update
  update_record fuel tx idx r payload flags = with_record idx r λ i r'. elim payload [
    | none ↦ pure error_generic_failure
    | some p ↦ try_catch (update fuel i tx r' p flags) (λ e. pure (deadlock_memory_or_failure e))
  ]

  -- DeleteRecord
  unfoldable pub delete_record : ℕ → Option ℕ → Option ℕ → Option Record → ℕ → M (World b) ErrorCode
  unfolding with_record delete
  delete_record fuel tx idx r flags =
      with_record idx r
        λ i r'. try_catch (delete fuel i tx r' flags) (λ e. pure (deadlock_or_failure e))

  unfoldable pub get_records_of : Option ℕ → ℕ → Key → Key → M (World b) (ErrorCode × Option ℕ)
  unfolding init_iterator delete_iterator
  get_records_of tx i min_keys max_keys = do
    p ← new_address
    set_iterator p (some new_iterator)
    try_catch (do init_iterator p tx i min_keys max_keys; pure (ok, some p))
        (λ e. do delete_iterator p; pure (deadlock_or_failure e, some p))

  get_records_open :
      Option ℕ → Option ℕ → Key → Key → Bool → Option ℕ → M (World b) (ErrorCode × Option ℕ)
  unfolding compatible get_records_of
  get_records_open tx none min_keys max_keys valid old = pure (error_unknown_index, old)
  get_records_open tx (some i) min_keys max_keys valid old =
      if not valid then pure (error_generic_failure, old) else (do
        fits_min ← compatible i min_keys
        fits_max ← (if fits_min then compatible i max_keys else pure false)
        if not fits_max
            then pure (error_incompatible_key, old)
            else get_records_of tx i min_keys max_keys)

  -- GetRecords: the status and the new `*it`, which was `old`. `valid` is whether it is not NULL.
  unfoldable pub get_records :
      Option ℕ → Option ℕ → Key → Key → Bool → Option ℕ → M (World b) (ErrorCode × Option ℕ)
  unfolding no_index get_records_open
  get_records tx idx min_keys max_keys valid old = do
    unknown ← no_index idx
    if unknown
        then pure (error_unknown_index, old)
        else get_records_open tx idx min_keys max_keys valid old

  -- What GetNext does after the call of Next.
  pub deliver : ℕ → Option Record → Bool → M (World b) (ErrorCode × Option Record)
  unfolding value
  deliver p old went = do
    it ← iterator_at (some p)
    if not went
        then pure (error_generic_failure, old)
        else if it.end
        then pure (error_not_found, none)
        else (do r ← value p; pure (ok, r))

  fetch : ℕ → ℕ → Option Record → M (World b) (ErrorCode × Option Record)
  unfolding next deliver
  fetch fuel p old =
      try_catch (next fuel p >>= deliver p old) (λ e. pure (deadlock_or_failure e, old))

  -- GetNext: the status and the new `*record`, which was `old`. `valid` is whether record is not NULL.
  unfoldable pub get_next :
      ℕ → Option ℕ → Bool → Option Record → M (World b) (ErrorCode × Option Record)
  unfolding fetch
  get_next fuel p false old = pure (error_generic_failure, old)
  get_next fuel none true old = pure (error_iterator_closed, old)
  get_next fuel (some p) true old = do
    it ← iterator_at (some p)
    if it.closed then pure (error_iterator_closed, old) else fetch fuel p old

  -- CloseIterator: the status and the new `*it`. There is no handler for exceptions here.
  unfoldable pub close_iterator_handle : Option ℕ → M (World b) (ErrorCode × Option ℕ)
  unfolding close_iterator delete_iterator
  close_iterator_handle none = pure (error_iterator_closed, none)
  close_iterator_handle (some p) = do
    it ← iterator_at (some p)
    (if it.closed then pure tt else close_iterator p)
    delete_iterator p
    pure (if it.closed then error_iterator_closed else ok, none)
