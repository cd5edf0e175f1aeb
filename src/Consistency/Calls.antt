-- ===== src/Consistency/Calls.antt =====
-- The functions of the interface, example/BDBImpl.cc, that neither make an index, nor open or remove
-- one, are quiet.
use sigmod2012contest.Base.{ℕ, Bool, true, false, Option, none, some}
use sigmod2012contest.Interface.{ErrorCode, Key, Record, Block}
use sigmod2012contest.Bdb.{Bdb, M}
use sigmod2012contest.Objects.{World}
use sigmod2012contest.Api.{
  begin_transaction, abort_transaction, commit_transaction, close_index_handle, no_index,
  with_record, insert_record, update_record, delete_record, get_records, get_next,
  close_iterator_handle,
}
use sigmod2012contest.Consistency.Steps.{IsQuiet, try_catch-IsQuiet, quiet_steps}
use sigmod2012contest.Consistency.Writers.{
  begin-IsQuiet, abort-IsQuiet, commit-IsQuiet, delete_transaction-IsQuiet,
}
use sigmod2012contest.Consistency.Closers.{
  close_iterator-IsQuiet, delete_iterator-IsQuiet, delete_index_handle-IsQuiet,
}
use sigmod2012contest.Consistency.Records.{
  compatible-IsQuiet, insert-IsQuiet, update-IsQuiet, delete-IsQuiet, init_iterator-IsQuiet,
  next-IsQuiet, value-IsQuiet,
}

module _ {b : Bdb} where
  pub begin_transaction-IsQuiet : (valid : Bool) → IsQuiet (begin_transaction {b = b} valid)
  unfolding begin_transaction
  begin_transaction-IsQuiet false = search quiet_steps
  begin_transaction-IsQuiet true = search (quiet_steps, try_catch-IsQuiet, begin-IsQuiet) depth 10

  pub abort_transaction-IsQuiet : (t : Option ℕ) → IsQuiet (abort_transaction {b = b} t)
  unfolding abort_transaction
  abort_transaction-IsQuiet none = search quiet_steps
  abort_transaction-IsQuiet (some t) =
      search (quiet_steps, try_catch-IsQuiet, abort-IsQuiet, delete_transaction-IsQuiet) depth 10

  pub commit_transaction-IsQuiet : (t : Option ℕ) → IsQuiet (commit_transaction {b = b} t)
  unfolding commit_transaction
  commit_transaction-IsQuiet none = search quiet_steps
  commit_transaction-IsQuiet (some t) =
      search (quiet_steps, try_catch-IsQuiet, commit-IsQuiet, delete_transaction-IsQuiet) depth 10

  pub close_index_handle-IsQuiet : (i : Option ℕ) → IsQuiet (close_index_handle {b = b} i)
  unfolding close_index_handle
  close_index_handle-IsQuiet none = search quiet_steps
  close_index_handle-IsQuiet (some i) =
      search (quiet_steps, try_catch-IsQuiet, delete_index_handle-IsQuiet) depth 10

  no_index-IsQuiet : (i : Option ℕ) → IsQuiet (no_index {b = b} i)
  unfolding no_index
  no_index-IsQuiet none = search quiet_steps
  no_index-IsQuiet (some i) = search quiet_steps

  with_record-IsQuiet :
      (i : Option ℕ) (r : Option Record) (body : ℕ → Record → M (World b) ErrorCode)
      → ((j : ℕ) (x : Record) → IsQuiet (body j x))
      → IsQuiet (with_record i r body)
  unfolding with_record
  with_record-IsQuiet none r body q = search quiet_steps
  with_record-IsQuiet (some i) none body q = search (quiet_steps, no_index-IsQuiet) depth 10
  with_record-IsQuiet (some i) (some r) body q =
      search (quiet_steps, no_index-IsQuiet, compatible-IsQuiet) depth 10

  pub insert_record-IsQuiet :
      (tx i : Option ℕ) (r : Option Record) → IsQuiet (insert_record {b = b} tx i r)
  unfolding insert_record
  insert_record-IsQuiet tx i r =
      with_record-IsQuiet i r _ λ j x. search (quiet_steps, try_catch-IsQuiet, insert-IsQuiet)

  pub update_record-IsQuiet :
      (fuel : ℕ) (tx i : Option ℕ) (r : Option Record) (payload : Option Block) (flags : ℕ)
      → IsQuiet (update_record {b = b} fuel tx i r payload flags)
  unfolding update_record
  update_record-IsQuiet fuel tx i r none flags = with_record-IsQuiet i r _ λ j x. search quiet_steps
  update_record-IsQuiet fuel tx i r (some p) flags =
      with_record-IsQuiet i r _ λ j x. search (quiet_steps, try_catch-IsQuiet, update-IsQuiet)

  pub delete_record-IsQuiet :
      (fuel : ℕ) (tx i : Option ℕ) (r : Option Record) (flags : ℕ)
      → IsQuiet (delete_record {b = b} fuel tx i r flags)
  unfolding delete_record
  delete_record-IsQuiet fuel tx i r flags =
      with_record-IsQuiet i r _ λ j x. search (quiet_steps, try_catch-IsQuiet, delete-IsQuiet)

  pub get_records-IsQuiet :
      (tx i : Option ℕ) (min_keys max_keys : Key) (valid : Bool) (old : Option ℕ)
      → IsQuiet (get_records {b = b} tx i min_keys max_keys valid old)
  unfolding get_records
  get_records-IsQuiet tx none min_keys max_keys valid old = search quiet_steps depth 10
  get_records-IsQuiet tx (some i) min_keys max_keys valid old =
      search
        (
          quiet_steps, compatible-IsQuiet, try_catch-IsQuiet, init_iterator-IsQuiet,
          delete_iterator-IsQuiet,
        )
        depth 20

  pub get_next-IsQuiet :
      (fuel : ℕ) (p : Option ℕ) (valid : Bool) (old : Option Record)
      → IsQuiet (get_next {b = b} fuel p valid old)
  unfolding get_next
  get_next-IsQuiet fuel p false old = search quiet_steps
  get_next-IsQuiet fuel none true old = search quiet_steps
  get_next-IsQuiet fuel (some p) true old =
      search (quiet_steps, try_catch-IsQuiet, next-IsQuiet, value-IsQuiet) depth 20

  pub close_iterator_handle-IsQuiet : (p : Option ℕ) → IsQuiet (close_iterator_handle {b = b} p)
  unfolding close_iterator_handle
  close_iterator_handle-IsQuiet none = search quiet_steps
  close_iterator_handle-IsQuiet (some p) =
      search (quiet_steps, close_iterator-IsQuiet, delete_iterator-IsQuiet) depth 10
