-- ===== src/Consistency/History.antt =====
-- Sequences of calls of the interface, by any clients, from the start of the process on.
use sigmod2012contest.Base.{ℕ, arith, refl, Bool, Option, none, List, []}
use sigmod2012contest.Containers.Text.{Text}
use sigmod2012contest.Containers.Map
use sigmod2012contest.Interface.{AttributeType, Key, Record, Block}
use sigmod2012contest.Bdb.{Bdb, M, Ends, ◌>>=◌, pure}
use sigmod2012contest.Objects.{World}
use sigmod2012contest.Api.{
  begin_transaction, abort_transaction, commit_transaction, create_index, open_index,
  close_index_handle, delete_index, insert_record, update_record, delete_record, get_records,
  get_next, close_iterator_handle,
}
use sigmod2012contest.Consistency.{IsConsistent, Quiet-IsConsistent}
use sigmod2012contest.Consistency.Steps.{IsQuiet}
use sigmod2012contest.Consistency.Calls.{
  begin_transaction-IsQuiet, abort_transaction-IsQuiet, commit_transaction-IsQuiet,
  close_index_handle-IsQuiet, insert_record-IsQuiet, update_record-IsQuiet, delete_record-IsQuiet,
  get_records-IsQuiet, get_next-IsQuiet, close_iterator_handle-IsQuiet,
}
use sigmod2012contest.Consistency.Keeping.{resume-IsConsistent, create_index-IsConsistent}
use sigmod2012contest.Consistency.Opening.{open_index-IsConsistent}
use sigmod2012contest.Consistency.Removal.{Removes, delete_index-IsConsistent}

-- A call of an interface function with its arguments. A client may pass any pointer.
pub data Call : Type 0 where
  begins : Bool → Call
  aborts commits : Option ℕ → Call
  creates : Option Text → ℕ → Option (List AttributeType) → Call
  opens : Option Text → Option ℕ → Call
  closes : Option ℕ → Call
  deletes : Option Text → Call
  inserts : Option ℕ → Option ℕ → Option Record → Call
  updates : ℕ → Option ℕ → Option ℕ → Option Record → Option Block → ℕ → Call
  erases : ℕ → Option ℕ → Option ℕ → Option Record → ℕ → Call
  queries : Option ℕ → Option ℕ → Key → Key → Bool → Option ℕ → Call
  fetches : ℕ → Option ℕ → Bool → Option Record → Call
  closes_iterator : Option ℕ → Call

module _ {b : Bdb} where
  -- How the call ends, without what it returns, and the state after it.
  abbrev dropped : {A : Type 0} → M (World b) A → M (World b) (Unit {0})
  dropped m = m >>= λ _. pure tt

  unfoldable pub perform : Call → M (World b) (Unit {0})
  perform (begins valid) = dropped (begin_transaction valid)
  perform (aborts t) = dropped (abort_transaction t)
  perform (commits t) = dropped (commit_transaction t)
  perform (creates name n types) = dropped (create_index name n types)
  perform (opens name old) = dropped (open_index name old)
  perform (closes i) = dropped (close_index_handle i)
  perform (deletes name) = dropped (delete_index name)
  perform (inserts tx i r) = dropped (insert_record tx i r)
  perform (updates fuel tx i r payload flags) = dropped (update_record fuel tx i r payload flags)
  perform (erases fuel tx i r flags) = dropped (delete_record fuel tx i r flags)
  perform (queries tx i min_keys max_keys valid old) =
      dropped (get_records tx i min_keys max_keys valid old)
  perform (fetches fuel p valid old) = dropped (get_next fuel p valid old)
  perform (closes_iterator p) = dropped (close_iterator_handle p)

  -- DeleteIndex gets through IndexManager::Remove: an exception there leaves the name on a schema that
  -- has been freed.
  abbrev pub IsDone : Call → World b → Type 0
  IsDone (deletes name) v = Removes name v
  IsDone _ v = Unit {0}

  -- The states that a process comes to, until a call does not end.
  pub data Reach (w : World b) : World b → Type 0 where
    here : Reach w w
    next :
        {v : World b}
        → Reach w v
        → (c : Call) → Ends (perform c v).0
        → IsDone c v
        → Reach w (perform c v).1

  dropped-IsConsistent :
      {A : Type 0} (m : M (World b) A) (w : World b)
      → IsConsistent (m w).1
      → IsConsistent (dropped m w).1
  dropped-IsConsistent m w c = resume-IsConsistent (m w) _ c λ _ _. c

  quiet-IsConsistent :
      {A : Type 0} (m : M (World b) A) (w : World b)
      → IsConsistent w
      → IsQuiet m
      → IsConsistent (dropped m w).1
  quiet-IsConsistent m w c q = dropped-IsConsistent m w (Quiet-IsConsistent w (m w).1 (q.at w) c)

  perform-IsConsistent :
      (call : Call) (w : World b) → IsConsistent w → IsDone call w → IsConsistent (perform call w).1
  unfolding perform
  perform-IsConsistent (begins valid) w c d =
      quiet-IsConsistent _ w c (begin_transaction-IsQuiet valid)
  perform-IsConsistent (aborts t) w c d = quiet-IsConsistent _ w c (abort_transaction-IsQuiet t)
  perform-IsConsistent (commits t) w c d = quiet-IsConsistent _ w c (commit_transaction-IsQuiet t)
  perform-IsConsistent (creates name n types) w c d =
      dropped-IsConsistent (create_index name n types) w
        (create_index-IsConsistent name n types w c)
  perform-IsConsistent (opens name old) w c d =
      dropped-IsConsistent (open_index name old) w (open_index-IsConsistent name old w c)
  perform-IsConsistent (closes i) w c d = quiet-IsConsistent _ w c (close_index_handle-IsQuiet i)
  perform-IsConsistent (deletes name) w c d =
      dropped-IsConsistent (delete_index name) w (delete_index-IsConsistent name w c d)
  perform-IsConsistent (inserts tx i r) w c d =
      quiet-IsConsistent _ w c (insert_record-IsQuiet tx i r)
  perform-IsConsistent (updates fuel tx i r payload flags) w c d =
      quiet-IsConsistent _ w c (update_record-IsQuiet fuel tx i r payload flags)
  perform-IsConsistent (erases fuel tx i r flags) w c d =
      quiet-IsConsistent _ w c (delete_record-IsQuiet fuel tx i r flags)
  perform-IsConsistent (queries tx i min_keys max_keys valid old) w c d =
      quiet-IsConsistent _ w c (get_records-IsQuiet tx i min_keys max_keys valid old)
  perform-IsConsistent (fetches fuel p valid old) w c d =
      quiet-IsConsistent _ w c (get_next-IsQuiet fuel p valid old)
  perform-IsConsistent (closes_iterator p) w c d =
      quiet-IsConsistent _ w c (close_iterator_handle-IsQuiet p)

  Reach-IsConsistent : {w v : World b} → IsConsistent w → Reach w v → IsConsistent v
  Reach-IsConsistent c here = c
  Reach-IsConsistent c (next {v} r call ends done) =
      perform-IsConsistent call v (Reach-IsConsistent c r) done

  -- The process before its first call.
  abbrev pub started : b.Env → ℕ → Bool → World b
  started e fresh frees = record {
    env = e;
    fresh = fresh;
    free_takes_new = frees;
    next = 1;
    indices = [];
    schemas = λ _. none;
    transactions = λ _. none;
    handles = λ _. none;
    iterators = λ _. none;
  }

  started-IsConsistent :
      (e : b.Env) (fresh : ℕ) (frees : Bool) → IsConsistent (started e fresh frees)
  started-IsConsistent e fresh frees = record {
    unused = λ q h. refl;
    named = λ n s h. absurd (ground (arith, Map.find_nil {V = ℕ} n));
    named_once = λ n m s h k. absurd (ground (arith, Map.find_nil {V = ℕ} n));
    backed = λ i ix h o. absurd (ground arith);
  }

  -- In every state that a process comes to, by any calls of the interface with any arguments and however
  -- Berkeley DB answers, as long as each call returns or throws and IndexManager::Remove is not left by an
  -- exception: every name stands for an allocated
  -- schema and no two names for the same one, and an open handle has a database and an
  -- allocated schema, which has the handle in its set.
  pub reached-IsConsistent :
      (e : b.Env) (fresh : ℕ) (frees : Bool) {v : World b}
      → Reach (started e fresh frees) v
      → IsConsistent v
  reached-IsConsistent e fresh frees r = Reach-IsConsistent (started-IsConsistent e fresh frees) r
