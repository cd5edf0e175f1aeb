-- ===== src/Iterators.antt =====
-- The class Iterator, example/iterator.cc: its life, and the search for the next record.
pub mod Search
pub mod Traversal
pub mod Collect
use sigmod2012contest.Base.{
  ℕ, zero, suc, Bool, true, false, Option, none, some, List, [], ◌&&◌, if◌then◌else◌,
}
use sigmod2012contest.Containers.AddressSet.{insert, erase}
use sigmod2012contest.Interface.{AttributeType, Key, Record}
use sigmod2012contest.Keys.{is_zero, is_positive, key_cmp}
use sigmod2012contest.Schema.{IndexSchema, get_bdb_key, get_key}
use sigmod2012contest.Bdb.{
  Bdb, M, Outcome, returns, throws, faults, out_of_fuel, ◌>>=◌, ◌>>◌, pure, Code, success,
  not_found, failure, Position, Entry,
}
use sigmod2012contest.Objects.{
  World, Transaction, Index, Iterator, bdb, deref, modify, set_handle, set_iterator,
}

-- Iterator::Iterator
abbrev pub new_iterator : Iterator
new_iterator = record {
  index = none;
  is = none;
  cursor = none;
  min_key = [];
  max_key = [];
  key = [];
  value = [];
  closed = true;
  end = false;
  initialized = false;
  key_set = false;
}

-- How Iterator::Next ends: on a record, at the end of the range, or by an error.
pub data Verdict : Type 0 where
  found ended failed : Verdict

-- What a `get` leaves in the two Dbts of the iterator.
abbrev pub received :
    {E : Type 0} → Iterator → Outcome (Code × Entry) × E → Outcome Code × (Iterator × E)
received it (returns (code, x), e) = (returns code, (record it { key = x.key; value = x.value }, e))
received it (throws x, e) = (throws x, (it, e))
received it (faults, e) = (faults, (it, e))
received it (out_of_fuel, e) = (out_of_fuel, (it, e))

abbrev pub cursor_closed :
    {E : Type 0} → Iterator → Outcome (Unit {0}) × E → Outcome (Unit {0}) × (Iterator × E)
cursor_closed it (returns _, e) = (returns tt, (record it { cursor = none }, e))
cursor_closed it (throws x, e) = (throws x, (it, e))
cursor_closed it (faults, e) = (faults, (it, e))
cursor_closed it (out_of_fuel, e) = (out_of_fuel, (it, e))

abbrev pub current : Iterator → Entry
current it = record { key = it.key; value = it.value }

module _ (b : Bdb) where
  -- Iterator::CloseCursor, on the iterator and the environment.
  unfoldable pub close_cursor : M (Iterator × b.Env) (Unit {0})
  close_cursor (it, e) = elim it.cursor [
    | none ↦ (returns tt, (it, e))
    | some c ↦ cursor_closed it (b.cursor_close c e)
  ]

  -- Iterator::SetEnded
  unfoldable pub set_ended : M (Iterator × b.Env) (Unit {0})
  unfolding close_cursor
  set_ended (it, e) = close_cursor (record it { end = true }, e)

  -- `cursor_->get(key_, value_, position)`
  abbrev pub get_entry : ℕ → Position → M (Iterator × b.Env) Code
  get_entry c position (it, e) = received it (b.cursor_get c position (current it) e)

  abbrev pub forget_key : M (Iterator × b.Env) (Unit {0})
  forget_key (it, e) = (returns tt, (record it { key_set = false }, e))

  -- The `while(true)` of Iterator::Next, from the code of the last `get` on. `cursor_` is `c` until
  -- SetEnded, after which the loop is left.
  unfoldable pub next_loop : ℕ → List AttributeType → ℕ → Code → M (Iterator × b.Env) Verdict
  unfolding set_ended
  next_loop ℕ.zero types c code s = (out_of_fuel, s)
  next_loop (suc fuel) types c success s =
      let it = s.0 in
      let again = (get_entry c Position.next >>= next_loop fuel types c) s in
      if is_positive (key_cmp types it.key it.max_key false)
      then (set_ended >> pure ended) s
      else if is_zero (key_cmp types it.min_key it.key true)
          && is_zero (key_cmp types it.key it.max_key true)
      then (returns found, s)
      else again
  next_loop (suc fuel) types c not_found s = (forget_key >> set_ended >> pure ended) s
  next_loop (suc fuel) types c failure s = (forget_key >> set_ended >> pure failed) s

  -- The first `get` of Iterator::Next.
  unfoldable pub first_get : ℕ → M (Iterator × b.Env) Code
  first_get c (it, e) =
      if it.initialized
      then get_entry c Position.next (it, e)
      else (do
        code ← get_entry c Position.set_range
        modify (λ (s : Iterator × b.Env). (record s.0 { initialized = true }, s.1))
        pure code)
          (it, e)

  -- Iterator::Next up to the closing of the iterator after an error, on its own fields.
  unfoldable pub search_next : ℕ → List AttributeType → M (Iterator × b.Env) Verdict
  unfolding first_get next_loop
  search_next fuel types (it, e) = if it.end then (returns ended, (it, e)) else elim it.cursor [
    | none ↦ (faults, (it, e))
    | some c ↦ (do code ← first_get c; forget_key; next_loop fuel types c code) (it, e)
  ]
