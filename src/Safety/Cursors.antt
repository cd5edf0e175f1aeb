-- ===== src/Safety/Cursors.antt =====
-- Iterator::Close and Iterator::Init, example/iterator.cc, on operands that are there.
use sigmod2012contest.Base.{ℕ, ◌≡◌, subst, true, false, Option, none, some}
use sigmod2012contest.Interface.{Key}
use sigmod2012contest.Bdb.{Bdb, Outcome, returns, throws, faults, out_of_fuel, Ends}
use sigmod2012contest.Schema.{has_values}
use sigmod2012contest.Objects.{Iterator, on_iterator}
use sigmod2012contest.Iterators.{close_cursor, cursor_closed}
use sigmod2012contest.Closing.{
  close_iterator, destroy_iterator, unregister_iterator, register_iterator,
}
use sigmod2012contest.Indexes.{init_iterator}
use sigmod2012contest.Safety.{Operands, IsDefined, IsSafe, HasIterator, EndsAlways}
use sigmod2012contest.Safety.Access.{safe_steps, free_new-IsDefined, updated_iterator}
use sigmod2012contest.Safety.Records.{parent_tid-IsDefined, bdb_key-IsDefined}

-- After a method of an iterator that belongs to the handle at i: it is safe, and the iterator still
-- does.
abbrev IsKept : {E : Type 0} → ℕ → Outcome (Unit {0}) × (Iterator × E) → Type 0
IsKept i r = IsSafe r.0 × (r.1.0.closed ≡ false → r.1.0.index ≡ some i)

cursor_closed-IsKept :
    {E : Type 0} (i : ℕ) (it : Iterator) (r : Outcome (Unit {0}) × E)
    → Ends r.0
    → (it.closed ≡ false → it.index ≡ some i)
    → IsKept i (cursor_closed it r)
cursor_closed-IsKept i it (returns _, e) h own = (tt, own)
cursor_closed-IsKept i it (throws _, e) h own = (tt, own)
cursor_closed-IsKept i it (faults, e) h own = absurd h
cursor_closed-IsKept i it (out_of_fuel, e) h own = (tt, own)

module _ {b : Bdb} (ends : EndsAlways b) where
  close_any-IsKept :
      (i : ℕ) (it : Iterator) (e : b.Env) (o : Option ℕ)
      → (it.closed ≡ false → it.index ≡ some i)
      → IsKept {E = b.Env} i
          (elim o [ none ↦ (returns tt, (it, e)) | some c ↦ cursor_closed it (b.cursor_close c e) ])
  close_any-IsKept i it e none own = (tt, own)
  close_any-IsKept i it e (some c) own =
      cursor_closed-IsKept i it (b.cursor_close c e) (ends.cursor_close c e) own

module _ {b : Bdb} {x : Operands} (ends : EndsAlways b) where
  close_cursor-IsDefined :
      (p : ℕ) → x.iterator ≡ some p → IsDefined x (on_iterator {b = b} p (close_cursor b))
  unfolding close_cursor
  close_cursor-IsDefined p e = record {
    at = λ w g.
        let (it, h, own) = subst (HasIterator w.iterators x.handle) e g.iterator in
        let r = close_cursor b (it, w.env) in
        let (safe, kept) = close_any-IsKept ends x.handle it w.env it.cursor own in
        rw h (
          safe,
          record {
            handle = g.handle;
            schema = g.schema;
            frees = g.frees;
            transaction = g.transaction;
            iterator = updated_iterator w.iterators p r.1.0 x.handle x.iterator kept g.iterator;
          },
        );
  }

  unregister-IsDefined :
      (o : Option ℕ) (p : ℕ) → o ≡ some x.handle → IsDefined x (unregister_iterator {b = b} o p)
  unfolding unregister_iterator
  unregister-IsDefined o p e = rw e (search safe_steps)

  pub close_iterator-IsDefined :
      (p : ℕ) → x.iterator ≡ some p → IsDefined x (close_iterator {b = b} p)
  unfolding close_iterator
  close_iterator-IsDefined p e =
      search (safe_steps, close_cursor-IsDefined, unregister-IsDefined) depth 10

  pub destroy_iterator-IsDefined :
      (p : ℕ) → x.iterator ≡ some p → IsDefined x (destroy_iterator {b = b} p)
  unfolding destroy_iterator
  destroy_iterator-IsDefined p e =
      search (safe_steps, close_iterator-IsDefined, free_new-IsDefined) depth 10

  pub init_iterator-IsDefined :
      (p : ℕ) (min_keys max_keys : Key)
      → x.iterator ≡ some p
      → has_values x.types min_keys.value ≡ true
      → has_values x.types max_keys.value ≡ true
      → IsDefined x (init_iterator {b = b} p x.transaction x.handle min_keys max_keys)
  unfolding init_iterator register_iterator
  init_iterator-IsDefined p min_keys max_keys e low high =
      search
        (
          safe_steps, close_iterator-IsDefined, bdb_key-IsDefined, parent_tid-IsDefined,
          ends.db_cursor,
        )
        depth 30
