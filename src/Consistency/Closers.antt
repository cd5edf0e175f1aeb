-- ===== src/Consistency/Closers.antt =====
-- The methods that close iterators and handles, of example/iterator.cc and example/index.cc, are quiet.
use sigmod2012contest.Base.{
  ℕ, suc, ◌+◌, ◌≡◌, refl, sym, ap, Bool, true, false, Option, none, some, List, if◌then◌else◌,
  Bool-cases, inl, inr, ◌==◌, length, arith,
}
use sigmod2012contest.Containers.AddressSet.{erase, insert, mem-erase}
use sigmod2012contest.Bdb.{Bdb, M, ◌>>=◌, ◌>>◌}
use sigmod2012contest.Schema.{unregister_handle}
use sigmod2012contest.Closing.{
  register_iterator, unregister_iterator, close_iterator, delete_iterator, destroy_iterator,
  close_iterators, close_first, first_iterator, close_index, close_db, unregister_from,
  delete_index_handle,
}
use sigmod2012contest.Objects.{World, Index, update, bdb}
use sigmod2012contest.Consistency.{view, Quiet, Quiet-refl, Quiet-trans, Quiet-IsOpen, IsOpen}
use sigmod2012contest.Consistency.Steps.{
  IsQuiet, bdb-IsQuiet, bind-Quiet, if-Quiet, bind-IsQuiet, read-Quiet, set_schema-Quiet,
  set_handle-Quiet, quiet_steps, released-Quiet, free_new-IsQuiet, unseen,
}

module _ {b : Bdb} where
  -- A handle is read and written back with another set of iterators.
  iterators-Quiet :
      (i : ℕ) (ix : Index) (ps : List ℕ) (w : World b)
      → w.handles i ≡ some ix
      → Quiet w (record w { handles = update w.handles i (some (record ix { iterators = ps })) })
  iterators-Quiet i ix ps w h =
      set_handle-Quiet i (some (record ix { iterators = ps })) w λ jx e o. ap view (sym h)

  pub register_iterator-IsQuiet : (i : Option ℕ) (p : ℕ) → IsQuiet (register_iterator {b = b} i p)
  unfolding register_iterator
  register_iterator-IsQuiet none p = search quiet_steps
  register_iterator-IsQuiet (some i) p = record {
    at = λ w.
        read-Quiet (λ (v : World b). v.handles) (some i) _ w
          λ q ix e h.
            if-Quiet ix.closed _ _ w (λ c. Quiet-refl w)
              λ c. iterators-Quiet i ix (insert p ix.iterators) w (ground (arith, h));
  }

  unregister_iterator-IsQuiet : (i : Option ℕ) (p : ℕ) → IsQuiet (unregister_iterator {b = b} i p)
  unfolding unregister_iterator
  unregister_iterator-IsQuiet none p = search quiet_steps
  unregister_iterator-IsQuiet (some i) p = record {
    at = λ w.
        read-Quiet (λ (v : World b). v.handles) (some i) _ w
          λ q ix e h. iterators-Quiet i ix (erase p ix.iterators) w (ground (arith, h));
  }

  pub close_iterator-IsQuiet : (p : ℕ) → IsQuiet (close_iterator {b = b} p)
  unfolding close_iterator
  close_iterator-IsQuiet p = search (quiet_steps, unregister_iterator-IsQuiet)

  destroy_iterator-IsQuiet : (p : ℕ) → IsQuiet (destroy_iterator {b = b} p)
  unfolding destroy_iterator
  destroy_iterator-IsQuiet p = search (quiet_steps, close_iterator-IsQuiet, free_new-IsQuiet)

  pub delete_iterator-IsQuiet : (p : ℕ) → IsQuiet (delete_iterator {b = b} p)
  unfolding delete_iterator
  delete_iterator-IsQuiet p = record {
    at = λ w.
        released-Quiet w (λ (v : World b). record v { iterators = update v.iterators p none })
          (destroy_iterator p w) ((destroy_iterator-IsQuiet p).at w)
          λ v. unseen v _ (omega arith) refl refl refl;
  }

  close_first-IsQuiet :
      (again : M (World b) (Unit {0})) (o : Option ℕ)
      → IsQuiet again
      → IsQuiet (close_first again o)
  close_first-IsQuiet again none q = search quiet_steps
  close_first-IsQuiet again (some p) q =
      bind-IsQuiet (close_iterator p) (λ _. again) (close_iterator-IsQuiet p) (λ _. q)

  close_iterators-IsQuiet : (fuel i : ℕ) → IsQuiet (close_iterators {b = b} fuel i)
  unfolding close_iterators
  close_iterators-IsQuiet ℕ.zero i = record { at = Quiet-refl }
  close_iterators-IsQuiet (suc fuel) i = record {
    at = λ w.
        read-Quiet (λ (v : World b). v.handles) (some i) _ w
          λ q ix e h.
            (close_first-IsQuiet (close_iterators fuel i) (first_iterator ix.iterators)
                (close_iterators-IsQuiet fuel i)).at
              w;
  }

  abbrev pub IsShut : World b → ℕ → Type 0
  IsShut w i = IsOpen w i → ⊥

  pub Quiet-IsShut : (w w' : World b) (i : ℕ) → Quiet w w' → IsShut w i → IsShut w' i
  Quiet-IsShut w w' i q h o = h (Quiet-IsOpen w w' i q o)

  close_db-Quiet : (i : ℕ) (db : Option ℕ) (w : World b) → IsShut w i → Quiet w (close_db i db w).1
  unfolding close_db
  close_db-Quiet i none w shut = Quiet-refl w
  close_db-Quiet i (some db) w shut =
      bind-Quiet (bdb (b.db_close db)) _ w ((bdb-IsQuiet (b.db_close db)).at w) λ a w1 q.
        read-Quiet (λ (v : World b). v.handles) (some i) _ w1
          λ p ix e h.
            set_handle-Quiet i (some (record ix { db = none })) w1
              λ jx same o. absurd (Quiet-IsShut w w1 i q shut (ix, ground (arith, h), ground arith))

  unregister_from-Quiet :
      (s : Option ℕ) (i : ℕ) (w : World b) → IsShut w i → Quiet w (unregister_from s i w).1
  unfolding unregister_from unregister_handle
  unregister_from-Quiet none i w shut = Quiet-refl w
  unregister_from-Quiet (some s) i w shut =
      read-Quiet (λ (v : World b). v.schemas) (some s) _ w
        λ p is e h. set_schema-Quiet s is (unregister_handle i is) w (ground (arith, h)) λ j o m.
          elim (Bool-cases (j == i)) [
            | inl t ↦ let here : j ≡ i = ground arith in absurd (shut (rw here at o))
            | inr t ↦ ground (arith, mem-erase i j is.handles)
          ]

  -- A handle that is marked as closed.
  close_handle-Quiet :
      (i : ℕ) (ix : Index) (w : World b)
      → Quiet w (record w { handles = update w.handles i (some (record ix { closed = true })) })
  close_handle-Quiet i ix w =
      set_handle-Quiet i (some (record ix { closed = true })) w λ jx e o. absurd (ground arith)

  abbrev marked : World b → ℕ → Index → World b
  marked w i ix = record w { handles = update w.handles i (some (record ix { closed = true })) }

  marked-IsShut : (w : World b) (i : ℕ) (ix : Index) → IsShut (marked w i ix) i
  marked-IsShut w i ix o = absurd (ground (arith, o.1, o.2))

  closing-Quiet :
      (i : ℕ) (ix : Index) (w : World b)
      → IsShut w i
      → Quiet w
          ((do
            close_iterators (length ix.iterators + 1) i
            close_db i ix.db
            unregister_from ix.schema i)
            w).1
  closing-Quiet i ix w shut =
      bind-Quiet (close_iterators (length ix.iterators + 1) i) _ w
        ((close_iterators-IsQuiet (length ix.iterators + 1) i).at w)
        λ _ w2 q2.
          bind-Quiet (close_db i ix.db) _ w2
            (close_db-Quiet i ix.db w2 (Quiet-IsShut w w2 i q2 shut))
            λ _ w3 q3.
              unregister_from-Quiet ix.schema i w3
                (Quiet-IsShut w2 w3 i q3 (Quiet-IsShut w w2 i q2 shut))

  pub close_index-IsQuiet : (i : ℕ) → IsQuiet (close_index {b = b} i)
  unfolding close_index
  close_index-IsQuiet i = record {
    at = λ w.
        read-Quiet (λ (v : World b). v.handles) (some i) _ w
          λ q ix e h.
            if-Quiet ix.closed _ _ w (λ c. Quiet-refl w)
              λ c.
                Quiet-trans w (marked w i ix) _ (close_handle-Quiet i ix w)
                  (closing-Quiet i ix (marked w i ix) (marked-IsShut w i ix));
  }

  if-IsShut :
      (i : ℕ) (c : Bool) (m n : M (World b) (Unit {0})) (w : World b)
      → (c ≡ true → IsShut (m w).1 i)
      → (c ≡ false → IsShut (n w).1 i)
      → IsShut ((if c then m else n) w).1 i
  if-IsShut i true m n w h k = h refl
  if-IsShut i false m n w h k = k refl

  pub delete_index_handle-IsQuiet : (i : ℕ) → IsQuiet (delete_index_handle {b = b} i)
  unfolding delete_index_handle
  delete_index_handle-IsQuiet i = record {
    at = λ w.
        released-Quiet w (λ (v : World b). record v { handles = update v.handles i none })
          (close_index i w) ((close_index-IsQuiet i).at w)
          λ v. set_handle-Quiet i none v λ ix e o. absurd (ground arith);
  }

  -- However Index::Close ends, the handle is closed or gone.
  pub close_index-IsShut : (i : ℕ) (w : World b) → IsShut (close_index i w).1 i
  unfolding close_index
  close_index-IsShut i w = found (w.handles i) refl
    where
      found : (o : Option Index) → w.handles i ≡ o → IsShut (close_index i w).1 i
      found none h = rw (h, ◌>>=◌) λ o. absurd (ground (arith, o.1))
      found (some ix) h =
          rw (h, ◌>>=◌)
            (if-IsShut i ix.closed _ _ w (λ c o. absurd (ground (arith, o.1, o.2)))
              λ c.
                Quiet-IsShut (marked w i ix) _ i
                  (closing-Quiet i ix (marked w i ix) (marked-IsShut w i ix))
                  (marked-IsShut w i ix))
