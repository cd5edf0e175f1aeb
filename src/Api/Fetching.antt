-- ===== src/Api/Fetching.antt =====
-- The steps of GetNext of example/BDBImpl.cc, each by itself.
use sigmod2012contest.Base.{
  ℕ, ◌≡◌, refl, ap, ◌∙◌, Bool, true, false, Option, none, some, if◌then◌else◌, inl, inr, Bool-cases,
  arith,
}
use sigmod2012contest.Interface.{ok, error_not_found, error_generic_failure, Record}
use sigmod2012contest.Bdb.{Bdb, M, returns, resume, ◌>>=◌, Entry}
use sigmod2012contest.Containers.AddressSet.{erase}
use sigmod2012contest.Schema.{IndexSchema, get_key}
use sigmod2012contest.Objects.{World, Index, Iterator, update, stored, on_found, schema_at}
use sigmod2012contest.Iterators.{current, search_next, close_cursor, cursor_closed}
use sigmod2012contest.Closing.{close_iterator, unregister_iterator}
use sigmod2012contest.Indexes.{next, value, after_search}
use sigmod2012contest.Api.{deliver}

-- The record of the interface that stands for an entry of the b-tree.
abbrev pub decoded : IndexSchema → Entry → Record
decoded is x = record { key = get_key is x.key; payload = record { bytes = x.value } }

close_cursor_lem :
    (b : Bdb) (it : Iterator) (e : b.Env)
    → it.cursor ≡ none
    → close_cursor b (it, e) ≡ (returns tt, (it, e))
unfolding close_cursor
close_cursor_lem b it e n =
    ap
      (λ o. elim o [
        | none ↦ (returns tt, (it, e))
        | some c ↦ cursor_closed it (b.cursor_close c e)
      ])
      n

choose_second :
    {S A : Type 0} (v : Bool) (x y : M S A) (w : S) → v ≡ false → (if v then x else y) w ≡ y w
choose_second v x y w h = rw h refl

module _ {b : Bdb} where
  schema_at_lem :
      (s : ℕ) (o : Option ℕ) (is : IndexSchema) (w : World b)
      → o ≡ some s
      → w.schemas s ≡ some is
      → schema_at o w ≡ (returns is, w)
  schema_at_lem s o is w k alive = rw k (rw alive refl)

  pub next_lem :
      (fuel p s : ℕ) (it : Iterator) (is : IndexSchema) (w : World b)
      → w.iterators p ≡ some it
      → it.is ≡ some s
      → w.schemas s ≡ some is
      → next fuel p w
        ≡ resume (stored p w (search_next b fuel is.type (it, w.env))) (after_search p)
  unfolding next
  next_lem fuel p s it is w h k alive =
      rw (h, ◌>>=◌, schema_at_lem s it.is is w k alive)
        (ap (λ o. resume (on_found p (search_next b fuel is.type) o w) (after_search p)) h)

  -- The state after a search.
  abbrev pub searched_world : World b → ℕ → Iterator → b.Env → World b
  searched_world w p it e = record w { env = e; iterators = update w.iterators p (some it) }

  pub there :
      (w : World b) (p : ℕ) (it : Iterator) (e : b.Env)
      → (searched_world w p it e).iterators p ≡ some it
  there w p it e = ground arith

  value_lem :
      (p i s : ℕ) (it : Iterator) (ix : Index) (is : IndexSchema) (w : World b)
      → w.iterators p ≡ some it
      → it.end ≡ false
      → it.index ≡ some i
      → w.handles i ≡ some ix
      → ix.schema ≡ some s
      → w.schemas s ≡ some is
      → value p w ≡ (returns (some (decoded is (current it))), w)
  unfolding value
  value_lem p i s it ix is w h e k hi sc alive = rw (h, ◌>>=◌, e, k, hi, sc, alive) refl

  pub deliver_found :
      (p i s : ℕ) (it : Iterator) (ix : Index) (is : IndexSchema) (w : World b)
      (old : Option Record)
      → w.iterators p ≡ some it
      → it.end ≡ false
      → it.index ≡ some i
      → w.handles i ≡ some ix
      → ix.schema ≡ some s
      → w.schemas s ≡ some is
      → deliver p old true w ≡ (returns (ok, some (decoded is (current it))), w)
  unfolding deliver
  deliver_found p i s it ix is w old h e k hi sc alive =
      rw (h, ◌>>=◌, e, value_lem p i s it ix is w h e k hi sc alive) refl

  pub deliver_ended :
      (p : ℕ) (it : Iterator) (w : World b) (old : Option Record)
      → w.iterators p ≡ some it
      → it.end ≡ true
      → deliver p old true w ≡ (returns (error_not_found, none), w)
  unfolding deliver
  deliver_ended p it w old h e = rw (h, ◌>>=◌, e) refl

  pub deliver_failed :
      (p : ℕ) (it : Iterator) (w : World b) (old : Option Record)
      → w.iterators p ≡ some it
      → deliver p old false w ≡ (returns (error_generic_failure, old), w)
  unfolding deliver
  deliver_failed p it w old h = rw (h, ◌>>=◌) refl

  unregister_lem :
      (p i : ℕ) (o : Option ℕ) (ix : Index) (w : World b)
      → o ≡ some i
      → w.handles i ≡ some ix
      → unregister_iterator o p w ≡ (
        returns tt,
        record w {
          handles = update w.handles i (some (record ix { iterators = erase p ix.iterators }));
        },
      )
  unfolding unregister_iterator
  unregister_lem p i o ix w k hi = rw k (rw (hi, ◌>>=◌) refl)

  -- Closing an iterator that has given up its cursor.
  pub close_without_cursor :
      (p i : ℕ) (it : Iterator) (ix : Index) (w : World b)
      → w.iterators p ≡ some it
      → it.cursor ≡ none
      → it.index ≡ some i
      → w.handles i ≡ some ix
      → (w' : World b) × (it' : Iterator) × (close_iterator p w ≡ (returns tt, w'))
        × (w'.iterators p ≡ some it')
  unfolding close_iterator
  close_without_cursor p i it ix w h n k hi =
      let w1 = searched_world w p it w.env in
      let w2 : World b = record w1 {
        iterators = update w1.iterators p (some (record it { closed = true }));
      } in
      let w3 : World b = record w2 {
        handles = update w2.handles i (some (record ix { iterators = erase p ix.iterators }));
      } in
      elim (Bool-cases it.closed) [
        | inl c ↦ (
          w1,
          it,
          rw (h, close_cursor_lem b it w.env n, ◌>>=◌, there w p it w.env, c) refl,
          there w p it w.env,
        )
        | inr c ↦ (
          w3,
          record it { closed = true },
          rw (h, close_cursor_lem b it w.env n, ◌>>=◌, there w p it w.env)
              (choose_second it.closed _ _ w1 c ∙ unregister_lem p i it.index ix w2 k hi),
          ground arith,
        )
      ]
