-- ===== src/Api/Dangling.antt =====
-- DeleteIndex where the close of a database throws, and what it leaves behind.
use sigmod2012contest.Base.{
  ℕ, ◌≡◌, refl, sym, ap, ◌∙◌, true, false, none, some, List, [], ◌∷◌, ◌==◌, arith,
}
use sigmod2012contest.Containers.Text.{Text}
use sigmod2012contest.Containers.Map
use sigmod2012contest.Bdb.{Bdb, Exception, returns, throws, faults, ◌>>=◌, ◌>>◌}
use sigmod2012contest.Schema.{IndexSchema}
use sigmod2012contest.Objects.{World, Index, update, released}
use sigmod2012contest.Closing.{
  close_index, close_iterators, close_db, close_handles, delete_schema, release_schema, find_index,
}
use sigmod2012contest.Closing.Removal.{closed_world, remove_then}
use sigmod2012contest.Indexes.{open_index_at, open_found}
use sigmod2012contest.Api.{delete_index, open_index, remove_error}

module _ {b : Bdb} where
  -- The state after Index::Close has been left by the exception.
  abbrev half_closed : World b → ℕ → Index → b.Env → World b
  half_closed w i ix e = record w {
    env = e;
    handles = update w.handles i (some (record ix { closed = true }));
  }

  close_index_throws :
      (i db : ℕ) (ix : Index) (x : Exception) (e : b.Env) (w : World b)
      → w.handles i ≡ some ix
      → ix.closed ≡ false
      → ix.iterators ≡ []
      → ix.db ≡ some db
      → b.db_close db w.env ≡ (throws x, e)
      → close_index i w ≡ (throws x, half_closed w i ix e)
  unfolding close_index close_iterators close_db
  close_index_throws i db ix x e w h o none_open d fails = ground arith

  delete_schema_throws :
      (s i : ℕ) (others hs : List ℕ) (is : IndexSchema) (x : Exception) (w w1 : World b)
      → w.schemas s ≡ some is
      → hs ≡ is.handles
      → hs ≡ i ∷ others
      → close_index i w ≡ (throws x, w1)
      → delete_schema s w ≡ (throws x, release_schema s w1)
  unfolding delete_schema close_handles released
  delete_schema_throws s i others hs is x w w1 h same e run =
      rw (h, ◌>>=◌)
        (ap (λ l. released (release_schema s) (close_handles s l w)) (sym same ∙ e)
          ∙ rw (◌>>◌, ◌>>=◌, run) refl)

  open_dangling :
      (letter s : ℕ) (name : Text) (w : World b)
      → Map.find (letter ∷ name) w.indices ≡ some s
      → w.schemas s ≡ none
      → (open_index (some (letter ∷ name)) none w).0 ≡ faults
  unfolding open_index open_index_at open_found find_index
  open_dangling letter s name w found gone =
      let here : (w.next == w.next) ≡ true = ground arith in rw (◌>>=◌, found, here, gone) refl

  -- DeleteIndex of an index without writers, whose first open handle has no open iterator and a database
  -- that Berkeley DB closes with an exception: an error is reported, the schema has been freed, and the
  -- name of the index still stands for it, so that the next OpenIndex of that name runs into undefined
  -- behaviour.
  pub delete_index_dangling :
      (letter s i db : ℕ) (name : Text) (others : List ℕ) (is : IndexSchema) (ix : Index)
      (x : Exception) (e : b.Env) (w : World b)
      → Map.find (letter ∷ name) w.indices ≡ some s
      → w.schemas s ≡ some is
      → is.transactions ≡ []
      → is.handles ≡ i ∷ others
      → w.handles i ≡ some ix
      → ix.closed ≡ false
      → ix.iterators ≡ []
      → ix.db ≡ some db
      → b.db_close db w.env ≡ (throws x, e)
      → (w' : World b) × (delete_index (some (letter ∷ name)) w ≡ (returns (remove_error x), w'))
        × (w'.schemas s ≡ none)
        × (Map.find (letter ∷ name) w'.indices ≡ some s)
        × ((open_index (some (letter ∷ name)) none w').0 ≡ faults)
  unfolding delete_index
  delete_index_dangling letter s i db name others is ix x e w found alive free registered h o
        none_open d fails =
      let w0 = closed_world w s is in
      let is' : IndexSchema = record is { read_only = true } in
      let here : w0.schemas s ≡ some is' = ground arith in
      let w' = release_schema s (half_closed w0 i ix e) in
      let gone : w'.schemas s ≡ none = ground arith in
      let run = close_index_throws i db ix x e w0 h o none_open d fails in
      let thrown =
        delete_schema_throws s i others is.handles is' x w0 (half_closed w0 i ix e) here refl
          registered run in
      (
        w',
        rw (remove_then (letter ∷ name) s is w found alive free, thrown) refl,
        gone,
        found,
        open_dangling letter s name w' found gone,
      )
