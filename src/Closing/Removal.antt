-- ===== src/Closing/Removal.antt =====
-- Deleting an index without writers: IndexManager::Remove, example/index.cc.
use sigmod2012contest.Base.{
  ℕ, ◌≡◌, refl, sym, ap, ◌∙◌, true, false, none, some, List, [], ◌∷◌, ◌==◌, if◌then◌else◌, arith,
}
use sigmod2012contest.Containers.Text.{Text, text_eq}
use sigmod2012contest.Containers.AddressSet.{mem, mem-erase}
use sigmod2012contest.Containers.Map
use sigmod2012contest.Interface.{ok}
use sigmod2012contest.Bdb.{Bdb, returns, faults, resume, ◌>>=◌, ◌>>◌, pure}
use sigmod2012contest.Schema.{IndexSchema, make_read_only, unregister_handle}
use sigmod2012contest.Objects.{World, Index, update, get_world, set_indices, released}
use sigmod2012contest.Closing.{
  remove_index, delete_schema, release_schema, close_handles, close_index, step_past,
}
use sigmod2012contest.Closing.Iterators.{ClosesCursors, AllOpen}
use sigmod2012contest.Closing.Handles.{ClosesDatabases, close_index_lem}

erased : (i : ℕ) (is : IndexSchema) → mem i (unregister_handle i is).handles ≡ false
unfolding unregister_handle
erased i is = ground (arith, mem-erase i i is.handles)

module _ {b : Bdb} where
  delete_schema_shut :
      (s : ℕ) (is : IndexSchema) (w : World b)
      → w.schemas s ≡ some is
      → is.handles ≡ []
      → delete_schema s w ≡ (returns tt, record w { schemas = update w.schemas s none })
  unfolding delete_schema close_handles released
  delete_schema_shut s is w h shut = rw (h, ◌>>=◌, shut) refl

  -- The state after MakeReadOnly has made the schema read-only.
  abbrev pub closed_world : World b → ℕ → IndexSchema → World b
  closed_world w s is = record w {
    schemas = update w.schemas s (some (record is { read_only = true }));
  }

  pub remove_then :
      (name : Text) (s : ℕ) (is : IndexSchema) (w : World b)
      → Map.find name w.indices ≡ some s
      → w.schemas s ≡ some is
      → is.transactions ≡ []
      → remove_index name w
        ≡ resume
            (delete_schema s (closed_world w s is))
            (λ _. do w' ← get_world; set_indices (Map.remove name w'.indices); pure ok)
  unfolding remove_index make_read_only
  remove_then name s is w found alive free = rw (found, ◌>>=◌, alive) (ground arith)

  -- IndexManager::Remove of an index without writers and without open handles returns kOk. Its name is
  -- then unknown and its schema is gone; other names and other schemas are as before.
  pub remove_index_lem :
      (name : Text) (s : ℕ) (is : IndexSchema) (w : World b)
      → Map.find name w.indices ≡ some s
      → w.schemas s ≡ some is
      → is.transactions ≡ []
      → is.handles ≡ []
      → (w' : World b) × (remove_index name w ≡ (returns ok, w'))
        × ((other : Text)
            → Map.find other w'.indices
              ≡ (if text_eq name other then none else Map.find other w.indices))
        × (w'.schemas s ≡ none)
        × ((q : ℕ) → (q == s) ≡ false → w'.schemas q ≡ w.schemas q)
        × (w'.handles ≡ w.handles)
  unfolding remove_index make_read_only
  remove_index_lem name s is w found alive free shut =
      let is' : IndexSchema = record is { read_only = true } in
      let w' : World b = record w {
        schemas = update (update w.schemas s (some is')) s none;
        indices = Map.remove name w.indices;
      } in
      (
        w',
        rw
            (
              remove_then name s is w found alive free,
              delete_schema_shut s is' (closed_world w s is) (ground arith) shut,
            )
            refl,
        (λ other. Map.find-remove name other w.indices),
        ground arith,
        (λ q ne. ground arith),
        refl,
      )

  step_past_erased :
      (s i : ℕ) (is : IndexSchema) (w : World b)
      → w.schemas s ≡ some (unregister_handle i is)
      → step_past s i w ≡ (faults, w)
  unfolding step_past
  step_past_erased s i is w h = rw (h, ◌>>=◌, erased i is) refl

  delete_schema_stuck :
      (s i : ℕ) (others hs : List ℕ) (is : IndexSchema) (w w1 : World b)
      → w.schemas s ≡ some is
      → hs ≡ is.handles
      → hs ≡ i ∷ others
      → close_index i w ≡ (returns tt, w1)
      → w1.schemas s ≡ some (unregister_handle i is)
      → delete_schema s w ≡ (faults, w1)
  unfolding delete_schema close_handles released
  delete_schema_stuck s i others hs is w w1 h same e run gone =
      rw (h, ◌>>=◌)
        (ap (λ l. released (release_schema s) (close_handles s l w)) (sym same ∙ e)
          ∙ rw (◌>>◌, ◌>>=◌, run, step_past_erased s i is w1 gone) refl)

module _ (b : Bdb) (cursors : ClosesCursors b) (databases : ClosesDatabases b) where
  -- IndexManager::Remove of an index without writers, of which a handle is still open, where Berkeley
  -- DB closes cursors and databases without an error: the loop over
  -- the handles goes on from an element that the closing of the handle has erased from the set, which
  -- is undefined behaviour. This is stated for an open handle, with its open iterators, that comes
  -- first in the set.
  pub remove_index_open_handle :
      (name : Text) (s i db : ℕ) (others : List ℕ) (is : IndexSchema) (ix : Index) (w : World b)
      → Map.find name w.indices ≡ some s
      → w.schemas s ≡ some is
      → is.transactions ≡ []
      → is.handles ≡ i ∷ others
      → w.handles i ≡ some ix
      → ix.closed ≡ false
      → ix.schema ≡ some s
      → ix.db ≡ some db
      → AllOpen b cursors w i ix
      → (w' : World b) × (remove_index name w ≡ (faults, w'))
  remove_index_open_handle name s i db others is ix w found alive free registered h o sc d open_ =
      let is' : IndexSchema = record is { read_only = true } in
      let w0 = closed_world w s is in
      let here : w0.schemas s ≡ some is' = ground arith in
      let (w1, run, _, schemas, _) =
        close_index_lem b cursors databases i s db ix is' w0 h o sc d here open_ in
      let gone : w1.schemas s ≡ some (unregister_handle i is') =
        ap (λ f. f s) schemas ∙ ground arith in
      (
        w1,
        remove_then name s is w found alive free
            ∙ rw (delete_schema_stuck s i others is.handles is' w0 w1 here refl registered run gone)
                refl,
      )
