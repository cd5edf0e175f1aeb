-- ===== src/Closing/Deletion.antt =====
-- Deleting an index that is written to is refused; closing a handle closes its iterators.
use sigmod2012contest.Base.{
  ℕ, ◌≡◌, refl, sym, ap, ◌∙◌, ◌⊎◌, inl, inr, true, false, some, ◌==◌, Bool-cases, arith,
}
use sigmod2012contest.Containers.Text.{Text}
use sigmod2012contest.Containers.Map
use sigmod2012contest.Interface.{error_open_transactions}
use sigmod2012contest.Bdb.{Bdb, returns, ◌>>=◌}
use sigmod2012contest.Schema.{IndexSchema}
use sigmod2012contest.Schema.Writers.{writes, make_read_only_refused}
use sigmod2012contest.Objects.{World, update}
use sigmod2012contest.Closing.{remove_index}

module _ {b : Bdb} where
  -- IndexManager::Remove of an index with a registered writer reports open transactions. The index
  -- stays in the map, all handles stay as they are, and so do all registrations.
  pub remove_index_refused :
      (name : Text) (s tid : ℕ) (is : IndexSchema) (w : World b)
      → Map.find name w.indices ≡ some s
      → w.schemas s ≡ some is
      → writes tid is ≡ true
      → (w' : World b) × (remove_index name w ≡ (returns error_open_transactions, w'))
        × (w'.indices ≡ w.indices)
        × (w'.handles ≡ w.handles)
        × (w'.transactions ≡ w.transactions)
        × ((q : ℕ) → w'.schemas q ≡ w.schemas q)
  unfolding remove_index
  remove_index_refused name s tid is w found alive writer =
      let w' : World b = record w { schemas = update w.schemas s (some is) } in
      (
        w',
        rw (found, alive, ◌>>=◌, make_read_only_refused is tid writer),
        refl,
        refl,
        refl,
        λ q. same q (Bool-cases (q == s)),
      )
    where
      same :
          (q : ℕ)
          → ((q == s) ≡ true) ⊎ ((q == s) ≡ false)
          → update w.schemas s (some is) q ≡ w.schemas q
      same q (inl e) = let at : q ≡ s = ground arith in rw e (sym (ap w.schemas at ∙ alive))
      same q (inr e) = rw e
