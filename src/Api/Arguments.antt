-- ===== src/Api/Arguments.antt =====
-- The tests with which the interface functions begin.
use sigmod2012contest.Base.{ℕ, ◌≡◌, Bool, false, some, arith}
use sigmod2012contest.Interface.{Key}
use sigmod2012contest.Bdb.{Bdb, returns, ◌>>=◌}
use sigmod2012contest.Schema.{IndexSchema, schema_compatible}
use sigmod2012contest.Objects.{World, Index}
use sigmod2012contest.Indexes.{compatible}
use sigmod2012contest.Api.{no_index}

module _ {b : Bdb} where
  pub no_index_lem :
      (i : ℕ) (ix : Index) (w : World b)
      → w.handles i ≡ some ix
      → no_index (some i) w ≡ (returns ix.closed, w)
  unfolding no_index
  no_index_lem i ix w h = rw (h, ◌>>=◌)

  pub compatible_lem :
      (i s : ℕ) (ix : Index) (is : IndexSchema) (key : Key) (c : Bool) (w : World b)
      → w.handles i ≡ some ix
      → ix.closed ≡ false
      → ix.schema ≡ some s
      → w.schemas s ≡ some is
      → schema_compatible is key ≡ some c
      → compatible i key w ≡ (returns c, w)
  unfolding compatible
  compatible_lem i s ix is key c w h o p q fits = rw (h, ◌>>=◌) (ground arith)
