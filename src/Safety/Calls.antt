-- ===== src/Safety/Calls.antt =====
-- InsertRecord, UpdateRecord, DeleteRecord and GetRecords of example/BDBImpl.cc keep clear of undefined
-- behaviour in every consistent state.
use sigmod2012contest.Base.{ℕ, ◌≡◌, List, true, Option, none, some}
use sigmod2012contest.Interface.{AttributeType, Key, Record}
use sigmod2012contest.Bdb.{Bdb, ◌>>◌}
use sigmod2012contest.Schema.{IndexSchema, has_values}
use sigmod2012contest.Objects.{World, Index}
use sigmod2012contest.Safety.{Operands}

-- The operands without the iterator that is being set up.
abbrev without_iterator : Operands → Operands
without_iterator x = record x { iterator = none }

-- The key of a record that is not NULL has a value, or NULL, for each column.
abbrev pub HasValues : List AttributeType → Option Record → Type 0
HasValues ts none = Unit {0}
HasValues ts (some r) = has_values ts r.key.value ≡ true

module _ {b : Bdb} where
  -- The arrays of values of a call have an entry for each column of the index, if the handle is open.
  abbrev pub HasArrays : World b → Index → Option Record → Key → Key → Type 0
  HasArrays w ix r min_keys max_keys =
      (s : ℕ) (is : IndexSchema)
      → ix.schema ≡ some s
      → w.schemas s ≡ some is
      → HasValues is.type r
        × (has_values is.type min_keys.value ≡ true)
        × (has_values is.type max_keys.value ≡ true)
