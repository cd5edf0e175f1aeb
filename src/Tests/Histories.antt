-- ===== src/Tests/Histories.antt =====
-- Histories of calls on the shelf.
use sigmod2012contest.Base.{true, false, none, some, []}
use sigmod2012contest.Containers.Text.{text_eq}
use sigmod2012contest.Containers.Map
use sigmod2012contest.Bdb.{next}
use sigmod2012contest.Objects.{World, Index}
use sigmod2012contest.Closing.{insert_index, find_index}
use sigmod2012contest.Indexes.{open_index_at, open_found}
use sigmod2012contest.Api.{create_index, open_index, begin_transaction}
use sigmod2012contest.Consistency.{IsConsistent}
use sigmod2012contest.Consistency.History.{
  creates, opens, begins, perform, Reach, started, reached-IsConsistent,
}
use sigmod2012contest.Tests.Shelf.{columns, working}
use sigmod2012contest.Tests.Objects.{name}

-- The state after CreateIndex, OpenIndex and BeginTransaction: the schema is at 1, the handle at 2 and
-- the transaction at 3.
abbrev begun : World working
begun =
    (perform (begins true)
      (perform (opens (some name) none)
        (perform {b = working} (creates (some name) 2 (some columns)) (started [] 1 true)).1).1).1

a_history : Reach (started [] 1 true) begun
unfolding perform create_index open_index open_index_at open_found insert_index find_index Map.find
    Map.assign text_eq begin_transaction
a_history =
    Reach.next
      (Reach.next (Reach.next Reach.here (creates (some name) 2 (some columns)) tt tt)
        (opens (some name) none) tt tt)
      (begins true) tt tt

reached-IsConsistent_example : IsConsistent begun
reached-IsConsistent_example = reached-IsConsistent [] 1 true a_history

abbrev begun_handle : Index
begun_handle = record { name = name; db = some 6; schema = some 1; closed = false; iterators = [] }
