-- ===== src/Tests/Iterators.antt =====
-- An iterator over the shelf: its range holds the first two of the four entries.
use sigmod2012contest.Base.{◌≡◌, refl, true, false, some, [], ◌∷◌, arith}
use sigmod2012contest.Keys.{key_cmp, key_cmp_loop, attribute_cmp, short_value, little_endian}
use sigmod2012contest.Bdb.{returns}
use sigmod2012contest.Objects.{Iterator}
use sigmod2012contest.Iterators.{
  new_iterator, search_next, first_get, next_loop, set_ended, close_cursor,
}
use sigmod2012contest.Iterators.Search.{wanted}
use sigmod2012contest.Iterators.Traversal.{IsReady}
use sigmod2012contest.Iterators.Collect.{traverse, Collects, traverse-wanted}
use sigmod2012contest.Tests.Shelf.{
  columns, pair, entry, shelf, working, working-ReadsInOrder, shelf-AreSorted,
}

abbrev pub fresh_iterator : Iterator
fresh_iterator = record new_iterator {
  index = some 20;
  is = some 10;
  cursor = some 3;
  min_key = pair 1 3;
  max_key = pair 2 5;
  key = pair 1 3;
  closed = false;
  key_set = true;
}

traverse_shelf :
    (traverse working 5 5 columns (fresh_iterator, [])).0 ≡ returns (entry 1 5 ∷ entry 2 3 ∷ [])
unfolding traverse search_next first_get next_loop set_ended close_cursor key_cmp key_cmp_loop
    attribute_cmp short_value little_endian
traverse_shelf = refl

pub fresh-IsReady : IsReady working columns 3 working-ReadsInOrder fresh_iterator []
unfolding working-ReadsInOrder
fresh-IsReady = record {
  open_cursor = refl;
  going = refl;
  in_order = shelf-AreSorted;
  from_min = λ h. refl;
}

traverse-wanted_example :
    Collects
      (wanted columns fresh_iterator shelf)
      (traverse working 5 5 columns (fresh_iterator, []))
unfolding working-ReadsInOrder
traverse-wanted_example =
    traverse-wanted working columns 3 working-ReadsInOrder 5 5 fresh_iterator [] fresh-IsReady
      (omega arith) (omega arith)
