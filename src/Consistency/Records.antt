-- ===== src/Consistency/Records.antt =====
-- The methods of Index and Iterator that read and write records, example/index.cc and
-- example/iterator.cc, are quiet.
use sigmod2012contest.Base.{ℕ, suc, Bool, true, false, Option, none, some, ◌||◌}
use sigmod2012contest.Containers.Text.{Text, text_eq}
use sigmod2012contest.Interface.{ErrorCode, Key, Record, Block}
use sigmod2012contest.Bdb.{Bdb, M, Code, Entry, Position}
use sigmod2012contest.Schema.{IndexSchema}
use sigmod2012contest.Iterators.{Verdict, found, ended, failed}
use sigmod2012contest.Indexes.{
  is_success, parent_tid, bdb_key, compatible, enlist, insert, duplicates_loop, find_first,
  change_matching, in_nested_transaction, update, delete, init_iterator, after_search, next, value,
}
use sigmod2012contest.Objects.{World, Index, bdb}
use sigmod2012contest.Consistency.{Quiet-refl}
use sigmod2012contest.Consistency.Steps.{
  IsQuiet, bind-IsQuiet, bdb-IsQuiet, if-IsQuiet, pure-IsQuiet, loaded-IsQuiet, free_new-IsQuiet,
  quiet_steps,
}
use sigmod2012contest.Consistency.Writers.{begin_at-IsQuiet, end_at-IsQuiet, use_index-IsQuiet}
use sigmod2012contest.Consistency.Closers.{close_iterator-IsQuiet, register_iterator-IsQuiet}

module _ {b : Bdb} where
  parent_tid-IsQuiet : (tx : Option ℕ) → IsQuiet (parent_tid {b = b} tx)
  unfolding parent_tid
  parent_tid-IsQuiet none = search quiet_steps
  parent_tid-IsQuiet (some t) = search quiet_steps

  bdb_key-IsQuiet : (ix : Index) (key : Key) (max : Bool) → IsQuiet (bdb_key {b = b} ix key max)
  unfolding bdb_key
  bdb_key-IsQuiet ix key max = search quiet_steps

  pub compatible-IsQuiet : (i : ℕ) (key : Key) → IsQuiet (compatible {b = b} i key)
  unfolding compatible
  compatible-IsQuiet i key = search (quiet_steps, loaded-IsQuiet)

  enlist-IsQuiet : (tx : Option ℕ) (s : ℕ) → IsQuiet (enlist {b = b} tx s)
  unfolding enlist
  enlist-IsQuiet none s = search quiet_steps
  enlist-IsQuiet (some t) s = use_index-IsQuiet t s

  pub insert-IsQuiet : (i : ℕ) (tx : Option ℕ) (r : Record) → IsQuiet (insert {b = b} i tx r)
  unfolding insert
  insert-IsQuiet i tx r =
      search (quiet_steps, enlist-IsQuiet, bdb_key-IsQuiet, parent_tid-IsQuiet, free_new-IsQuiet)
        depth 20

  duplicates_loop-IsQuiet :
      (fuel c : ℕ) (ignore : Bool) (payload : Text) (act : M (World b) Code) (x : Entry)
      → IsQuiet act
      → IsQuiet (duplicates_loop fuel c ignore payload act x)
  unfolding duplicates_loop
  duplicates_loop-IsQuiet ℕ.zero c ignore payload act x q = record { at = Quiet-refl }
  duplicates_loop-IsQuiet (suc fuel) c ignore payload act x q =
      bind-IsQuiet (bdb (b.cursor_get c Position.next_dup x)) _
        (bdb-IsQuiet (b.cursor_get c Position.next_dup x))
        λ r.
          let again = duplicates_loop-IsQuiet fuel c ignore payload act r.1 q in
          if-IsQuiet (is_success r.0) _ _
            (if-IsQuiet (ignore || text_eq r.1.value payload) _ _
              (bind-IsQuiet act _ q λ e. if-IsQuiet (is_success e) _ _ again (pure-IsQuiet e))
              again)
            (pure-IsQuiet r.0)

  find_first-IsQuiet :
      (c : ℕ) (is : IndexSchema) (ignore : Bool) (key payload : Text)
      → IsQuiet (find_first {b = b} c is ignore key payload)
  unfolding find_first
  find_first-IsQuiet c is true key payload = search quiet_steps
  find_first-IsQuiet c is false key payload = search quiet_steps

  change_matching-IsQuiet :
      (fuel c : ℕ) (is : IndexSchema) (s : ℕ) (tx : Option ℕ) (r : Record) (flags : ℕ) (key : Text)
      (act : M (World b) Code) (late : ErrorCode)
      → IsQuiet act
      → IsQuiet (change_matching fuel c is s tx r flags key act late)
  unfolding change_matching
  change_matching-IsQuiet fuel c is s tx r flags key act late q =
      search (quiet_steps, find_first-IsQuiet, enlist-IsQuiet, duplicates_loop-IsQuiet) depth 20

  in_nested_transaction-IsQuiet :
      (i : ℕ) (tx : Option ℕ) (k : Key) (body : ℕ → IndexSchema → ℕ → Text → M (World b) ErrorCode)
      → ((s : ℕ) (is : IndexSchema) (c : ℕ) (key : Text) → IsQuiet (body s is c key))
      → IsQuiet (in_nested_transaction i tx k body)
  unfolding in_nested_transaction
  in_nested_transaction-IsQuiet i tx k body q =
      search (quiet_steps, bdb_key-IsQuiet, parent_tid-IsQuiet, begin_at-IsQuiet, end_at-IsQuiet)
        depth 30

  pub update-IsQuiet :
      (fuel i : ℕ) (tx : Option ℕ) (r : Record) (payload : Block) (flags : ℕ)
      → IsQuiet (update {b = b} fuel i tx r payload flags)
  unfolding update
  update-IsQuiet fuel i tx r payload flags =
      search (quiet_steps, in_nested_transaction-IsQuiet, change_matching-IsQuiet)

  pub delete-IsQuiet :
      (fuel i : ℕ) (tx : Option ℕ) (r : Record) (flags : ℕ)
      → IsQuiet (delete {b = b} fuel i tx r flags)
  unfolding delete
  delete-IsQuiet fuel i tx r flags =
      search (quiet_steps, in_nested_transaction-IsQuiet, change_matching-IsQuiet)

  pub init_iterator-IsQuiet :
      (p : ℕ) (tx : Option ℕ) (i : ℕ) (min_keys max_keys : Key)
      → IsQuiet (init_iterator {b = b} p tx i min_keys max_keys)
  unfolding init_iterator
  init_iterator-IsQuiet p tx i min_keys max_keys =
      search
        (
          quiet_steps, bdb_key-IsQuiet, parent_tid-IsQuiet, close_iterator-IsQuiet,
          register_iterator-IsQuiet,
        )
        depth 30

  after_search-IsQuiet : (p : ℕ) (v : Verdict) → IsQuiet (after_search {b = b} p v)
  unfolding after_search
  after_search-IsQuiet p failed = search (quiet_steps, close_iterator-IsQuiet)
  after_search-IsQuiet p found = search quiet_steps
  after_search-IsQuiet p ended = search quiet_steps

  pub next-IsQuiet : (fuel p : ℕ) → IsQuiet (next {b = b} fuel p)
  unfolding next
  next-IsQuiet fuel p = search (quiet_steps, after_search-IsQuiet) depth 10

  pub value-IsQuiet : (p : ℕ) → IsQuiet (value {b = b} p)
  unfolding value
  value-IsQuiet p = search quiet_steps depth 10
