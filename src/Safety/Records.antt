-- ===== src/Safety/Records.antt =====
-- Index::Insert, Update and Delete and Iterator::Init, on operands that are there.
use sigmod2012contest.Base.{
  ℕ, suc, ◌≡◌, Bool, true, false, Option, none, some, ◌||◌, refl, ap, arith, List, [], ◌∷◌,
  Bool-cases, inl, inr, ◌==◌,
}
use sigmod2012contest.Containers.Text.{Text, text_eq}
use sigmod2012contest.Interface.{AttributeType, Attribute, ErrorCode, Key, Record, Block}
use sigmod2012contest.Bdb.{Bdb, M, Code, Entry, Position}
use sigmod2012contest.Schema.{
  IndexSchema, begin_transaction, end_transaction, has_values, types_match, schema_compatible,
  type_eq,
}
use sigmod2012contest.Objects.{World, Index, bdb, get_world}
use sigmod2012contest.Transactions.{begin_at, end_at, use_index}
use sigmod2012contest.Indexes.{
  is_success, parent_tid, bdb_key, compatible, enlist, insert, duplicates_loop, find_first,
  change_matching, in_nested_transaction, update, delete,
}
use sigmod2012contest.Safety.{
  Operands, IsDefined, EndsAlways, bind-IsDefined, bdb-IsDefined, if-IsDefined, pure-IsDefined,
  get_world-IsDefined, loaded-IsDefined,
}
use sigmod2012contest.Safety.Access.{
  safe_steps, read_pointer, read_schema, read_handle, free_new-IsDefined,
}

begin_transaction-type :
    (tid : ℕ) (is : IndexSchema) (ts : List AttributeType)
    → is.type ≡ ts
    → (begin_transaction tid is).1.type ≡ ts
unfolding begin_transaction
begin_transaction-type tid is ts h = ground arith

end_transaction-type :
    (tid : ℕ) (is : IndexSchema) (ts : List AttributeType)
    → is.type ≡ ts
    → (end_transaction tid is).type ≡ ts
unfolding end_transaction
end_transaction-type tid is ts h = h

types_match-has_values :
    (ts : List AttributeType) (vs : List (Option Attribute))
    → has_values ts vs ≡ true
    → (c : Bool) × (types_match ts vs ≡ some c)
unfolding types_match has_values
types_match-has_values [] vs h = (true, refl)
types_match-has_values (t ∷ ts) [] h = absurd (ground arith)
types_match-has_values (t ∷ ts) (none ∷ vs) h = types_match-has_values ts vs h
types_match-has_values (t ∷ ts) (some a ∷ vs) h =
    let (c, e) = types_match-has_values ts vs h in
    elim (Bool-cases (type_eq a.type t)) [ inl y ↦ (c, rw y e) | inr n ↦ (false, rw n refl) ]

schema_compatible_ends :
    (is : IndexSchema) (ts : List AttributeType) (key : Key)
    → is.type ≡ ts
    → has_values ts key.value ≡ true
    → (c : Bool) × (schema_compatible is key ≡ some c)
unfolding schema_compatible
schema_compatible_ends is ts key same h =
    let (c, e) = types_match-has_values is.type key.value (rw same h) in
    elim (Bool-cases (key.attribute_count == is.attribute_count)) [
      | inl y ↦ (c, rw y e)
      | inr n ↦ (false, rw n refl)
    ]

module _ {b : Bdb} {x : Operands} (ends : EndsAlways b) where
  begin_at-IsDefined : (tid : ℕ) → IsDefined x (begin_at {b = b} x.schema tid)
  unfolding begin_at
  begin_at-IsDefined tid = search (safe_steps, begin_transaction-type)

  end_at-IsDefined : (tid : ℕ) → IsDefined x (end_at {b = b} x.schema tid)
  unfolding end_at
  end_at-IsDefined tid = search safe_steps

  use_index-IsDefined :
      (t : ℕ) → x.transaction ≡ some t → IsDefined x (use_index {b = b} t x.schema)
  unfolding use_index
  use_index-IsDefined t e = search (safe_steps, begin_at-IsDefined) depth 10

  enlist-IsDefined : (o : Option ℕ) → x.transaction ≡ o → IsDefined x (enlist {b = b} o x.schema)
  unfolding enlist
  enlist-IsDefined none e = search safe_steps
  enlist-IsDefined (some t) e = use_index-IsDefined t e

  pub parent_tid-IsDefined : (o : Option ℕ) → x.transaction ≡ o → IsDefined x (parent_tid {b = b} o)
  unfolding parent_tid
  parent_tid-IsDefined none e = search safe_steps
  parent_tid-IsDefined (some t) e = search safe_steps

  pub bdb_key-IsDefined :
      (ix : Index) (key : Key) (max : Bool)
      → ix.schema ≡ some x.schema
      → has_values x.types key.value ≡ true
      → IsDefined x (bdb_key {b = b} ix key max)
  unfolding bdb_key
  bdb_key-IsDefined ix key max e whole = read_pointer ix.schema x.schema _ e (
      read_schema (some x.schema) _ refl λ is same.
        bind-IsDefined get_world _ get_world-IsDefined λ w.
          if-IsDefined (has_values is.type key.value) _ _ (λ _. pure-IsDefined _)
            λ n. absurd (ground (arith, n, whole, ap (λ ts. has_values ts key.value) same)))

  pub compatible-IsDefined :
      (key : Key)
      → has_values x.types key.value ≡ true
      → IsDefined x (compatible {b = b} x.handle key)
  unfolding compatible
  compatible-IsDefined key whole = read_handle _ λ ix o s d.
      if-IsDefined ix.closed _ _ (λ _. pure-IsDefined false)
        λ _.
          read_schema ix.schema _ s
            λ is same. loaded-IsDefined _ (schema_compatible_ends is x.types key same whole)

  pub insert-IsDefined :
      (r : Record)
      → has_values x.types r.key.value ≡ true
      → IsDefined x (insert {b = b} x.handle x.transaction r)
  unfolding insert
  insert-IsDefined r whole =
      search
        (
          safe_steps, enlist-IsDefined, bdb_key-IsDefined, parent_tid-IsDefined, ends.db_put,
          free_new-IsDefined,
        )
        depth 20

  duplicates_loop-IsDefined :
      (fuel c : ℕ) (ignore : Bool) (payload : Text) (act : M (World b) Code) (y : Entry)
      → IsDefined x act
      → IsDefined x (duplicates_loop fuel c ignore payload act y)
  unfolding duplicates_loop
  duplicates_loop-IsDefined ℕ.zero c ignore payload act y h = record { at = λ w g. (tt, g) }
  duplicates_loop-IsDefined (suc fuel) c ignore payload act y h =
      bind-IsDefined (bdb (b.cursor_get c Position.next_dup y)) _
        (bdb-IsDefined (b.cursor_get c Position.next_dup y) (ends.cursor_get c Position.next_dup y))
        λ r.
          let again = duplicates_loop-IsDefined fuel c ignore payload act r.1 h in
          if-IsDefined (is_success r.0) _ _
            (λ _.
              if-IsDefined (ignore || text_eq r.1.value payload) _ _
                (λ _.
                  bind-IsDefined act _ h
                    λ e. if-IsDefined (is_success e) _ _ (λ _. again) (λ _. pure-IsDefined e))
                (λ _. again))
            (λ _. pure-IsDefined r.0)

  find_first-IsDefined :
      (c : ℕ) (is : IndexSchema) (ignore : Bool) (key payload : Text)
      → IsDefined x (find_first {b = b} c is ignore key payload)
  unfolding find_first
  find_first-IsDefined c is true key payload = search (safe_steps, ends.cursor_get)
  find_first-IsDefined c is false key payload = search (safe_steps, ends.cursor_get)

  change_matching-IsDefined :
      (fuel c : ℕ) (is : IndexSchema) (r : Record) (flags : ℕ) (key : Text) (act : M (World b) Code)
      (late : ErrorCode)
      → IsDefined x act
      → IsDefined x (change_matching fuel c is x.schema x.transaction r flags key act late)
  unfolding change_matching
  change_matching-IsDefined fuel c is r flags key act late h =
      search (safe_steps, find_first-IsDefined, enlist-IsDefined, duplicates_loop-IsDefined) depth
        20

  in_nested_transaction-IsDefined :
      (k : Key) (body : ℕ → IndexSchema → ℕ → Text → M (World b) ErrorCode)
      → has_values x.types k.value ≡ true
      → ((is : IndexSchema) (c : ℕ) (key : Text) → IsDefined x (body x.schema is c key))
      → IsDefined x (in_nested_transaction x.handle x.transaction k body)
  unfolding in_nested_transaction
  in_nested_transaction-IsDefined k body whole h =
      search
        (
          safe_steps, begin_transaction-type, bdb_key-IsDefined, parent_tid-IsDefined,
          ends.txn_begin, ends.txn_abort, ends.txn_commit, ends.db_cursor,
        )
        depth 30

  pub update-IsDefined :
      (fuel : ℕ) (r : Record) (payload : Block) (flags : ℕ)
      → has_values x.types r.key.value ≡ true
      → IsDefined x (update {b = b} fuel x.handle x.transaction r payload flags)
  unfolding update
  update-IsDefined fuel r payload flags whole =
      search
        (safe_steps, in_nested_transaction-IsDefined, change_matching-IsDefined, ends.cursor_put)

  pub delete-IsDefined :
      (fuel : ℕ) (r : Record) (flags : ℕ)
      → has_values x.types r.key.value ≡ true
      → IsDefined x (delete {b = b} fuel x.handle x.transaction r flags)
  unfolding delete
  delete-IsDefined fuel r flags whole =
      search
        (safe_steps, in_nested_transaction-IsDefined, change_matching-IsDefined, ends.cursor_del)
