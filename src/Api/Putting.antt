-- ===== src/Api/Putting.antt =====
-- Index::Insert, up to the put and after it.
use sigmod2012contest.Base.{
  ℕ, ◌≡◌, refl, ap, ◌∙◌, inl, inr, Bool, true, false, Option, none, some, Bool-cases, if◌then◌else◌,
  arith,
}
use sigmod2012contest.Containers.AddressSet
use sigmod2012contest.Containers.AddressSet.{mem}
use sigmod2012contest.Interface.{
  ErrorCode, ok, error_generic_failure, error_unknown_index, Key, Record,
}
use sigmod2012contest.Bdb.{Bdb, M, returns, resume, ◌>>=◌, ◌>>◌, pure, Code, Entry}
use sigmod2012contest.Schema.{IndexSchema, get_bdb_key, has_values, begin_transaction}
use sigmod2012contest.Objects.{World, Transaction, Index, update, free_new}
use sigmod2012contest.Transactions.{use_index}
use sigmod2012contest.Indexes.{insert, enlist, is_success, parent_tid}

-- The key is made of the columns of the schema only.
get_bdb_key_same :
    (s fresh fresh' : ℕ) (is is' : IndexSchema) (k : Key)
    → is'.type ≡ is.type
    → fresh' ≡ fresh
    → get_bdb_key s fresh' is' k false ≡ get_bdb_key s fresh is k false
unfolding get_bdb_key
get_bdb_key_same s fresh fresh' is is' k same e = rw (same, e) refl

abbrev id_of : Option Transaction → ℕ
id_of none = 0
id_of (some t) = t.tid

module _ {b : Bdb} where
  -- The DbTxn of the transaction of the caller, NULL if there is none.
  abbrev pub transaction_id : World b → Option ℕ → ℕ
  transaction_id w none = 0
  transaction_id w (some t) = id_of (w.transactions t)

  -- A handle that is open on the schema at s and the database db, and a transaction that is allocated,
  -- if there is one.
  pub record IsReady (w : World b) (i s db : ℕ) (ix : Index) (is : IndexSchema) (tx : Option ℕ)
      : Type 0 where
    pub handle : w.handles i ≡ some ix
    pub opened : ix.closed ≡ false
    pub schema : ix.schema ≡ some s
    pub database : ix.db ≡ some db
    pub alive : w.schemas s ≡ some is
    pub transaction : (t : ℕ) → tx ≡ some t → (t' : Transaction) × (w.transactions t ≡ some t')

  pub record Enlisted (w w' : World b) (s : ℕ) (is : IndexSchema) (tx : Option ℕ) : Type 0 where
    pub env : w'.env ≡ w.env
    pub fresh : w'.fresh ≡ w.fresh
    pub frees : w'.free_takes_new ≡ w.free_takes_new
    pub schema : (is' : IndexSchema) × (w'.schemas s ≡ some is') × (is'.type ≡ is.type)
    pub parent : parent_tid tx w' ≡ (returns (transaction_id w tx), w')

  pub enlist_lem :
      (w : World b) (i s db : ℕ) (ix : Index) (is : IndexSchema) (tx : Option ℕ)
      → IsReady w i s db ix is tx
      → (accepted : Bool) × (w' : World b) × (enlist tx s w ≡ (returns accepted, w'))
        × (accepted ≡ false → is.read_only ≡ true)
        × Enlisted w w' s is tx
  unfolding enlist use_index parent_tid begin_transaction
  enlist_lem w i s db ix is none h = (
    true,
    w,
    refl,
    (λ q. absurd (ground arith)),
    record { env = refl; fresh = refl; frees = refl; schema = (is, h.alive, refl); parent = refl },
  )
  enlist_lem w i s db ix is (some t) h =
      let (t', at) = h.transaction t refl in
      elim (Bool-cases (mem s t'.indices)) [
        | inl used ↦ (
          true,
          w,
          rw (at, ◌>>=◌, used),
          (λ q. absurd (ground arith)),
          record {
            env = refl;
            fresh = refl;
            frees = refl;
            schema = (is, h.alive, refl);
            parent = rw (at, ◌>>=◌) refl;
          },
        )
        | inr new ↦
            let w' : World b = record w {
              transactions =
                  update w.transactions t
                    (some (record t' { indices = AddressSet.insert s t'.indices }));
              schemas = update w.schemas s (some (begin_transaction t'.tid is).1);
            } in
            (
              (begin_transaction t'.tid is).0,
              w',
              rw (at, ◌>>=◌, new, h.alive) refl,
              (λ q. ground arith),
              record {
                env = refl;
                fresh = refl;
                frees = refl;
                schema = ((begin_transaction t'.tid is).1, ground arith, ground arith);
                parent = rw at (ground arith);
              },
            )
      ]

  -- What follows the put.
  unfoldable pub status : Code → M (World b) ErrorCode
  unfolding free_new
  status code = free_new >> pure (if is_success code then ok else error_generic_failure)

  unfoldable pub stored_entry : World b → ℕ → IndexSchema → Record → Entry
  stored_entry w s is r = record {
    key = get_bdb_key s w.fresh is r.key false;
    value = r.payload.bytes;
  }

  pub insert_accepted :
      (w w' : World b) (i s db : ℕ) (ix : Index) (is : IndexSchema) (tx : Option ℕ) (r : Record)
      → IsReady w i s db ix is tx
      → has_values is.type r.key.value ≡ true
      → enlist tx s w ≡ (returns true, w')
      → (l : Enlisted w w' s is tx)
      → let (o, e) = b.db_put db (transaction_id w tx) (stored_entry w s is r) w.env in
        insert i tx r w ≡ resume (o, record w' { env = e }) status
  unfolding insert stored_entry status
  insert_accepted w w' i s db ix is tx r h whole e l =
      let (is', at, same) = l.schema in
      let whole' : has_values is'.type r.key.value ≡ true =
        ap (λ ts. has_values ts r.key.value) same ∙ whole in
      rw
        (
          h.handle,
          ◌>>=◌,
          h.schema,
          e,
          at,
          whole',
          h.database,
          l.parent,
          get_bdb_key_same s w.fresh w'.fresh is is' r.key same l.fresh,
          l.env,
        )
        refl

  pub insert_refused :
      (w w' : World b) (i s db : ℕ) (ix : Index) (is : IndexSchema) (tx : Option ℕ) (r : Record)
      → IsReady w i s db ix is tx
      → enlist tx s w ≡ (returns false, w')
      → insert i tx r w ≡ (returns error_unknown_index, w')
  unfolding insert
  insert_refused w w' i s db ix is tx r h e = rw (h.handle, ◌>>=◌, h.schema, e) refl
