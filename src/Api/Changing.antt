-- ===== src/Api/Changing.antt =====
-- Index::Update and Index::Delete without modifiers and outside a transaction: one entry is searched
-- for and changed inside a nested transaction.
use mathlib.Core.List.{Mem}
use sigmod2012contest.Base.{
  ℕ, ◌≡◌, ◌⊎◌, refl, sym, ap, ◌∙◌, subst, inl, inr, true, false, Option, none, some, List,
}
use sigmod2012contest.Interface.{
  ErrorCode, ok, error_not_found, Record, match_duplicates, ignore_payload,
}
use sigmod2012contest.Interface.{AttributeType}
use sigmod2012contest.Keys.{key_cmp, zero}
use sigmod2012contest.Bdb.{Bdb, M, returns, ◌>>=◌, Code, success, not_found, Entry, get_both}
use sigmod2012contest.Schema.{IndexSchema, get_bdb_key, has_values, begin_transaction}
use sigmod2012contest.Objects.{World, Index, bdb}
use sigmod2012contest.Indexes.{in_nested_transaction, change_matching, find_first, enlist_quietly}
use sigmod2012contest.Indexes.Writes.{Begins, begun_world, nested_transaction_returns}
use sigmod2012contest.Api.Putting.{IsReady}

-- What the b-tree of an index with these columns takes for the entry x: Index::Open has set keycmp as its
-- comparison of keys, and the values are the same bytes.
abbrev pub Matches : List AttributeType → Entry → Entry → Type 0
Matches ts x z = (key_cmp ts x.key z.key false ≡ zero) × (z.value ≡ x.value)

abbrev pub HasNoMatch : List AttributeType → Entry → List Entry → Type 0
HasNoMatch ts x l = (z : Entry) → Mem z l → ¬ Matches ts x z

-- What the documentation says of transactions and of the search by a cursor in a b-tree with the
-- comparison keycmp of these columns, where no call fails: the cursor is put on an entry whose
-- key compares equal and whose value is the same, if there is one.
pub record Searches (b : Bdb) (db : ℕ) (ts : List AttributeType) : Type 0 where
  pub contents : b.Env → List Entry
  pub current : ℕ → b.Env → Option Entry
  pub begins :
      (parent : ℕ) (e : b.Env)
      → (tid : ℕ) × (e' : b.Env) × (b.txn_begin parent e ≡ (returns tid, e'))
        × (contents e' ≡ contents e)
  pub opens :
      (tid : ℕ) (e : b.Env)
      → (c : ℕ) × (e' : b.Env) × (b.db_cursor db tid e ≡ (returns c, e'))
        × (contents e' ≡ contents e)
  pub finds :
      (c : ℕ) (x : Entry) (e : b.Env)
      → ((y : Entry) × (z : Entry) × (e' : b.Env) × (b.cursor_get c get_both x e
            ≡ (returns (success, y), e'))
          × (contents e' ≡ contents e)
          × (current c e' ≡ some z)
          × Matches ts x z)
        ⊎ ((y : Entry) × (e' : b.Env) × (b.cursor_get c get_both x e ≡ (returns (not_found, y), e'))
            × (contents e' ≡ contents e)
            × HasNoMatch ts x (contents e))
  pub commits :
      (tid : ℕ) (e : b.Env)
      → (e' : b.Env) × (b.txn_commit tid e ≡ (returns tt, e')) × (contents e' ≡ contents e)

-- The entry of a record.
abbrev pub target : {b : Bdb} → World b → ℕ → IndexSchema → Record → Entry
target w s is r = record { key = get_bdb_key s w.fresh is r.key false; value = r.payload.bytes }

module _ {b : Bdb} {db : ℕ} {ts : List AttributeType} (p : Searches b db ts)
    (act : ℕ → M b.Env Code) (Change : Entry → List Entry → List Entry → Type 0) where
  -- The call changes the entry under its cursor in this way.
  abbrev pub Acts : Type 0
  Acts =
      (c : ℕ) (z : Entry) (e : b.Env)
      → p.current c e ≡ some z
      → (e' : b.Env) × (act c e ≡ (returns success, e')) × Change z (p.contents e) (p.contents e')

  -- One entry that matches x is changed, or there is none.
  abbrev pub EntryChanged : Entry → World b → M (World b) ErrorCode → World b → World b → Type 0
  EntryChanged x w m v v' =
      ((m v ≡ (returns ok, v'))
        × (z : Entry) × Matches ts x z
        × Change z (p.contents w.env) (p.contents v'.env))
      ⊎ ((m v ≡ (returns error_not_found, v'))
          × HasNoMatch ts x (p.contents w.env)
          × (p.contents v'.env ≡ p.contents w.env))

  -- What Update and Delete do inside their nested transaction.
  abbrev pub changing :
      ℕ → ℕ → Record → ErrorCode → ℕ → IndexSchema → ℕ → List ℕ → M (World b) ErrorCode
  changing fuel flags r late s is c key =
      change_matching fuel c is s none r flags key (bdb (act c)) late

  change_matching-EntryChanged :
      (w v : World b) (fuel c s flags : ℕ) (is : IndexSchema) (r : Record) (late : ErrorCode)
      (key : List ℕ)
      → match_duplicates flags ≡ false
      → ignore_payload flags ≡ false
      → p.contents v.env ≡ p.contents w.env
      → let x : Entry = record { key = key; value = r.payload.bytes } in
        Acts
        → (v' : World b) × (v'.schemas ≡ v.schemas)
          × EntryChanged x w (changing fuel flags r late s is c key) v v'
  unfolding change_matching find_first enlist_quietly
  change_matching-EntryChanged w v fuel c s flags is r late key one exact same acts =
      let x : Entry = record { key = key; value = r.payload.bytes } in
      elim (p.finds c x v.env) [
        | inl found ↦
            let (y, z, e, get, kept, at, matches) = found in
            let (e', done, change) = acts c z e at in
            (
              record v { env = e' },
              refl,
              inl (
                rw (exact, ◌>>=◌, get, done, one) refl,
                z,
                matches,
                subst (λ l. Change z l (p.contents e')) (kept ∙ same) change,
              ),
            )
        | inr missing ↦
            let (y, e, get, kept, out) = missing in
            (
              record v { env = e },
              refl,
              inr (rw (exact, ◌>>=◌, get) refl, rw (sym same) out, kept ∙ same),
            )
      ]

  -- The same of the whole call.
  pub nested-EntryChanged :
      (w : World b) (fuel i s flags : ℕ) (ix : Index) (is : IndexSchema) (r : Record)
      (late : ErrorCode)
      → IsReady w i s db ix is none
      → is.read_only ≡ false
      → match_duplicates flags ≡ false
      → ignore_payload flags ≡ false
      → Acts
      → has_values is.type r.key.value ≡ true
      → (w' : World b) × EntryChanged
          (target w s is r)
          w
          (in_nested_transaction i none r.key (changing fuel flags r late))
          w
          w'
  nested-EntryChanged w fuel i s flags ix is r late h writable one exact acts whole =
      let (tid, e1, begun, same1) = p.begins 0 w.env in
      let (c, e2, opened, same2) = p.opens tid e1 in
      let v = begun_world w s tid is e2 in
      let ready : Begins w i s db tid c ix is e2 = record {
        handle = h.handle;
        schema = h.schema;
        database = h.database;
        alive = h.alive;
        writable = writable;
        begun = (e1, begun, opened);
      } in
      let (v', same, outcome) =
        change_matching-EntryChanged w v fuel c s flags (begin_transaction tid is).1 r late
          (target w s is r).key one exact (same2 ∙ same1) acts in
      let (e3, committed, same3) = p.commits tid v'.env in
      elim outcome [
        | inl done ↦
            let (w', run, _, _, _, env) =
              nested_transaction_returns w i s db tid c ix is e2 e3 r.key
                (changing fuel flags r late) ok v' ready whole done.0 (ap (λ f. f s) same)
                committed in
            let moved : p.contents w'.env ≡ p.contents v'.env = ap p.contents env ∙ same3 in
            (w', inl (run, done.1, done.2, rw moved done.3))
        | inr out ↦
            let (w', run, _, _, _, env) =
              nested_transaction_returns w i s db tid c ix is e2 e3 r.key
                (changing fuel flags r late) error_not_found v' ready whole out.0
                (ap (λ f. f s) same) committed in
            let moved : p.contents w'.env ≡ p.contents v'.env = ap p.contents env ∙ same3 in
            (w', inr (run, out.1, moved ∙ out.2))
      ]
