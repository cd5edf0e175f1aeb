-- ===== src/Api/Replacement.antt =====
-- UpdateRecord without modifiers replaces the value of one entry of the index.
use mathlib.Core.List.{Perm}
use sigmod2012contest.Base.{
  ℕ, ◌≡◌, ◌⊎◌, refl, ap, ◌∙◌, inl, inr, true, false, none, some, List, ◌∷◌,
}
use sigmod2012contest.Interface.{
  AttributeType, ErrorCode, ok, error_not_found, Record, Block, match_duplicates, ignore_payload,
}
use sigmod2012contest.Bdb.{Bdb, Outcome, returns, ◌>>=◌, pure, success, Entry}
use sigmod2012contest.Schema.{
  IndexSchema, schema_compatible, schema_compatible-has_values, has_values,
}
use sigmod2012contest.Objects.{World, Index}
use sigmod2012contest.Indexes.{update, in_nested_transaction}
use sigmod2012contest.Api.{update_record, with_record, handled, deadlock_memory_or_failure}
use sigmod2012contest.Api.Arguments.{no_index_lem, compatible_lem}
use sigmod2012contest.Api.Putting.{IsReady}
use sigmod2012contest.Api.Changing.{
  Matches, HasNoMatch, Searches, target, changing, nested-EntryChanged,
}

-- The entry x of `before` has this value in `after`, and the other entries are the same.
abbrev pub WithValue : List ℕ → Entry → List Entry → List Entry → Type 0
WithValue value x before after =
    (rest : List Entry) × Perm before (x ∷ rest)
    × Perm after (record { key = x.key; value = value } ∷ rest)

-- What the documentation says of a put by a cursor with DB_CURRENT that does not fail: the entry under
-- the cursor gets the new value.
pub record Replaces (b : Bdb) (db : ℕ) (ts : List AttributeType) : Type 0 where
  pub searches : Searches b db ts
  pub replaces :
      (value : List ℕ) (c : ℕ) (x : Entry) (e : b.Env)
      → searches.current c e ≡ some x
      → (e' : b.Env) × (b.cursor_put c value e ≡ (returns success, e'))
        × WithValue value x (searches.contents e) (searches.contents e')

module _ {b : Bdb} where
  -- Either kOk is returned and one entry that matches the record has the new payload, or kErrorNotFound
  -- is returned, no entry of the index matches, and nothing is changed.
  abbrev pub Replaced :
      {db : ℕ} (is : IndexSchema)
      → Replaces b db is.type
      → ℕ
      → Record
      → Block
      → World b
      → Outcome ErrorCode × World b
      → Type 0
  Replaced is p s r payload w out =
      let after = p.searches.contents out.1.env in
      let before = p.searches.contents w.env in
      let x = target w s is r in
      ((out.0 ≡ returns ok)
        × (z : Entry) × Matches is.type x z
        × WithValue payload.bytes z before after)
      ⊎ ((out.0 ≡ returns error_not_found) × HasNoMatch is.type x before × (after ≡ before))

  update_lem :
      (fuel i flags : ℕ) (r : Record) (payload : Block) (w : World b) {db : ℕ}
      {ts : List AttributeType} (p : Replaces b db ts)
      → update fuel i none r payload flags w
        ≡ in_nested_transaction i none r.key
            (changing p.searches
              (λ c. b.cursor_put c payload.bytes)
              (WithValue payload.bytes)
              fuel
              flags
              r
              error_not_found)
            w
  unfolding update
  update_lem fuel i flags r payload w p = refl

  update-Replaced :
      {db : ℕ} (is : IndexSchema) (p : Replaces b db is.type) (w : World b) (fuel i s flags : ℕ)
      (ix : Index) (r : Record) (payload : Block)
      → IsReady w i s db ix is none
      → is.read_only ≡ false
      → match_duplicates flags ≡ false
      → ignore_payload flags ≡ false
      → has_values is.type r.key.value ≡ true
      → Replaced is p s r payload w (
          handled (update fuel i none r payload flags w) (λ e. pure (deadlock_memory_or_failure e)))
  update-Replaced is p w fuel i s flags ix r payload h writable one exact whole =
      let (w', outcome) =
        nested-EntryChanged p.searches (λ c. b.cursor_put c payload.bytes) (WithValue payload.bytes)
          w fuel i s flags ix is r error_not_found h writable one exact (p.replaces payload.bytes)
          whole in
      let run = update_lem fuel i flags r payload w p in
      elim outcome [
        | inl done ↦ rw (run, done.0) (inl (refl, done.1, done.2, done.3))
        | inr out ↦ rw (run, out.0) (inr (refl, out.1, out.2))
      ]

  -- UpdateRecord without modifiers and outside a transaction replaces one element of a multiset of
  -- entries. On an open index that takes writers, of a record whose key is compatible with the columns,
  -- where no call of Berkeley DB fails: either kOk is returned, the entries before the call are one
  -- whose key keycmp takes for that of the record and whose value is its payload, and others, in some
  -- order, and those after it are that entry with the new payload and the same others; or kErrorNotFound
  -- is returned, the index has no such entry, and its entries stay as they are.
  pub update_record-Replaced :
      {db : ℕ} (is : IndexSchema) (p : Replaces b db is.type) (w : World b) (fuel i s flags : ℕ)
      (ix : Index) (r : Record) (payload : Block)
      → IsReady w i s db ix is none
      → is.read_only ≡ false
      → schema_compatible is r.key ≡ some true
      → match_duplicates flags ≡ false
      → ignore_payload flags ≡ false
      → Replaced is p s r payload w
          (update_record fuel none (some i) (some r) (some payload) flags w)
  unfolding update_record with_record
  update_record-Replaced is p w fuel i s flags ix r payload h writable fits one exact =
      let known = no_index_lem i ix w h.handle ∙ ap (λ z. (returns z, w)) h.opened in
      let fit = compatible_lem i s ix is r.key true w h.handle h.opened h.schema h.alive fits in
      rw (known, ◌>>=◌, fit)
        (update-Replaced is p w fuel i s flags ix r payload h writable one exact
          (schema_compatible-has_values is r.key fits))
