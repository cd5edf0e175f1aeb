-- ===== src/Api/Erasure.antt =====
-- DeleteRecord without modifiers takes one entry out of the index.
use mathlib.Core.List.{Perm}
use sigmod2012contest.Base.{
  ℕ, ◌≡◌, ◌⊎◌, refl, ap, ◌∙◌, inl, inr, true, false, none, some, List, ◌∷◌,
}
use sigmod2012contest.Interface.{
  AttributeType, ErrorCode, ok, error_not_found, error_generic_failure, Record, match_duplicates,
  ignore_payload,
}
use sigmod2012contest.Bdb.{Bdb, Outcome, returns, ◌>>=◌, pure, success, Entry}
use sigmod2012contest.Schema.{
  IndexSchema, schema_compatible, schema_compatible-has_values, has_values,
}
use sigmod2012contest.Objects.{World, Index}
use sigmod2012contest.Indexes.{delete, in_nested_transaction}
use sigmod2012contest.Api.{delete_record, with_record, handled, deadlock_or_failure}
use sigmod2012contest.Api.Arguments.{no_index_lem, compatible_lem}
use sigmod2012contest.Api.Putting.{IsReady}
use sigmod2012contest.Api.Changing.{
  Matches, HasNoMatch, Searches, target, changing, nested-EntryChanged,
}

-- What the documentation says of a deletion by a cursor that does not fail: the entry under the cursor
-- is deleted.
pub record Erases (b : Bdb) (db : ℕ) (ts : List AttributeType) : Type 0 where
  pub searches : Searches b db ts
  pub erases :
      (c : ℕ) (x : Entry) (e : b.Env)
      → searches.current c e ≡ some x
      → (e' : b.Env) × (b.cursor_del c e ≡ (returns success, e'))
        × Perm (searches.contents e) (x ∷ searches.contents e')

-- Entries before a deletion and after it.
abbrev WithoutOne : Entry → List Entry → List Entry → Type 0
WithoutOne x before after = Perm before (x ∷ after)

module _ {b : Bdb} where
  -- Either kOk is returned and one entry that matches the record is taken out of the index, or
  -- kErrorNotFound is returned, no entry of the index matches, and nothing is taken out.
  abbrev pub Erased :
      {db : ℕ} (is : IndexSchema)
      → Erases b db is.type
      → ℕ
      → Record
      → World b
      → Outcome ErrorCode × World b
      → Type 0
  Erased is p s r w out =
      let after = p.searches.contents out.1.env in
      let before = p.searches.contents w.env in
      let x = target w s is r in
      ((out.0 ≡ returns ok) × (z : Entry) × Matches is.type x z × WithoutOne z before after)
      ⊎ ((out.0 ≡ returns error_not_found) × HasNoMatch is.type x before × (after ≡ before))

  delete_lem :
      (fuel i flags : ℕ) (r : Record) (w : World b) {db : ℕ} {ts : List AttributeType}
      (p : Erases b db ts)
      → delete fuel i none r flags w
        ≡ in_nested_transaction i none r.key
            (changing p.searches b.cursor_del WithoutOne fuel flags r error_generic_failure)
            w
  unfolding delete
  delete_lem fuel i flags r w p = refl

  delete-Erased :
      {db : ℕ} (is : IndexSchema) (p : Erases b db is.type) (w : World b) (fuel i s flags : ℕ)
      (ix : Index) (r : Record)
      → IsReady w i s db ix is none
      → is.read_only ≡ false
      → match_duplicates flags ≡ false
      → ignore_payload flags ≡ false
      → has_values is.type r.key.value ≡ true
      → Erased is p s r w
          (handled (delete fuel i none r flags w) (λ e. pure (deadlock_or_failure e)))
  delete-Erased is p w fuel i s flags ix r h writable one exact whole =
      let (w', outcome) =
        nested-EntryChanged p.searches b.cursor_del WithoutOne w fuel i s flags ix is r
          error_generic_failure h writable one exact p.erases whole in
      elim outcome [
        | inl done ↦ rw (delete_lem fuel i flags r w p, done.0) (inl (refl, done.1, done.2, done.3))
        | inr out ↦ rw (delete_lem fuel i flags r w p, out.0) (inr (refl, out.1, out.2))
      ]

  -- DeleteRecord without modifiers and outside a transaction is the removal of one element of a
  -- multiset of entries. On an open index that takes writers, of a record whose key is compatible with
  -- the columns, where no call of Berkeley DB fails: either kOk is returned and the entries before the
  -- call are those after it and one more, whose key keycmp takes for that of the record and
  -- whose value is the payload, in some order; or kErrorNotFound is returned, the index has no
  -- such entry, and its entries stay as they are.
  pub delete_record-Erased :
      {db : ℕ} (is : IndexSchema) (p : Erases b db is.type) (w : World b) (fuel i s flags : ℕ)
      (ix : Index) (r : Record)
      → IsReady w i s db ix is none
      → is.read_only ≡ false
      → schema_compatible is r.key ≡ some true
      → match_duplicates flags ≡ false
      → ignore_payload flags ≡ false
      → Erased is p s r w (delete_record fuel none (some i) (some r) flags w)
  unfolding delete_record with_record
  delete_record-Erased is p w fuel i s flags ix r h writable fits one exact =
      let known = no_index_lem i ix w h.handle ∙ ap (λ z. (returns z, w)) h.opened in
      let fit = compatible_lem i s ix is r.key true w h.handle h.opened h.schema h.alive fits in
      rw (known, ◌>>=◌, fit)
        (delete-Erased is p w fuel i s flags ix r h writable one exact
          (schema_compatible-has_values is r.key fits))
