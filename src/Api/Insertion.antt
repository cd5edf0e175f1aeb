-- ===== src/Api/Insertion.antt =====
-- InsertRecord adds its record to the records of the index.
use mathlib.Core.List.{Perm}
use mathlib.Core.List.Perm
use sigmod2012contest.Base.{
  ℕ, ◌≡◌, ◌≢◌, ◌⊎◌, refl, ap, ◌∙◌, subst, inl, inr, true, false, Option, some, List, ◌∷◌, map,
  Bool-cases, arith,
}
use sigmod2012contest.Interface.{ErrorCode, ok, error_generic_failure, error_unknown_index, Record}
use sigmod2012contest.Bdb.{
  Bdb, M, Outcome, returns, throws, faults, out_of_fuel, resume, ◌>>=◌, ◌>>◌, pure, Code, success,
  not_found, failure, Exception, Entry, Ends,
}
use sigmod2012contest.Schema.{
  IndexSchema, get_key, schema_compatible, schema_compatible-has_values, has_values,
}
use sigmod2012contest.Schema.RoundTrip.{Fits, IsComplete, get_key-get_bdb_key}
use sigmod2012contest.Objects.{World, Index}
use sigmod2012contest.Indexes.{insert, enlist}
use sigmod2012contest.Api.{insert_record, with_record, handled, deadlock_memory_or_failure}
use sigmod2012contest.Api.Putting.{
  IsReady, transaction_id, stored_entry, status, enlist_lem, insert_accepted, insert_refused,
}
use sigmod2012contest.Api.Arguments.{no_index_lem, compatible_lem}

-- What the documentation says of Db::put on the handle `db` of a database with duplicates, with no
-- other thread writing meanwhile: it adds the entry, or fails and changes nothing.
pub record Puts (b : Bdb) (db : ℕ) : Type 0 where
  pub contents : b.Env → List Entry
  pub ends : (tid : ℕ) (x : Entry) (e : b.Env) → Ends (b.db_put db tid x e).0
  pub adds :
      (tid : ℕ) (x : Entry) (e e' : b.Env)
      → b.db_put db tid x e ≡ (returns success, e')
      → Perm (contents e') (x ∷ contents e)
  pub refuses :
      (tid : ℕ) (x : Entry) (e e' : b.Env) (o : Outcome Code)
      → b.db_put db tid x e ≡ (o, e')
      → o ≢ returns success
      → contents e' ≡ contents e

-- The record that an entry stands for.
abbrev pub record_of : IndexSchema → Entry → Record
record_of is x = record { key = get_key is x.key; payload = record { bytes = x.value } }

no_failure_is_ok : (x : Exception) → deadlock_memory_or_failure x ≢ ok
no_failure_is_ok Exception.deadlock e = ground arith
no_failure_is_ok Exception.memory e = ground arith
no_failure_is_ok Exception.exists e = ground arith
no_failure_is_ok Exception.no_entry e = ground arith
no_failure_is_ok Exception.invalid e = ground arith
no_failure_is_ok Exception.other e = ground arith

module _ {b : Bdb} where
  -- The records of the index, in some order.
  abbrev pub records_in : {db : ℕ} → Puts b db → IndexSchema → World b → List Record
  records_in p is w = map (record_of is) (p.contents w.env)

  -- Either kOk is returned, Berkeley DB has stored the entry of the record within the transaction of the
  -- caller, and the record is added to the records of the index; or another status is returned, the
  -- records are as before, and the index is read-only or the put of that entry has not returned 0.
  abbrev pub Inserted :
      {db : ℕ}
      → Puts b db
      → ℕ
      → IndexSchema
      → Option ℕ
      → Record
      → World b
      → Outcome ErrorCode × World b
      → Type 0
  Inserted {db} p s is tx r w out =
      let put = b.db_put db (transaction_id w tx) (stored_entry w s is r) w.env in
      ((out.0 ≡ returns ok)
        × (put ≡ (returns success, out.1.env))
        × Perm (records_in p is out.1) (r ∷ records_in p is w))
      ⊎ ((code : ErrorCode) × (out.0 ≡ returns code)
          × (code ≢ ok)
          × (records_in p is out.1 ≡ records_in p is w)
          × ((is.read_only ≡ true) ⊎ (put.0 ≢ returns success)))

  abbrev translated : Exception → M (World b) ErrorCode
  translated x = pure (deadlock_memory_or_failure x)

  not_put :
      {db : ℕ} (p : Puts b db) (s : ℕ) (is : IndexSchema) (tx : Option ℕ) (r : Record)
      (w w' : World b) (o : Outcome Code) (code : ErrorCode)
      → b.db_put db (transaction_id w tx) (stored_entry w s is r) w.env ≡ (o, w'.env)
      → o ≢ returns success
      → code ≢ ok
      → Inserted p s is tx r w (returns code, w')
  not_put p s is tx r w w' o code put not_stored bad = inr (
    code,
    refl,
    bad,
    ap (map (record_of is))
        (p.refuses (transaction_id w tx) (stored_entry w s is r) w.env w'.env o put not_stored),
    inr (rw put not_stored),
  )

  put-Inserted :
      {db : ℕ} (p : Puts b db) (s : ℕ) (is : IndexSchema) (tx : Option ℕ) (r : Record)
      (w w' : World b) (o : Outcome Code) (e : b.Env)
      → w'.free_takes_new ≡ true
      → record_of is (stored_entry w s is r) ≡ r
      → b.db_put db (transaction_id w tx) (stored_entry w s is r) w.env ≡ (o, e)
      → Inserted p s is tx r w (handled (resume (o, record w' { env = e }) status) translated)
  unfolding status
  put-Inserted p s is tx r w w' (returns success) e frees same put =
      rw (frees, ◌>>◌, ◌>>=◌)
        (inl (
          refl,
          put,
          subst (λ z. Perm (map (record_of is) (p.contents e)) (z ∷ records_in p is w)) same
              (Perm.map (record_of is)
                (p.adds (transaction_id w tx) (stored_entry w s is r) w.env e put)),
        ))
  put-Inserted p s is tx r w w' (returns not_found) e frees same put =
      rw (frees, ◌>>◌, ◌>>=◌)
        (not_put p s is tx r w (record w' { env = e }) (returns not_found) error_generic_failure put
          (λ q. ground arith) (λ q. ground arith))
  put-Inserted p s is tx r w w' (returns failure) e frees same put =
      rw (frees, ◌>>◌, ◌>>=◌)
        (not_put p s is tx r w (record w' { env = e }) (returns failure) error_generic_failure put
          (λ q. ground arith) (λ q. ground arith))
  put-Inserted p s is tx r w w' (throws y) e frees same put =
      not_put p s is tx r w (record w' { env = e }) (throws y) (deadlock_memory_or_failure y) put
        (λ q. ground arith) (no_failure_is_ok y)
  put-Inserted p s is tx r w w' faults e frees same put =
      absurd (rw put at (p.ends (transaction_id w tx) (stored_entry w s is r) w.env))
  put-Inserted p s is tx r w w' out_of_fuel e frees same put =
      absurd (rw put at (p.ends (transaction_id w tx) (stored_entry w s is r) w.env))

  insert-Inserted :
      {db : ℕ} (p : Puts b db) (w : World b) (i s : ℕ) (ix : Index) (is : IndexSchema)
      (tx : Option ℕ) (r : Record)
      → w.free_takes_new ≡ true
      → IsReady w i s db ix is tx
      → has_values is.type r.key.value ≡ true
      → record_of is (stored_entry w s is r) ≡ r
      → Inserted p s is tx r w (handled (insert i tx r w) translated)
  insert-Inserted {db} p w i s ix is tx r frees h whole same =
      let (accepted, w', run, why, l) = enlist_lem w i s db ix is tx h in
      elim (Bool-cases accepted) [
        | inl y ↦
            let run' : enlist tx s w ≡ (returns true, w') = run ∙ ap (λ c. (returns c, w')) y in
            rw (insert_accepted w w' i s db ix is tx r h whole run' l)
              (put-Inserted p s is tx r w w' _ _ (l.frees ∙ frees) same refl)
        | inr n ↦
            let run' : enlist tx s w ≡ (returns false, w') = run ∙ ap (λ c. (returns c, w')) n in
            rw (insert_refused w w' i s db ix is tx r h run') (
              inr (
                error_unknown_index,
                refl,
                (λ q. ground arith),
                ap (λ e. map (record_of is) (p.contents e)) l.env,
                inl (why n),
              ))
      ]

  -- InsertRecord is the insertion into a multiset of records: on an open index, of a record whose key
  -- is complete and fits the columns, with or without a transaction, on a platform whose free() takes
  -- memory of new, it always returns. Either it returns kOk, Berkeley DB has stored the entry of the
  -- record within the transaction of the caller, and the records of the index, read back by GetKey, are
  -- those before and the given one, in some order; or it returns another status, the records are as
  -- before, and the index is read-only or the put of that entry within that transaction failed.
  pub insert_record-Inserted :
      {db : ℕ} (p : Puts b db) (w : World b) (i s : ℕ) (ix : Index) (is : IndexSchema)
      (tx : Option ℕ) (r : Record)
      → w.free_takes_new ≡ true
      → IsReady w i s db ix is tx
      → schema_compatible is r.key ≡ some true
      → r.key.attribute_count ≡ is.attribute_count
      → Fits is.type r.key.value
      → IsComplete r.key.value
      → Inserted p s is tx r w (insert_record tx (some i) (some r) w)
  unfolding insert_record with_record stored_entry
  insert_record-Inserted {db} p w i s ix is tx r frees h fits n f c =
      let known = no_index_lem i ix w h.handle ∙ ap (λ z. (returns z, w)) h.opened in
      let fit = compatible_lem i s ix is r.key true w h.handle h.opened h.schema h.alive fits in
      let back = get_key-get_bdb_key s w.fresh is r.key false n f c in
      rw (known, ◌>>=◌, fit)
        (insert-Inserted p w i s ix is tx r frees h (schema_compatible-has_values is r.key fits)
          (ap (λ k. record r { key = k }) back))
