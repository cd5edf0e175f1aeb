-- ===== src/Consistency/Removal.antt =====
-- DeleteIndex of example/BDBImpl.cc frees a schema only when no open handle and no name points to it.
use sigmod2012contest.Base.{
  ℕ, ◌≡◌, ◌⊎◌, refl, sym, ap, ◌∙◌, subst, Bool, true, false, Option, none, some, [], ◌∷◌, ◌==◌,
  if◌then◌else◌, Bool-cases, inl, inr, arith,
}
use sigmod2012contest.Containers.Text.{Text, text_eq, text_eq_iff}
use sigmod2012contest.Containers.AddressSet.{mem, mem_nil}
use sigmod2012contest.Containers.Map
use sigmod2012contest.Interface.{ErrorCode, ok}
use sigmod2012contest.Bdb.{
  Bdb, M, Outcome, returns, throws, faults, out_of_fuel, resume, ◌>>=◌, ◌>>◌, pure,
}
use sigmod2012contest.Schema.{IndexSchema, make_read_only}
use sigmod2012contest.Closing.{
  release_schema, close_handles, delete_schema, remove_found, remove_index, find_index,
}
use sigmod2012contest.Objects.{World, Index, update, released, set_indices, get_world, bdb}
use sigmod2012contest.Api.{delete_index, remove_error}
use sigmod2012contest.Consistency.{Quiet, Quiet-IsConsistent, IsConsistent}
use sigmod2012contest.Consistency.Steps.{IsQuiet, pure-IsQuiet, quiet_steps, set_schema-Quiet}
use sigmod2012contest.Consistency.Listing.{
  AllListed, close_handles-IsQuiet, close_handles-AllListed,
}
use sigmod2012contest.Consistency.Keeping.{resume-IsConsistent, handled-IsConsistent}

removed_name :
    (name n : Text) (m : Map.Map ℕ) (q : ℕ)
    → Map.find n (Map.remove name m) ≡ some q
    → (text_eq name n ≡ false) × (Map.find n m ≡ some q)
removed_name name n m q h = elim (Bool-cases (text_eq name n)) [
  | inl t ↦ absurd (ground (arith, Map.find-remove name n m))
  | inr t ↦ (t, ground (arith, Map.find-remove name n m))
]

-- No exception is thrown.
abbrev pub NotThrown : {A : Type 0} → Outcome A → Type 0
NotThrown (returns a) = Unit {0}
NotThrown (throws x) = ⊥
NotThrown faults = Unit {0}
NotThrown out_of_fuel = Unit {0}

module _ {b : Bdb} where
  -- IndexManager::Remove is not left by an exception, if DeleteIndex calls it.
  abbrev pub Removes : Option Text → World b → Type 0
  Removes none w = Unit {0}
  Removes (some []) w = Unit {0}
  Removes (some (c ∷ cs)) w = NotThrown (remove_index (c ∷ cs) w).0

  -- The state after a schema was freed and its name was forgotten.
  abbrev removed : World b → Text → ℕ → World b
  removed w name s = record w {
    schemas = update w.schemas s none;
    indices = Map.remove name w.indices;
  }

  other_name :
      (w : World b) (name n : Text) (s q : ℕ)
      → IsConsistent w
      → Map.find name w.indices ≡ some s
      → Map.find n w.indices ≡ some q
      → text_eq name n ≡ false
      → (q == s) ≡ false
  other_name w name n s q c found k ne = elim (Bool-cases (q == s)) [
    | inl e ↦
        let here : q ≡ s = ground arith in
        absurd
          (ground (arith, (text_eq_iff name n).1 (c.named_once name n s found (k ∙ ap some here))))
    | inr e ↦ e
  ]

  removed-IsConsistent :
      (w : World b) (name : Text) (s : ℕ)
      → IsConsistent w
      → Map.find name w.indices ≡ some s
      → AllListed w s []
      → IsConsistent (removed w name s)
  removed-IsConsistent w name s c found none_open = record {
    unused = λ q h. elim (Bool-cases (q == s)) [ inl e ↦ rw e refl | inr e ↦ rw e (c.unused q h) ];
    named = λ n q h.
        let (ne, k) = removed_name name n w.indices q h in
        let (is, at) = c.named n q k in (is, rw (other_name w name n s q c found k ne) at);
    named_once = λ n m q h k.
        c.named_once n m q (removed_name name n w.indices q h).1
          (removed_name name m w.indices q k).1;
    backed = λ i ix h o.
        let (q, db, is, sc, d, at, m) = c.backed i ix h o in
        (q, db, is, sc, d, rw (other_schema i ix q h o sc (Bool-cases (q == s))) at, m);
  }
    where
      other_schema :
          (i : ℕ) (ix : Index) (q : ℕ)
          → w.handles i ≡ some ix
          → ix.closed ≡ false
          → ix.schema ≡ some q
          → ((q == s) ≡ true) ⊎ ((q == s) ≡ false)
          → (q == s) ≡ false
      other_schema i ix q h o sc (inl e) =
          let here : q ≡ s = ground arith in
          absurd (ground (arith, none_open i ix h o (sc ∙ ap some here), mem_nil i))
      other_schema i ix q h o sc (inr e) = e

  if-IsConsistent :
      {A : Type 0} (c : Bool) (m n : M (World b) A) (w : World b)
      → (NotThrown (m w).0 → IsConsistent (m w).1)
      → IsConsistent (n w).1
      → NotThrown ((if c then m else n) w).0
      → IsConsistent ((if c then m else n) w).1
  if-IsConsistent true m n w h k t = h t
  if-IsConsistent false m n w h k t = k

  -- What follows the loop of CloseHandles when an index is removed.
  abbrev forget : Text → M (World b) ErrorCode
  forget name = do w ← get_world; set_indices (Map.remove name w.indices); pure ok

  freed-IsConsistent :
      (name : Text) (s : ℕ) (r : Outcome (Unit {0}) × World b)
      → IsConsistent r.1
      → Map.find name r.1.indices ≡ some s
      → (r.0 ≡ returns tt → AllListed r.1 s [])
      → let r' = resume (released (release_schema s) r) (λ _. forget name) in
        NotThrown r'.0 → IsConsistent r'.1
  unfolding released
  freed-IsConsistent name s (returns _, w) c found h t =
      removed-IsConsistent w name s c found (h refl)
  freed-IsConsistent name s (throws x, w) c found h t = absurd t
  freed-IsConsistent name s (faults, w) c found h t = c
  freed-IsConsistent name s (out_of_fuel, w) c found h t = c

  deleted-IsConsistent :
      (name : Text) (s : ℕ) (is : IndexSchema) (w : World b)
      → IsConsistent w
      → Map.find name w.indices ≡ some s
      → w.schemas s ≡ some is
      → NotThrown ((delete_schema s >>= λ _. forget name) w).0
      → IsConsistent ((delete_schema s >>= λ _. forget name) w).1
  unfolding delete_schema
  deleted-IsConsistent name s is w c found at t =
      let q = (close_handles-IsQuiet s is.handles).at w in
      rw (at, ◌>>=◌)
        (freed-IsConsistent name s (close_handles s is.handles w)
          (Quiet-IsConsistent w (close_handles s is.handles w).1 q c)
          (ap (Map.find name) q.same ∙ found) (close_handles-AllListed s is.handles w listed)
          (rw (at, ◌>>=◌) at t))
    where
      listed : AllListed w s is.handles
      listed i ix h o sc =
          let (q, db, js, sc', d, at', m) = c.backed i ix h o in
          let here : q ≡ s = ground arith in
          let same : js ≡ is = ground (arith, sym at' ∙ ap w.schemas here ∙ at) in
          subst (λ (x : IndexSchema). mem i x.handles ≡ true) same m

  remove_found-IsConsistent :
      (name : Text) (o : Option ℕ) (w : World b)
      → IsConsistent w
      → Map.find name w.indices ≡ o
      → NotThrown (remove_found name o w).0
      → IsConsistent (remove_found name o w).1
  unfolding remove_found make_read_only
  remove_found-IsConsistent name none w c found t = c
  remove_found-IsConsistent name (some s) w c found t =
      let (is, at) = c.named name s found in
      let w1 : World b = record w { schemas = update w.schemas s (some (make_read_only is).1) } in
      let q : Quiet w w1 =
        set_schema-Quiet s is (make_read_only is).1 w at λ i o m. ground (arith, m) in
      let c1 : IsConsistent w1 = Quiet-IsConsistent w w1 q c in
      rw (at, ◌>>=◌)
        (if-IsConsistent (make_read_only is).0 _ _ w1
          (deleted-IsConsistent name s (make_read_only is).1 w1 c1 found (ground arith)) c1
          (rw (at, ◌>>=◌) at t))

  remove_index-IsConsistent :
      (name : Text) (w : World b)
      → IsConsistent w
      → NotThrown (remove_index name w).0
      → IsConsistent (remove_index name w).1
  unfolding remove_index find_index
  remove_index-IsConsistent name w c t =
      remove_found-IsConsistent name (Map.find name w.indices) w c refl t

  after_removal-IsQuiet :
      (name : Text) (err : ErrorCode)
      → IsQuiet
          (elim err [ ok ↦ (do bdb {b = b} (b.db_remove name); pure ok) | failed ↦ pure failed ])
  after_removal-IsQuiet name ok = search quiet_steps
  after_removal-IsQuiet name _ = search quiet_steps

  pub delete_index-IsConsistent :
      (name : Option Text) (w : World b)
      → IsConsistent w
      → Removes name w
      → IsConsistent (delete_index name w).1
  unfolding delete_index
  delete_index-IsConsistent none w c t = c
  delete_index-IsConsistent (some []) w c t = c
  delete_index-IsConsistent (some (x ∷ xs)) w c t =
      let w1 = (remove_index (x ∷ xs) w).1 in
      let c1 = remove_index-IsConsistent (x ∷ xs) w c t in
      handled-IsConsistent _ _
        (resume-IsConsistent (remove_index (x ∷ xs) w) _ c1
          λ err _. Quiet-IsConsistent w1 _ ((after_removal-IsQuiet (x ∷ xs) err).at w1) c1)
        λ e. pure-IsQuiet (remove_error e)
