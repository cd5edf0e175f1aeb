-- ===== src/Consistency/Opening.antt =====
-- OpenIndex of example/BDBImpl.cc opens a handle that its schema knows.
use sigmod2012contest.Base.{
  ℕ, ◌+◌, ◌≡◌, refl, sym, ap, ◌∙◌, true, false, Option, none, some, [], ◌∷◌, ◌==◌, Bool-cases, inl,
  inr, arith,
}
use sigmod2012contest.Containers.Text.{Text}
use sigmod2012contest.Containers.AddressSet.{mem, mem-insert}
use sigmod2012contest.Containers.Map
use sigmod2012contest.Bdb.{Bdb, ◌>>=◌, pure}
use sigmod2012contest.Schema.{IndexSchema, register_handle}
use sigmod2012contest.Closing.{delete_index_handle}
use sigmod2012contest.Indexes.{new_index, open_index_at, open_found}
use sigmod2012contest.Objects.{World, Index, update, bdb}
use sigmod2012contest.Api.{open_index, open_error}
use sigmod2012contest.Consistency.{Quiet, Quiet-trans, Quiet-IsConsistent, IsConsistent}
use sigmod2012contest.Consistency.Steps.{
  bind-IsQuiet, bdb-IsQuiet, pure-IsQuiet, set_handle-Quiet, set_schema-Quiet, unseen,
}
use sigmod2012contest.Consistency.Closers.{IsShut, delete_index_handle-IsQuiet}
use sigmod2012contest.Consistency.Keeping.{resume-IsConsistent, handled-IsConsistent}

module _ {b : Bdb} where
  -- A handle that is closed and registered with an allocated schema is opened.
  opened-IsConsistent :
      (w : World b) (i s db : ℕ) (is : IndexSchema) (ix : Index)
      → IsConsistent w
      → w.schemas s ≡ some is
      → mem i is.handles ≡ true
      → ix.schema ≡ some s
      → ix.db ≡ some db
      → IsConsistent (record w { handles = update w.handles i (some ix) })
  opened-IsConsistent w i s db is ix c at m hs hd = record {
    unused = c.unused;
    named = c.named;
    named_once = c.named_once;
    backed = λ j jx h o. elim (Bool-cases (j == i)) [
      | inl e ↦
          let here : j ≡ i = ground arith in
          let same : ix ≡ jx = ground arith in
          (
            s,
            db,
            is,
            ap (λ (x : Index). x.schema) (sym same) ∙ hs,
            ap (λ (x : Index). x.db) (sym same) ∙ hd,
            at,
            rw here m,
          )
      | inr e ↦ c.backed j jx (ground arith) o
    ];
  }

  found_handle :
      (i s : ℕ) (is : IndexSchema) (w : World b) (o : Option Index)
      → IsConsistent w
      → IsShut w i
      → w.schemas s ≡ some is
      → w.handles i ≡ o
      → IsConsistent (open_found i (some s) w).1
  unfolding open_found
  found_handle i s is w none c shut at h = rw (h, ◌>>=◌) c
  found_handle i s is w (some ix) c shut at h =
      let closed : ix.closed ≡ true = closed_of ix h in
      let w1 : World b = record w {
        handles = update w.handles i (some (record ix { schema = some s }));
      } in
      let q1 : Quiet w w1 =
        set_handle-Quiet i (some (record ix { schema = some s })) w
          λ jx e o. absurd (ground arith) in
      let w2 : World b = record w1 { schemas = update w.schemas s (some (register_handle i is)) } in
      let q2 : Quiet w1 w2 =
        set_schema-Quiet s is (register_handle i is) w1 at λ j o m. registers j m in
      let c2 : IsConsistent w2 = Quiet-IsConsistent w w2 (Quiet-trans w w1 w2 q1 q2) c in
      let w3 : World b = record w2 { env = (b.db_open ix.name w2.env).1 } in
      let c3 : IsConsistent w3 =
        Quiet-IsConsistent w2 w3 ((bdb-IsQuiet (b.db_open ix.name)).at w2) c2 in
      rw (h, ◌>>=◌, at)
        (resume-IsConsistent (bdb (b.db_open ix.name) w2) _ c3 λ db e.
          opened-IsConsistent w3 i s db (register_handle i is)
            (record ix { schema = some s; db = some db; closed = false }) c3 (ground arith)
            (unfold register_handle in ground (arith, mem-insert i i is.handles)) refl refl)
    where
      closed_of : (ix : Index) → w.handles i ≡ some ix → ix.closed ≡ true
      closed_of ix h = elim (Bool-cases ix.closed) [ inl e ↦ e | inr e ↦ absurd (shut (ix, h, e)) ]

      registers : (j : ℕ) → mem j is.handles ≡ true → mem j (register_handle i is).handles ≡ true
      registers j m = unfold register_handle in ground (arith, mem-insert i j is.handles)

  open_index_at-IsConsistent :
      (i : ℕ) (name : Text) (w : World b)
      → IsConsistent w
      → IsShut w i
      → IsConsistent (open_index_at i name w).1
  unfolding open_index_at
  open_index_at-IsConsistent i name w c shut = found (Map.find name w.indices) refl
    where
      found : (o : Option ℕ) → Map.find name w.indices ≡ o → IsConsistent (open_found i o w).1
      found none e = unfold open_found in c
      found (some s) e =
          let (is, at) = c.named name s e in found_handle i s is w (w.handles i) c shut at refl

  pub open_index-IsConsistent :
      (name : Option Text) (old : Option ℕ) (w : World b)
      → IsConsistent w
      → IsConsistent (open_index name old w).1
  unfolding open_index
  open_index-IsConsistent none old w c = c
  open_index-IsConsistent (some []) old w c = c
  open_index-IsConsistent (some (x ∷ xs)) old w c =
      let i = w.next in
      let w1 : World b = record w {
        next = w.next + 1;
        handles = update w.handles i (some (new_index (x ∷ xs)));
      } in
      let w0 : World b = record w { next = w.next + 1 } in
      let q0 : Quiet w w0 = unseen w w0 (omega arith) refl refl refl in
      let q1 : Quiet w0 w1 =
        set_handle-Quiet i (some (new_index (x ∷ xs))) w0 λ jx e o. absurd (ground arith) in
      let c1 : IsConsistent w1 = Quiet-IsConsistent w w1 (Quiet-trans w w0 w1 q0 q1) c in
      let shut : IsShut w1 i = λ o. absurd (ground (arith, o.1, o.2)) in
      let opened = open_index_at-IsConsistent i (x ∷ xs) w1 c1 shut in
      handled-IsConsistent ((open_index_at i (x ∷ xs) >>= λ err. pure (err, some i)) w1) _
        (resume-IsConsistent (open_index_at i (x ∷ xs) w1) _ opened λ _ _. opened)
        λ e.
          bind-IsQuiet (delete_index_handle i) _ (delete_index_handle-IsQuiet i)
            λ _. pure-IsQuiet (open_error e, none)
