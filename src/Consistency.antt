-- ===== src/Consistency.antt =====
-- What holds of the indices, schemas and handles of example/ between two calls of the interface, and
-- the steps that take none of it away.
pub mod Steps
pub mod Writers
pub mod Closers
pub mod Records
pub mod Calls
pub mod Keeping
pub mod Opening
pub mod Listing
pub mod Removal
pub mod History
use sigmod2012contest.Base.{
  ℕ, ◌≤◌, ◌≡◌, refl, ap, sym, ◌∙◌, Bool, true, false, Option, none, some, arith,
}
use sigmod2012contest.Containers.Text.{Text}
use sigmod2012contest.Containers.AddressSet.{mem}
use sigmod2012contest.Containers.Map
use sigmod2012contest.Bdb.{Bdb}
use sigmod2012contest.Schema.{IndexSchema}
use sigmod2012contest.Objects.{World, Index}

-- What an open handle points to.
abbrev pub view : Option Index → Option (Bool × Option ℕ × Option ℕ)
view none = none
view (some ix) = some (ix.closed, ix.schema, ix.db)

view_open :
    (o o' : Option Index) (ix : Index)
    → view o ≡ view o'
    → o ≡ some ix
    → ix.closed ≡ false
    → (ix' : Index) × (o' ≡ some ix')
      × (ix'.closed ≡ false)
      × (ix'.schema ≡ ix.schema)
      × (ix'.db ≡ ix.db)
view_open none o' ix h e c = absurd (ground arith)
view_open (some x) none ix h e c = absurd (ground arith)
view_open (some x) (some y) ix h e c = (y, refl, ground arith, ground arith, ground arith)

module _ {b : Bdb} where
  -- An open handle has a schema, which is allocated and knows the handle, and a database.
  abbrev pub IsBacked : World b → ℕ → Index → Type 0
  IsBacked w i ix =
      (s : ℕ) × (db : ℕ) × (is : IndexSchema) × (ix.schema ≡ some s)
      × (ix.db ≡ some db)
      × (w.schemas s ≡ some is)
      × (mem i is.handles ≡ true)

  pub record IsConsistent (w : World b) : Type 0 where
    pub unused : (q : ℕ) → w.next ≤ q → w.schemas q ≡ none
    pub named :
        (n : Text) (s : ℕ)
        → Map.find n w.indices ≡ some s
        → (is : IndexSchema) × (w.schemas s ≡ some is)
    pub named_once :
        (n m : Text) (s : ℕ) → Map.find n w.indices ≡ some s → Map.find m w.indices ≡ some s → n ≡ m
    pub backed : (i : ℕ) (ix : Index) → w.handles i ≡ some ix → ix.closed ≡ false → IsBacked w i ix

  abbrev pub IsOpen : World b → ℕ → Type 0
  IsOpen w i = (ix : Index) × (w.handles i ≡ some ix) × (ix.closed ≡ false)

  -- No handle has been opened, the open ones point to what they pointed to, and no schema was made or
  -- freed or has forgotten an open handle.
  pub record Quiet (w w' : World b) : Type 0 where
    pub later : w.next ≤ w'.next
    pub same : w'.indices ≡ w.indices
    pub open_before : (i : ℕ) → IsOpen w' i → view (w'.handles i) ≡ view (w.handles i)
    pub kept :
        (s : ℕ) (is : IndexSchema)
        → w.schemas s ≡ some is
        → (is' : IndexSchema) × (w'.schemas s ≡ some is')
          × ((i : ℕ) → IsOpen w' i → mem i is.handles ≡ true → mem i is'.handles ≡ true)
    pub none_made : (s : ℕ) → w.schemas s ≡ none → w'.schemas s ≡ none

  pub Quiet-IsOpen : (w w' : World b) (i : ℕ) → Quiet w w' → IsOpen w' i → IsOpen w i
  Quiet-IsOpen w w' i q (ix, h, c) =
      let (ix', h', c', x, y) =
        view_open (w'.handles i) (w.handles i) ix (q.open_before i (ix, h, c)) h c in
      (ix', h', c')

  pub Quiet-refl : (w : World b) → Quiet w w
  Quiet-refl w = record {
    later = omega arith;
    same = refl;
    open_before = λ i o. refl;
    kept = λ s is h. (is, h, λ i o m. m);
    none_made = λ s h. h;
  }

  pub Quiet-trans : (w w1 w2 : World b) → Quiet w w1 → Quiet w1 w2 → Quiet w w2
  Quiet-trans w w1 w2 q r = record {
    later = omega (arith, q.later, r.later);
    same = r.same ∙ q.same;
    open_before = λ i o. r.open_before i o ∙ q.open_before i (Quiet-IsOpen w1 w2 i r o);
    kept = λ s is h.
        let (is1, h1, k1) = q.kept s is h in
        let (is2, h2, k2) = r.kept s is1 h1 in
        (is2, h2, λ i o m. k2 i o (k1 i (Quiet-IsOpen w1 w2 i r o) m));
    none_made = λ s h. r.none_made s (q.none_made s h);
  }

  pub Quiet-IsConsistent : (w w' : World b) → Quiet w w' → IsConsistent w → IsConsistent w'
  Quiet-IsConsistent w w' q c = record {
    unused = λ s h. q.none_made s (c.unused s (omega (arith, q.later)));
    named = λ n s h.
        let (is, at) = c.named n s (ap (Map.find n) (sym q.same) ∙ h) in
        let (is', at', k) = q.kept s is at in (is', at');
    named_once = λ n m s h k.
        c.named_once n m s (ap (Map.find n) (sym q.same) ∙ h) (ap (Map.find m) (sym q.same) ∙ k);
    backed = λ i ix h o.
        let (ix0, h0, o0, sc, d) =
          view_open (w'.handles i) (w.handles i) ix (q.open_before i (ix, h, o)) h o in
        let (s, db, is, hs, hd, at, m) = c.backed i ix0 h0 o0 in
        let (is', at', k) = q.kept s is at in
        (s, db, is', sym sc ∙ hs, sym d ∙ hd, at', k i (ix, h, o) m);
  }
