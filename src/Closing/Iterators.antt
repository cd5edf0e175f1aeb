-- ===== src/Closing/Iterators.antt =====
-- Index::Close closes every iterator that was opened on the handle, and its loop ends.
use sigmod2012contest.Base.{
  ℕ, suc, ◌<◌, ◌≡◌, refl, ap, ◌∙◌, inl, inr, true, false, Option, none, some, List, [], ◌∷◌, ◌==◌,
  length, Bool-cases, arith,
}
use sigmod2012contest.Containers.AddressSet.{
  mem, erase, mem-erase, mem_nil, mem_cons, erase_head-lt,
}
use sigmod2012contest.Bdb.{Bdb, returns, ◌>>=◌}
use sigmod2012contest.Objects.{World, Index, Iterator, update}
use sigmod2012contest.Iterators.{close_cursor}
use sigmod2012contest.Closing.{close_iterator, close_iterators, close_first, first_iterator}

-- Berkeley DB closes cursors without an error.
abbrev pub ClosesCursors : Bdb → Type 0
ClosesCursors b = (c : ℕ) (e : b.Env) → (e' : b.Env) × (b.cursor_close c e ≡ (returns tt, e'))

module _ (b : Bdb) (closes : ClosesCursors b) where
  close_cursor_lem :
      (it : Iterator) (e : b.Env) (c : Option ℕ)
      → it.cursor ≡ c
      → (e' : b.Env) × (close_cursor b (it, e) ≡ (returns tt, (record it { cursor = none }, e')))
  unfolding close_cursor
  close_cursor_lem it e none h = (e, ground arith)
  close_cursor_lem it e (some c) h = let (e', run) = closes c e in (e', ground arith)

  -- An iterator that is open and belongs to the handle at i.
  abbrev pub IsOpenAt : World b → ℕ → ℕ → Type 0
  IsOpenAt w i p =
      (it : Iterator) × (w.iterators p ≡ some it) × (it.closed ≡ false) × (it.index ≡ some i)

  -- Closing it marks it as closed, takes it out of the handle's set and touches no other iterator.
  close_iterator_lem :
      (i p : ℕ) (ix : Index) (it : Iterator) (w : World b)
      → w.handles i ≡ some ix
      → w.iterators p ≡ some it
      → it.closed ≡ false
      → it.index ≡ some i
      → (w' : World b) × (close_iterator p w ≡ (returns tt, w'))
        × (w'.handles i ≡ some (record ix { iterators = erase p ix.iterators }))
        × (w'.iterators p ≡ some (record it { cursor = none; closed = true }))
        × ((q : ℕ) → (q == p) ≡ false → w'.iterators q ≡ w.iterators q)
        × (w'.schemas ≡ w.schemas)
  unfolding close_iterator
  close_iterator_lem i p ix it w hi hp h k =
      let (e', run) = close_cursor_lem it w.env it.cursor refl in
      let w' : World b = record w {
        env = e';
        iterators =
            update (update w.iterators p (some (record it { cursor = none }))) p
              (some (record it { cursor = none; closed = true }));
        handles = update w.handles i (some (record ix { iterators = erase p ix.iterators }));
      } in
      (
        w',
        rw (hp, run, ◌>>=◌) (ground arith),
        ground arith,
        ground arith,
        (λ q ne. ground arith),
        refl,
      )

  -- All iterators in the set of the handle at i are open and belong to it.
  abbrev pub AllOpen : World b → ℕ → Index → Type 0
  AllOpen w i ix = (p : ℕ) → mem p ix.iterators ≡ true → IsOpenAt w i p

  AllOpen-after :
      (i p : ℕ) (ix : Index) (w w' : World b)
      → AllOpen w i ix
      → ((q : ℕ) → (q == p) ≡ false → w'.iterators q ≡ w.iterators q)
      → AllOpen w' i (record ix { iterators = erase p ix.iterators })
  AllOpen-after i p ix w w' h same q m =
      let other : (q == p) ≡ false = ground (arith, mem-erase p q ix.iterators) in
      let old : mem q ix.iterators ≡ true = ground (arith, mem-erase p q ix.iterators) in
      let (it, at, open_, mine) = h q old in (it, same q other ∙ at, open_, mine)

  -- The iterators that were closed: each is now marked as closed and has no cursor.
  abbrev pub AreClosed : List ℕ → World b → Type 0
  AreClosed ps w =
      (p : ℕ)
      → mem p ps ≡ true
      → (it : Iterator) × (w.iterators p ≡ some it) × (it.closed ≡ true) × (it.cursor ≡ none)

  closed_after :
      (p : ℕ) (ps : List ℕ) (it : Iterator) (w w' : World b)
      → w.iterators p ≡ some it
      → it.closed ≡ true
      → it.cursor ≡ none
      → ((q : ℕ) → mem q (erase p (p ∷ ps)) ≡ false → w'.iterators q ≡ w.iterators q)
      → AreClosed (erase p (p ∷ ps)) w'
      → AreClosed (p ∷ ps) w'
  closed_after p ps it w w' at c n same rest q m = elim (Bool-cases (q == p)) [
    | inl e ↦
        let here : q ≡ p = ground arith in
        let gone : mem q (erase p (p ∷ ps)) ≡ false = ground (arith, mem-erase p q (p ∷ ps)) in
        (it, same q gone ∙ ap w.iterators here ∙ at, c, n)
    | inr e ↦ rest q (ground (arith, mem-erase p q (p ∷ ps)))
  ]

  -- The loop of Index::Close on a handle whose iterators are open and its own, where Berkeley DB
  -- closes cursors without an error: with one round more
  -- than there are iterators it comes to an end and leaves the handle with none. Each of them is then
  -- closed and has given up its cursor, and the other iterators and the schemas are as before.
  pub close_iterators_lem :
      (fuel i : ℕ) (ps : List ℕ) (ix : Index) (w : World b)
      → w.handles i ≡ some ix
      → ix.iterators ≡ ps
      → AllOpen w i ix
      → length ps < fuel
      → (w' : World b) × (close_iterators fuel i w ≡ (returns tt, w'))
        × (w'.handles i ≡ some (record ix { iterators = [] }))
        × AreClosed ps w'
        × ((q : ℕ) → mem q ps ≡ false → w'.iterators q ≡ w.iterators q)
        × (w'.schemas ≡ w.schemas)
  unfolding close_iterators
  close_iterators_lem ℕ.zero i ps ix w hi e open_ f = absurd (omega arith)
  close_iterators_lem (suc fuel) i [] ix w hi e open_ f = (
    w,
    rw (hi, ◌>>=◌) (ap (λ l. close_first {b = b} (close_iterators fuel i) (first_iterator l) w) e),
    ground arith,
    (λ p m. absurd (ground (arith, mem_nil p))),
    (λ q m. refl),
    refl,
  )
  close_iterators_lem (suc fuel) i (p ∷ ps) ix w hi e open_ f =
      let member : mem p ix.iterators ≡ true = rw e (ground (arith, mem_cons p p ps)) in
      let (it, at, o, mine) = open_ p member in
      let (w1, run, hi', closed, same, kept) = close_iterator_lem i p ix it w hi at o mine in
      let rest = erase p (p ∷ ps) in
      let (w', run', done, all_closed, same', kept') =
        close_iterators_lem fuel i rest (record ix { iterators = erase p ix.iterators }) w1 hi'
          (ap (erase p) e) (AllOpen-after i p ix w w1 open_ same)
          (omega (arith, erase_head-lt p ps)) in
      (
        w',
        rw (hi, ◌>>=◌)
            (ap (λ l. close_first {b = b} (close_iterators fuel i) (first_iterator l) w) e
              ∙ rw (run, ◌>>=◌) run'),
        done,
        closed_after p ps _ w1 w' closed refl refl same' all_closed,
        (λ q m.
            same' q (ground (arith, mem-erase p q (p ∷ ps)))
            ∙ same q (ground (arith, mem_cons q p ps))),
        kept' ∙ kept,
      )
