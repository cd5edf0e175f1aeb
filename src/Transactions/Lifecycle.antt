-- ===== src/Transactions/Lifecycle.antt =====
-- A resolved transaction is off every schema that it has used, so it holds up no deletion.
use sigmod2012contest.Base.{
  ℕ, ◌≡◌, refl, ap, ◌∙◌, ◌⊎◌, inl, inr, Bool, true, false, not, ◌&&◌, ◌||◌, none, some, List, [],
  ◌∷◌, ◌==◌, Bool-cases, arith,
}
use sigmod2012contest.Containers.AddressSet.{mem, mem-insert, mem_nil, mem_cons, insert}
use sigmod2012contest.Bdb.{Bdb, returns, ◌>>=◌}
use sigmod2012contest.Schema.{IndexSchema, begin_transaction, end_transaction}
use sigmod2012contest.Schema.Writers.{writes, writes-end_transaction, begin_transaction_registers}
use sigmod2012contest.Objects.{World, Transaction, update}
use sigmod2012contest.Transactions.{end_at, end_all, use_index, close_transaction}

-- The schemas of a set are all allocated.
abbrev pub AreAlive : {b : Bdb} → List ℕ → World b → Type 0
AreAlive [] w = Unit {0}
AreAlive (s ∷ ss) w = ((is : IndexSchema) × (w.schemas s ≡ some is)) × AreAlive ss w

-- Whether a transaction is registered with the schema at an address.
abbrev pub writes_at : {b : Bdb} → ℕ → World b → ℕ → Bool
writes_at tid w s = elim (w.schemas s) [ none ↦ false | some is ↦ writes tid is ]

module _ {b : Bdb} where
  end_at_lem :
      (s tid : ℕ) (w : World b) (is : IndexSchema)
      → w.schemas s ≡ some is
      → end_at s tid w
        ≡ (returns tt, record w { schemas = update w.schemas s (some (end_transaction tid is)) })
  unfolding end_at
  end_at_lem s tid w is h = rw (h, end_at, ◌>>=◌)

  AreAlive-update :
      (ss : List ℕ) (s : ℕ) (is : IndexSchema) (w : World b)
      → AreAlive ss w
      → AreAlive ss (record w { schemas = update w.schemas s (some is) })
  AreAlive-update [] s is w h = tt
  AreAlive-update (t ∷ ss) s is w h = (here (Bool-cases (t == s)), AreAlive-update ss s is w h.1)
    where
      here :
          ((t == s) ≡ true) ⊎ ((t == s) ≡ false)
          → (js : IndexSchema) × (update w.schemas s (some is) t ≡ some js)
      here (inl e) = (is, rw e)
      here (inr e) = (h.0.0, rw e h.0.1)

  -- What the loop over the used schemas does: it returns, and of the registrations only those of the
  -- transaction with these schemas are gone.
  abbrev pub Ended : List ℕ → ℕ → World b → World b → Type 0
  Ended ss tid w w' =
      (s other : ℕ) → writes_at other w' s ≡ (not (other == tid && mem s ss) && writes_at other w s)

  writes_at-update :
      (s tid : ℕ) (w : World b) (is : IndexSchema) (q other : ℕ)
      → w.schemas s ≡ some is
      → writes_at other
          (record w { schemas = update w.schemas s (some (end_transaction tid is)) })
          q
        ≡ (not (other == tid && q == s) && writes_at other w q)
  writes_at-update s tid w is q other h = elim (Bool-cases (q == s)) [
    | inl e ↦
        let at : q ≡ s = ground arith in
        let here : w.schemas q ≡ some is = ap w.schemas at ∙ h in
        ground (arith, writes-end_transaction tid other is)
    | inr e ↦ ground arith
  ]

  pub end_all_lem :
      (ss : List ℕ) (tid : ℕ) (w : World b)
      → AreAlive ss w
      → (w' : World b) × (end_all ss tid w ≡ (returns tt, w'))
        × Ended ss tid w w'
        × (w'.transactions ≡ w.transactions)
  unfolding end_all
  end_all_lem [] tid w h = (w, refl, (λ s other. ground (arith, mem_nil s)), refl)
  end_all_lem (s ∷ ss) tid w h =
      let is = h.0.0 in
      let w1 : World b = record w {
        schemas = update w.schemas s (some (end_transaction tid is));
      } in
      let (w', run, gone, same) =
        end_all_lem ss tid w1 (AreAlive-update ss s (end_transaction tid is) w h.1) in
      (
        w',
        rw (end_at_lem s tid w is h.0.1) run,
        (λ q other.
            ground
              (arith, gone q other, writes_at-update s tid w is q other h.0.1, mem_cons q s ss)),
        same,
      )

  -- CloseTransaction over schemas that are all alive.
  pub close_transaction_lem :
      (t : ℕ) (tx : Transaction) (w : World b)
      → w.transactions t ≡ some tx
      → AreAlive tx.indices w
      → (w' : World b) × (close_transaction t w ≡ (returns tt, w'))
        × Ended tx.indices tx.tid w w'
        × (w'.transactions t ≡ some (record tx { finished = true }))
  unfolding close_transaction
  close_transaction_lem t tx w h alive =
      let (w1, run, gone, same) = end_all_lem tx.indices tx.tid w alive in
      (
        record w1 {
          transactions = update w1.transactions t (some (record tx { finished = true }));
        },
        rw (h, ◌>>=◌, run),
        gone,
        ground arith,
      )

  -- The first use of an index by a transaction: the transaction is registered as a writer, unless the
  -- index is read-only. Other transactions and other indices are not touched.
  pub use_index_first :
      (t s : ℕ) (tx : Transaction) (is : IndexSchema) (w : World b)
      → w.transactions t ≡ some tx
      → w.schemas s ≡ some is
      → mem s tx.indices ≡ false
      → (w' : World b) × (use_index t s w ≡ (returns (not is.read_only), w'))
        × (w'.transactions t ≡ some (record tx { indices = insert s tx.indices }))
        × ((q other : ℕ)
            → writes_at other w' q
              ≡ (other == tx.tid && q == s && not is.read_only || writes_at other w q))
  unfolding use_index
  use_index_first t s tx is w ht hs new =
      let w' : World b = record w {
        transactions = update w.transactions t (some (record tx { indices = insert s tx.indices }));
        schemas = update w.schemas s (some (begin_transaction tx.tid is).1);
      } in
      (
        w',
        rw (ht, ◌>>=◌, new, hs)
            (ap (λ r. (returns r, w')) (begin_transaction_registers tx.tid 0 is).0),
        ground arith,
        λ q other. registered q other (Bool-cases (q == s)),
      )
    where
      registered :
          (q other : ℕ)
          → ((q == s) ≡ true) ⊎ ((q == s) ≡ false)
          → writes_at other
              (record w { schemas = update w.schemas s (some (begin_transaction tx.tid is).1) })
              q
            ≡ (other == tx.tid && q == s && not is.read_only || writes_at other w q)
      registered q other (inl e) =
          let at : q ≡ s = ground arith in
          let here : w.schemas q ≡ some is = ap w.schemas at ∙ hs in
          ground (arith, (begin_transaction_registers tx.tid other is).1)
      registered q other (inr e) = ground arith

  -- A further use is accepted as it stands.
  pub use_index_again :
      (t s : ℕ) (tx : Transaction) (w : World b)
      → w.transactions t ≡ some tx
      → mem s tx.indices ≡ true
      → use_index t s w ≡ (returns true, w)
  unfolding use_index
  use_index_again t s tx w h old = rw (h, ◌>>=◌, old)

  -- A transaction that first meets an index when the index is read-only is refused once, and accepted
  -- from then on although it is never registered as a writer of that index.
  pub use_index_read_only :
      (t s : ℕ) (tx : Transaction) (is : IndexSchema) (w : World b)
      → w.transactions t ≡ some tx
      → w.schemas s ≡ some is
      → mem s tx.indices ≡ false
      → is.read_only ≡ true
      → (w' : World b) × (use_index t s w ≡ (returns false, w'))
        × (use_index t s w' ≡ (returns true, w'))
        × (writes_at tx.tid w' s ≡ writes_at tx.tid w s)
  use_index_read_only t s tx is w ht hs new closed =
      let (w', run, kept, reg) = use_index_first t s tx is w ht hs new in
      (
        w',
        run ∙ ap (λ r. (returns (not r), w')) closed,
        use_index_again t s (record tx { indices = insert s tx.indices }) w' kept
            (ground (arith, mem-insert s s tx.indices)),
        ground (arith, reg s tx.tid),
      )
