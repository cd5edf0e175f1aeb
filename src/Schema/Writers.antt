-- ===== src/Schema/Writers.antt =====
-- The transactions that have written to an index, and the read-only state that precedes deletion.
use sigmod2012contest.Base.{
  ℕ, ◌≡◌, refl, ◌↔◌, Bool, true, false, not, ◌&&◌, ◌||◌, List, [], ◌∷◌, length, ltb, ◌==◌, arith,
  if◌then◌else◌,
}
use sigmod2012contest.Containers.AddressSet.{mem, mem-insert, mem-erase, mem_nil}
use sigmod2012contest.Schema.{IndexSchema, begin_transaction, end_transaction, make_read_only}

-- Whether a transaction is registered as a writer.
abbrev pub writes : ℕ → IndexSchema → Bool
writes tx is = mem tx is.transactions

-- BeginTransaction registers its transaction and no other, and refuses a read-only index, which it
-- leaves as it is.
pub begin_transaction_registers :
    (tx other : ℕ) (is : IndexSchema)
    → let (accepted, after) = begin_transaction tx is in
      (accepted ≡ not is.read_only)
      × (writes other after ≡ (other == tx && accepted || writes other is))
      × (after.read_only ≡ is.read_only)
unfolding begin_transaction
begin_transaction_registers tx other is = ground (arith, mem-insert tx other is.transactions)

pub writes-end_transaction :
    (tx other : ℕ) (is : IndexSchema)
    → writes other (end_transaction tx is) ≡ (not (other == tx) && writes other is)
unfolding end_transaction
writes-end_transaction tx other is = mem-erase tx other is.transactions

length_pos_of_mem : (x : ℕ) (s : List ℕ) → mem x s ≡ true → ltb 0 (length s) ≡ true
length_pos_of_mem x [] h = ground (arith, mem_nil x)
length_pos_of_mem x (y ∷ s) h = ground arith

-- MakeReadOnly succeeds exactly when no transaction is registered. It then shuts out every later
-- writer; if it fails, the index stays as it is and takes writers as before.
pub make_read_only_lem :
    (is : IndexSchema) (tx : ℕ)
    → let (done, after) = make_read_only is in
      ((done ≡ true) ↔ (is.transactions ≡ []))
      × (begin_transaction tx after ≡ (if done then (false, after) else begin_transaction tx is))
      × (after.transactions ≡ is.transactions)
unfolding make_read_only begin_transaction
make_read_only_lem is tx = (is_empty is.transactions, ground arith, ground arith)
  where
    is_empty :
        (s : List ℕ) → ((make_read_only (record is { transactions = s })).0 ≡ true) ↔ (s ≡ [])
    is_empty [] = (λ _. refl, λ _. refl)
    is_empty (x ∷ s) = (λ e. absurd (ground arith), λ e. cc)

-- An index with a registered writer cannot be made read-only.
pub make_read_only_refused :
    (is : IndexSchema) (tx : ℕ) → writes tx is ≡ true → make_read_only is ≡ (false, is)
unfolding make_read_only
make_read_only_refused is tx h = ground (arith, length_pos_of_mem tx is.transactions)
