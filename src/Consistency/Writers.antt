-- ===== src/Consistency/Writers.antt =====
-- The methods of Transaction, example/transaction.cc, are quiet.
use sigmod2012contest.Base.{
  ℕ, ◌≡◌, sym, ap, ◌∙◌, some, List, [], ◌∷◌, Bool-cases, inl, inr, ◌==◌, arith,
}
use sigmod2012contest.Containers.AddressSet.{mem}
use sigmod2012contest.Bdb.{Bdb}
use sigmod2012contest.Schema.{IndexSchema, begin_transaction, end_transaction}
use sigmod2012contest.Transactions.{
  begin_at, end_at, begin, use_index, end_all, close_transaction, abort, commit, delete_transaction,
  begun_tid,
}
use sigmod2012contest.Objects.{World}
use sigmod2012contest.Consistency.{Quiet-refl}
use sigmod2012contest.Consistency.Steps.{
  IsQuiet, bind-IsQuiet, read-Quiet, set_schema-Quiet, quiet_steps,
}

begin-handles : (tid : ℕ) (is : IndexSchema) → is.handles ≡ (begin_transaction tid is).1.handles
unfolding begin_transaction
begin-handles tid is = ground arith

module _ {b : Bdb} where
  pub begin_at-IsQuiet : (s tid : ℕ) → IsQuiet (begin_at {b = b} s tid)
  unfolding begin_at
  begin_at-IsQuiet s tid = record {
    at = λ w.
        read-Quiet (λ (v : World b). v.schemas) (some s) _ w
          λ p is e h.
            set_schema-Quiet s is (begin_transaction tid is).1 w (ground (arith, h))
              λ i o m. ap (mem i) (sym (begin-handles tid is)) ∙ m;
  }

  pub end_at-IsQuiet : (s tid : ℕ) → IsQuiet (end_at {b = b} s tid)
  unfolding end_at end_transaction
  end_at-IsQuiet s tid = record {
    at = λ w.
        read-Quiet (λ (v : World b). v.schemas) (some s) _ w
          λ p is e h.
            set_schema-Quiet s is (end_transaction tid is) w (ground (arith, h)) λ i o m. m;
  }

  pub begin-IsQuiet : (t : ℕ) → IsQuiet (begin {b = b} t)
  unfolding begin
  begin-IsQuiet t = search quiet_steps

  pub use_index-IsQuiet : (t s : ℕ) → IsQuiet (use_index {b = b} t s)
  unfolding use_index
  use_index-IsQuiet t s = search (quiet_steps, begin_at-IsQuiet)

  end_all-IsQuiet : (ss : List ℕ) (tid : ℕ) → IsQuiet (end_all {b = b} ss tid)
  unfolding end_all
  end_all-IsQuiet [] tid = search quiet_steps
  end_all-IsQuiet (s ∷ ss) tid =
      bind-IsQuiet (end_at s tid) (λ _. end_all ss tid) (end_at-IsQuiet s tid)
        (λ _. end_all-IsQuiet ss tid)

  close_transaction-IsQuiet : (t : ℕ) → IsQuiet (close_transaction {b = b} t)
  unfolding close_transaction
  close_transaction-IsQuiet t = search (quiet_steps, end_all-IsQuiet)

  begun_tid-IsQuiet : (tid : ℕ) → IsQuiet (begun_tid {b = b} tid)
  begun_tid-IsQuiet tid = record {
    at = λ w. elim (Bool-cases (tid == 0)) [
      | inl e ↦ rw e (Quiet-refl w)
      | inr e ↦ rw e (Quiet-refl w)
    ];
  }

  pub abort-IsQuiet : (t : ℕ) → IsQuiet (abort {b = b} t)
  unfolding abort
  abort-IsQuiet t = search (quiet_steps, begun_tid-IsQuiet, close_transaction-IsQuiet)

  pub commit-IsQuiet : (t : ℕ) → IsQuiet (commit {b = b} t)
  unfolding commit
  commit-IsQuiet t = search (quiet_steps, begun_tid-IsQuiet, close_transaction-IsQuiet)

  pub delete_transaction-IsQuiet : (t : ℕ) → IsQuiet (delete_transaction {b = b} t)
  unfolding delete_transaction
  delete_transaction-IsQuiet t = search (quiet_steps, close_transaction-IsQuiet)
