-- ===== src/Safety/Access.antt =====
-- The reads and writes of the operands of a call.
use sigmod2012contest.Base.{
  ℕ, ◌≡◌, refl, subst, false, Option, none, some, ◌==◌, Bool-cases, inl, inr, arith,
}
use sigmod2012contest.Bdb.{Bdb, M, ◌>>=◌}
use sigmod2012contest.Schema.{IndexSchema}
use sigmod2012contest.Objects.{
  World, Transaction, Index, Iterator, update, deref, set_schema, set_handle, set_iterator,
  set_transaction, free_new, schema_at, handle_at, transaction_at, iterator_at,
}
use sigmod2012contest.Indexes.{required}
use sigmod2012contest.Safety.{
  IsSafe, Operands, IsAllocated, HasIterator, Holds, IsDefined, bind-IsDefined, pure-IsDefined,
  if-IsDefined, get_world-IsDefined, bdb-IsDefined,
}

updated_transaction :
    (heap : ℕ → Option Transaction) (t : ℕ) (v : Transaction) (o : Option ℕ)
    → IsAllocated heap o
    → IsAllocated (update heap t (some v)) o
updated_transaction heap t v none h = tt
updated_transaction heap t v (some q) h = elim (Bool-cases (q == t)) [
  | inl e ↦ (v, rw e refl)
  | inr e ↦ (h.0, rw e h.1)
]

pub updated_iterator :
    (heap : ℕ → Option Iterator) (p : ℕ) (v : Iterator) (i : ℕ) (o : Option ℕ)
    → (v.closed ≡ false → v.index ≡ some i)
    → HasIterator heap i o
    → HasIterator (update heap p (some v)) i o
updated_iterator heap p v i none own h = tt
updated_iterator heap p v i (some q) own h = elim (Bool-cases (q == p)) [
  | inl e ↦ (v, rw e refl, own)
  | inr e ↦ (h.0, rw e h.1, h.2)
]

module _ {b : Bdb} {x : Operands} where
  -- A read of what is there.
  pub found-IsDefined :
      {A B : Type 0} (heap : World b → ℕ → Option A) (p : ℕ) (f : A → M (World b) B)
      (P : A → Type 0)
      → ((w : World b) → Holds x w → (a : A) × (heap w p ≡ some a) × P a)
      → ((a : A) → P a → IsDefined x (f a))
      → IsDefined x (deref heap (some p) >>= f)
  found-IsDefined heap p f P there k = record {
    at = λ w g. let (a, at, h) = there w g in rw (at, ◌>>=◌) ((k a h).at w g);
  }

  pub read_handle :
      {B : Type 0} (f : Index → M (World b) B)
      → ((ix : Index)
          → ix.closed ≡ false
          → ix.schema ≡ some x.schema
          → ix.db ≡ some x.database
          → IsDefined x (f ix))
      → IsDefined x (handle_at (some x.handle) >>= f)
  read_handle f k =
      found-IsDefined (λ (w : World b). w.handles) x.handle f
        (λ (ix : Index).
          (ix.closed ≡ false) × (ix.schema ≡ some x.schema) × (ix.db ≡ some x.database))
        (λ w g. (g.handle.0, g.handle.1, (g.handle.2, g.handle.3, g.handle.4)))
        (λ ix h. k ix h.0 h.1 h.2)

  pub read_schema :
      {B : Type 0} (o : Option ℕ) (f : IndexSchema → M (World b) B)
      → o ≡ some x.schema
      → ((is : IndexSchema) → is.type ≡ x.types → IsDefined x (f is))
      → IsDefined x (schema_at o >>= f)
  read_schema o f e k = rw e (
      found-IsDefined (λ (w : World b). w.schemas) x.schema f (λ is. is.type ≡ x.types)
        (λ w g. (g.schema.0, g.schema.1, g.schema.2)) k)

  pub read_transaction :
      {B : Type 0} (t : ℕ) (f : Transaction → M (World b) B)
      → x.transaction ≡ some t
      → ((tx : Transaction) → IsDefined x (f tx))
      → IsDefined x (transaction_at (some t) >>= f)
  read_transaction t f e k =
      found-IsDefined (λ (w : World b). w.transactions) t f (λ _. Unit {0})
        (λ w g. let (tx, h) = subst (IsAllocated w.transactions) e g.transaction in (tx, h, tt))
        (λ a _. k a)

  pub read_iterator :
      {B : Type 0} (p : ℕ) (f : Iterator → M (World b) B)
      → x.iterator ≡ some p
      → ((it : Iterator) → (it.closed ≡ false → it.index ≡ some x.handle) → IsDefined x (f it))
      → IsDefined x (iterator_at (some p) >>= f)
  read_iterator p f e k =
      found-IsDefined (λ (w : World b). w.iterators) p f
        (λ (it : Iterator). it.closed ≡ false → it.index ≡ some x.handle)
        (λ w g. subst (HasIterator w.iterators x.handle) e g.iterator) k

  pub read_pointer :
      {B : Type 0} (o : Option ℕ) (q : ℕ) (f : ℕ → M (World b) B)
      → o ≡ some q
      → IsDefined x (f q)
      → IsDefined x (required {b = b} o >>= f)
  read_pointer o q f e k = rw e (record { at = λ w g. k.at w g })

  pub set_schema-IsDefined :
      (v : IndexSchema) → v.type ≡ x.types → IsDefined x (set_schema {b = b} x.schema (some v))
  set_schema-IsDefined v same = record {
    at = λ w g. (
      tt,
      record {
        handle = g.handle;
        schema = (v, ground arith, same);
        frees = g.frees;
        transaction = g.transaction;
        iterator = g.iterator;
      },
    );
  }

  pub set_transaction-IsDefined :
      (t : ℕ) (v : Transaction) → IsDefined x (set_transaction {b = b} t (some v))
  set_transaction-IsDefined t v = record {
    at = λ w g. (
      tt,
      record {
        handle = g.handle;
        schema = g.schema;
        frees = g.frees;
        transaction = updated_transaction w.transactions t v x.transaction g.transaction;
        iterator = g.iterator;
      },
    );
  }

  pub set_iterator-IsDefined :
      (p : ℕ) (v : Iterator)
      → (v.closed ≡ false → v.index ≡ some x.handle)
      → IsDefined x (set_iterator {b = b} p (some v))
  set_iterator-IsDefined p v own = record {
    at = λ w g. (
      tt,
      record {
        handle = g.handle;
        schema = g.schema;
        frees = g.frees;
        transaction = g.transaction;
        iterator = updated_iterator w.iterators p v x.handle x.iterator own g.iterator;
      },
    );
  }

  pub set_handle-IsDefined :
      (v : Index)
      → v.closed ≡ false
      → v.schema ≡ some x.schema
      → v.db ≡ some x.database
      → IsDefined x (set_handle {b = b} x.handle (some v))
  set_handle-IsDefined v o s d = record {
    at = λ w g. (
      tt,
      record {
        handle = (v, ground arith, o, s, d);
        schema = g.schema;
        frees = g.frees;
        transaction = g.transaction;
        iterator = g.iterator;
      },
    );
  }

  pub free_new-IsDefined : IsDefined x (free_new {b = b})
  unfolding free_new
  free_new-IsDefined = record { at = λ w g. simp (g.frees, ◌>>=◌) (tt, g) }

  pub ruleset safe_steps = (
    bind-IsDefined, pure-IsDefined, if-IsDefined, get_world-IsDefined, bdb-IsDefined, read_handle,
    read_schema, read_transaction, read_iterator, read_pointer, set_schema-IsDefined,
    set_transaction-IsDefined, set_iterator-IsDefined, set_handle-IsDefined,
  )
