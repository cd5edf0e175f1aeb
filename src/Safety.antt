-- ===== src/Safety.antt =====
-- When the methods of Index and Iterator keep clear of undefined behaviour: what a call on an open
-- handle relies on, and the rules by which each step keeps it.
pub mod Access
pub mod Records
pub mod Cursors
pub mod Calls
use sigmod2012contest.Base.{
  ℕ, ◌≡◌, refl, sym, ap, ◌∙◌, Bool, true, false, Option, none, some, List, ◌==◌, Bool-cases, inl,
  inr, if◌then◌else◌, arith,
}
use sigmod2012contest.Containers.Text.{Text}
use sigmod2012contest.Interface.{AttributeType}
use sigmod2012contest.Bdb.{
  Bdb, M, Outcome, returns, throws, faults, out_of_fuel, resume, ◌>>=◌, ◌>>◌, pure, Exception, Ends,
  Position, Entry,
}
use sigmod2012contest.Schema.{IndexSchema}
use sigmod2012contest.Objects.{
  World, Transaction, Index, Iterator, update, bdb, deref, loaded, set_schema, set_handle,
  set_iterator, set_transaction, get_world, schema_at, handle_at, transaction_at, iterator_at,
}

-- Each call of Berkeley DB ends by a return or by an exception.
pub record EndsAlways (b : Bdb) : Type 0 where
  pub txn_begin : (t : ℕ) (e : b.Env) → Ends (b.txn_begin t e).0
  pub txn_abort : (t : ℕ) (e : b.Env) → Ends (b.txn_abort t e).0
  pub txn_commit : (t : ℕ) (e : b.Env) → Ends (b.txn_commit t e).0
  pub db_put : (d t : ℕ) (x : Entry) (e : b.Env) → Ends (b.db_put d t x e).0
  pub db_cursor : (d t : ℕ) (e : b.Env) → Ends (b.db_cursor d t e).0
  pub cursor_get : (c : ℕ) (p : Position) (x : Entry) (e : b.Env) → Ends (b.cursor_get c p x e).0
  pub cursor_put : (c : ℕ) (x : Text) (e : b.Env) → Ends (b.cursor_put c x e).0
  pub cursor_del : (c : ℕ) (e : b.Env) → Ends (b.cursor_del c e).0
  pub cursor_close : (c : ℕ) (e : b.Env) → Ends (b.cursor_close c e).0

-- Not undefined behaviour.
abbrev pub IsSafe : {A : Type 0} → Outcome A → Type 0
IsSafe faults = ⊥
IsSafe (returns _) = Unit {0}
IsSafe (throws _) = Unit {0}
IsSafe out_of_fuel = Unit {0}

pub Ends-IsSafe : {A : Type 0} (r : Outcome A) → Ends r → IsSafe r
Ends-IsSafe (returns _) h = tt
Ends-IsSafe (throws _) h = tt
Ends-IsSafe faults h = h
Ends-IsSafe out_of_fuel h = tt

-- The objects of a call: an open handle with its schema and database, and, if not NULL, the
-- transaction of the client and an iterator that is being set up.
pub record Operands : Type 0 where
  pub handle : ℕ
  pub schema : ℕ
  pub database : ℕ
  pub transaction : Option ℕ
  pub iterator : Option ℕ
  pub types : List AttributeType

-- A pointer is NULL, or there is an object at its address.
abbrev pub IsAllocated : {A : Type 0} → (ℕ → Option A) → Option ℕ → Type 0
IsAllocated heap none = Unit {0}
IsAllocated {A} heap (some p) = (a : A) × (heap p ≡ some a)

-- The same of an iterator, which belongs to the handle at i when it is open.

abbrev pub HasIterator : (ℕ → Option Iterator) → ℕ → Option ℕ → Type 0
HasIterator heap i none = Unit {0}
HasIterator heap i (some p) =
    (it : Iterator) × (heap p ≡ some it) × (it.closed ≡ false → it.index ≡ some i)

module _ {b : Bdb} where
  pub record Holds (x : Operands) (w : World b) : Type 0 where
    pub handle :
        (ix : Index) × (w.handles x.handle ≡ some ix)
        × (ix.closed ≡ false)
        × (ix.schema ≡ some x.schema)
        × (ix.db ≡ some x.database)
    pub schema : (is : IndexSchema) × (w.schemas x.schema ≡ some is) × (is.type ≡ x.types)
    pub frees : w.free_takes_new ≡ true
    pub transaction : IsAllocated w.transactions x.transaction
    pub iterator : HasIterator w.iterators x.handle x.iterator

  -- Wherever the operands are there, `m` is safe, and they are there after it, however it ends.
  pub record IsDefined {A : Type 0} (x : Operands) (m : M (World b) A) : Type 0 where
    pub at : (w : World b) → Holds x w → IsSafe (m w).0 × Holds x (m w).1

  module _ {x : Operands} where
    pub resume_defined :
        {A B : Type 0} (r : Outcome A × World b) (f : A → M (World b) B)
        → IsSafe r.0 × Holds x r.1
        → ((a : A) → IsDefined x (f a))
        → IsSafe (resume r f).0 × Holds x (resume r f).1
    resume_defined (returns a, w') f h k = (k a).at w' h.1
    resume_defined (throws e, w') f h k = h
    resume_defined (faults, w') f h k = absurd h.0
    resume_defined (out_of_fuel, w') f h k = h

    pub bind-IsDefined :
        {A B : Type 0} (m : M (World b) A) (f : A → M (World b) B)
        → IsDefined x m
        → ((a : A) → IsDefined x (f a))
        → IsDefined x (m >>= f)
    bind-IsDefined m f h k = record { at = λ w g. resume_defined (m w) f (h.at w g) k }

    pub pure-IsDefined : {A : Type 0} (a : A) → IsDefined x (pure {S = World b} a)
    pure-IsDefined a = record { at = λ w g. (tt, g) }

    pub loaded-IsDefined :
        {A : Type 0} (o : Option A) → (a : A) × (o ≡ some a) → IsDefined x (loaded {S = World b} o)
    loaded-IsDefined o h = record { at = λ w g. rw h.1 (tt, g) }

    pub if-IsDefined :
        {A : Type 0} (c : Bool) (m n : M (World b) A)
        → (c ≡ true → IsDefined x m)
        → (c ≡ false → IsDefined x n)
        → IsDefined x (if c then m else n)
    if-IsDefined true m n h k = h refl
    if-IsDefined false m n h k = k refl

    pub get_world-IsDefined : IsDefined x (get_world {b = b})
    get_world-IsDefined = record { at = λ w g. (tt, g) }

    Holds-env : (w : World b) (e : b.Env) → Holds x w → Holds x (record w { env = e })
    Holds-env w e g = record {
      handle = g.handle;
      schema = g.schema;
      frees = g.frees;
      transaction = g.transaction;
      iterator = g.iterator;
    }

    pub bdb-IsDefined :
        {A : Type 0} (m : M b.Env A) → ((e : b.Env) → Ends (m e).0) → IsDefined x (bdb {b = b} m)
    bdb-IsDefined m h = record {
      at = λ w g. (Ends-IsSafe (m w.env).0 (h w.env), Holds-env w (m w.env).1 g);
    }
