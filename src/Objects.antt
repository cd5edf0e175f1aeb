-- ===== src/Objects.antt =====
-- The objects of the example implementation and the state of the process: example/index.h,
-- example/iterator.h and example/transaction.h. A pointer is the address of an object in the state;
-- `none` is NULL (0 for a DbTxn*), also where the source leaves a pointer unset until it is first assigned.
use sigmod2012contest.Base.{ℕ, ◌+◌, Bool, Option, none, some, ◌==◌, if◌then◌else◌}
use sigmod2012contest.Containers.Text.{Text}
use sigmod2012contest.Containers.AddressSet.{AddressSet}
use sigmod2012contest.Containers.Map.{Map}
use sigmod2012contest.Bdb.{Bdb, M, Outcome, returns, throws, faults, out_of_fuel, ◌>>=◌, pure}
use sigmod2012contest.Schema.{IndexSchema}

pub record Transaction : Type 0 where
  pub indices : AddressSet
  pub tid : ℕ
  pub finished : Bool

pub record Index : Type 0 where
  pub name : Text
  pub db : Option ℕ
  pub schema : Option ℕ
  pub closed : Bool
  pub iterators : AddressSet

pub record Iterator : Type 0 where
  pub index : Option ℕ
  pub is : Option ℕ
  pub cursor : Option ℕ
  pub min_key : Text
  pub max_key : Text
  pub key : Text
  pub value : Text
  pub closed : Bool
  pub end : Bool
  pub initialized : Bool
  pub key_set : Bool

-- `fresh` is what a byte of new memory holds before it is written, and `free_takes_new` is whether the
-- platform lets free() release what new and new[] have allocated, which C++ leaves undefined. `schemas` to `iterators` are the
-- objects that are allocated, `indices` is the map of the IndexManager, and `next` is an address
-- that no object has had.
pub record World (b : Bdb) : Type 0 where
  pub env : b.Env
  pub fresh : ℕ
  pub free_takes_new : Bool
  pub next : ℕ
  pub indices : Map ℕ
  pub schemas : ℕ → Option IndexSchema
  pub transactions : ℕ → Option Transaction
  pub handles : ℕ → Option Index
  pub iterators : ℕ → Option Iterator

abbrev pub update {ℓ} : {A : Type ℓ} → (ℕ → A) → ℕ → A → ℕ → A
update f p v q = if q == p then v else f q

-- A call of Berkeley DB.
abbrev pub bdb : {b : Bdb} {A : Type 0} → M b.Env A → M (World b) A
bdb m w = let (r, e) = m w.env in (r, record w { env = e })

-- What is found at an address: nothing, if the pointer dangles.
abbrev pub loaded : {S A : Type 0} → Option A → S → Outcome A × S
loaded none w = (faults, w)
loaded (some a) w = (returns a, w)

-- Undefined behaviour.
abbrev pub fault : {S A : Type 0} → M S A
fault w = (faults, w)

-- `*p`, for a pointer that may be NULL or dangling.
abbrev pub deref : {S A : Type 0} → (S → ℕ → Option A) → Option ℕ → M S A
deref heap none w = (faults, w)
deref heap (some p) w = loaded (heap w p) w

abbrev pub modify : {S : Type 0} → (S → S) → M S (Unit {0})
modify f w = (returns tt, f w)

-- `delete p`, after the destructor of the object has run: the memory is released although the destructor
-- has thrown.
unfoldable pub released : {S : Type 0} → (S → S) → Outcome (Unit {0}) × S → Outcome (Unit {0}) × S
released release (returns _, w) = (returns tt, release w)
released release (throws x, w) = (throws x, release w)
released release (faults, w) = (faults, w)
released release (out_of_fuel, w) = (out_of_fuel, w)

module _ {b : Bdb} where
  abbrev pub set_schema : ℕ → Option IndexSchema → M (World b) (Unit {0})
  set_schema p v = modify λ (w : World b). record w { schemas = update w.schemas p v }

  abbrev pub set_transaction : ℕ → Option Transaction → M (World b) (Unit {0})
  set_transaction p v =
      modify λ (w : World b). record w { transactions = update w.transactions p v }

  abbrev pub set_handle : ℕ → Option Index → M (World b) (Unit {0})
  set_handle p v = modify λ (w : World b). record w { handles = update w.handles p v }

  abbrev pub set_iterator : ℕ → Option Iterator → M (World b) (Unit {0})
  set_iterator p v = modify λ (w : World b). record w { iterators = update w.iterators p v }

  abbrev pub set_indices : Map ℕ → M (World b) (Unit {0})
  set_indices m = modify λ (w : World b). record w { indices = m }

  -- `new`: an address for an object.
  abbrev pub new_address : M (World b) ℕ
  new_address w = (returns w.next, record w { next = w.next + 1 })

  abbrev pub stored :
      {A : Type 0} → ℕ → World b → Outcome A × (Iterator × b.Env) → Outcome A × World b
  stored p w (r, s) = (r, record w { env = s.1; iterators = update w.iterators p (some s.0) })

  abbrev pub on_found : {A : Type 0} → ℕ → M (Iterator × b.Env) A → Option Iterator → M (World b) A
  on_found p m none w = (faults, w)
  on_found p m (some it) w = stored p w (m (it, w.env))

  -- A method of an iterator that uses only its own fields and Berkeley DB.
  abbrev pub on_iterator : {A : Type 0} → ℕ → M (Iterator × b.Env) A → M (World b) A
  on_iterator p m w = on_found p m (w.iterators p) w

  abbrev pub get_world : M (World b) (World b)
  get_world w = (returns w, w)

  -- `free(p)` of a p that comes from new or new[].
  unfoldable pub free_new : M (World b) (Unit {0})
  free_new = do w ← get_world; if w.free_takes_new then pure tt else fault

  abbrev pub schema_at : Option ℕ → M (World b) IndexSchema
  schema_at = deref (λ (w : World b). w.schemas)

  abbrev pub transaction_at : Option ℕ → M (World b) Transaction
  transaction_at = deref (λ (w : World b). w.transactions)

  abbrev pub handle_at : Option ℕ → M (World b) Index
  handle_at = deref (λ (w : World b). w.handles)

  abbrev pub iterator_at : Option ℕ → M (World b) Iterator
  iterator_at = deref (λ (w : World b). w.iterators)
