-- ===== src/Bdb.antt =====
-- What the example implementation uses of Berkeley DB, which is not part of the repository: the
-- operations are the fields of a record, and what its documentation promises of a cursor is a second
-- record. Handles (Db*, DbTxn*, Dbc*) are numbers;
-- a DbTxn* of 0 is NULL.
use sigmod2012contest.Base.{ℕ, ◌≡◌, false, List, ◌∷◌, [], ◌++◌, All}
use sigmod2012contest.Containers.Text.{Text}
use sigmod2012contest.Interface.{AttributeType}
use sigmod2012contest.Keys.{negative, positive, key_cmp}

-- DbDeadlockException, DbMemoryException, and other exceptions by their get_errno(): EEXIST, ENOENT,
-- EINVAL and the rest.
pub data Exception : Type 0 where
  deadlock memory exists no_entry invalid other : Exception

-- 0, DB_NOTFOUND, and any other code that is returned and not thrown.
pub data Code : Type 0 where
  success not_found failure : Code

-- How a call ends. `faults` is undefined behaviour, such as a read through a dangling pointer, and
-- `out_of_fuel` is a loop that was cut off.
pub data Outcome (A : Type 0) : Type 0 where
  returns : A → Outcome A
  throws : Exception → Outcome A
  faults : Outcome A
  out_of_fuel : Outcome A

-- A call on a state.
abbrev pub M : Type 0 → Type 0 → Type 0
M S A = S → Outcome A × S

-- What follows a call: nothing, unless it has returned.
abbrev pub resume : {S A B : Type 0} → Outcome A × S → (A → M S B) → Outcome B × S
resume (returns a, s) f = f a s
resume (throws e, s) f = (throws e, s)
resume (faults, s) f = (faults, s)
resume (out_of_fuel, s) f = (out_of_fuel, s)

infixl 5 ◌>>=◌ ◌>>◌
abbrev pub ◌>>=◌ : {S A B : Type 0} → M S A → (A → M S B) → M S B
◌>>=◌ m f s = resume (m s) f

abbrev pub ◌>>◌ : {S B : Type 0} → M S (Unit {0}) → M S B → M S B
m >> k = m >>= λ _. k

abbrev pub pure : {S A : Type 0} → A → M S A
pure a s = (returns a, s)

-- The bytes of a key Dbt and of a data Dbt.
pub record Entry : Type 0 where
  pub key : Text
  pub value : Text

-- Where a cursor goes: DB_SET_RANGE and DB_GET_BOTH from the Dbts, DB_NEXT, DB_NEXT_DUP.
pub data Position : Type 0 where
  set_range get_both next next_dup : Position

-- Each call takes the environment and leaves it changed. `cursor_get` takes what the two Dbts hold
-- and gives what they hold afterwards.
pub record Bdb : Type 1 where
  pub Env : Type 0
  pub txn_begin : ℕ → M Env ℕ
  pub txn_abort : ℕ → M Env (Unit {0})
  pub txn_commit : ℕ → M Env (Unit {0})
  pub db_create : Text → M Env (Unit {0})
  pub db_open : Text → M Env ℕ
  pub db_close : ℕ → M Env (Unit {0})
  pub db_remove : Text → M Env (Unit {0})
  pub db_put : ℕ → ℕ → Entry → M Env Code
  pub db_cursor : ℕ → ℕ → M Env ℕ
  pub cursor_get : ℕ → Position → Entry → M Env (Code × Entry)
  pub cursor_put : ℕ → Text → M Env Code
  pub cursor_del : ℕ → M Env Code
  pub cursor_close : ℕ → M Env (Unit {0})

-- Entries in the order of the b-tree: none is greater than one that follows it.
abbrev pub AreSorted : List AttributeType → List Entry → Type 0
AreSorted ts [] = Unit {0}
AreSorted ts (x ∷ xs) =
    All (λ (y : Entry). key_cmp ts x.key y.key false ≡ positive → ⊥) xs × AreSorted ts xs

abbrev pub Ends : {A : Type 0} → Outcome A → Type 0
Ends (returns _) = Unit {0}
Ends (throws _) = Unit {0}
Ends faults = ⊥
Ends out_of_fuel = ⊥

-- What the documentation says of reading by a cursor, where no other thread writes meanwhile. The
-- cursor sees the entries `all` and has `rest` before it.
pub record ReadsInOrder (b : Bdb) (ts : List AttributeType) (cursor : ℕ) : Type 0 where
  pub all : b.Env → List Entry
  pub rest : b.Env → List Entry
  -- A call ends by a return or by an exception.
  pub get_ends : (p : Position) (x : Entry) (e : b.Env) → Ends (b.cursor_get cursor p x e).0
  pub close_ends : (e : b.Env) → Ends (b.cursor_close cursor e).0
  pub sorted : (e : b.Env) → AreSorted ts (all e)
  -- DB_NEXT returns the entry that comes next, or DB_NOTFOUND at the end.
  pub next_found :
      (e e' : b.Env) (x y : Entry)
      → b.cursor_get cursor next x e ≡ (returns (success, y), e')
      → rest e ≡ y ∷ rest e'
  pub next_missing :
      (e e' : b.Env) (x y : Entry)
      → b.cursor_get cursor next x e ≡ (returns (not_found, y), e')
      → rest e ≡ []
  -- DB_SET_RANGE skips the entries below the key that it is given.
  pub range_found :
      (e e' : b.Env) (x y : Entry)
      → b.cursor_get cursor set_range x e ≡ (returns (success, y), e')
      → (skipped : List Entry) × All
          (λ (z : Entry). key_cmp ts z.key x.key false ≡ negative)
          skipped
        × (all e ≡ skipped ++ (y ∷ rest e'))
  pub range_missing :
      (e e' : b.Env) (x y : Entry)
      → b.cursor_get cursor set_range x e ≡ (returns (not_found, y), e')
      → All (λ (z : Entry). key_cmp ts z.key x.key false ≡ negative) (all e)
