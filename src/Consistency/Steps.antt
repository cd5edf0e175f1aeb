-- ===== src/Consistency/Steps.antt =====
-- The rules by which a method of the example leaves handles and schemas as they are.
use sigmod2012contest.Base.{
  ℕ, ◌≤◌, ◌≡◌, inl, inr, refl, sym, ap, ◌∙◌, Bool, true, false, Option, none, some, ◌==◌,
  if◌then◌else◌, Bool-cases, arith,
}
use sigmod2012contest.Containers.AddressSet.{mem}
use sigmod2012contest.Bdb.{
  Bdb, M, Outcome, returns, throws, faults, out_of_fuel, resume, ◌>>=◌, pure, Exception,
}
use sigmod2012contest.Schema.{IndexSchema}
use sigmod2012contest.Objects.{
  World, Transaction, Index, Iterator, update, bdb, deref, loaded, on_found, on_iterator,
  set_iterator, set_transaction, new_address, get_world, fault, released, free_new,
}
use sigmod2012contest.Api.{handled, try_catch}
use sigmod2012contest.Consistency.{view, Quiet, Quiet-refl, Quiet-trans, IsOpen}

module _ {b : Bdb} where
  -- `m` is quiet from every state, however it ends.
  pub record IsQuiet {A : Type 0} (m : M (World b) A) : Type 0 where
    pub at : (w : World b) → Quiet w (m w).1

  abbrev pub EndsQuiet : {A : Type 0} → World b → Outcome A × World b → Type 0
  EndsQuiet w r = Quiet w r.1

  -- A sequence of calls, where the rest may use what the first one has left.
  pub resume-Quiet :
      {A B : Type 0} (w : World b) (r : Outcome A × World b) (f : A → M (World b) B)
      → Quiet w r.1
      → ((a : A) → r.0 ≡ returns a → Quiet w (f a r.1).1)
      → Quiet w (resume r f).1
  resume-Quiet w (returns a, w') f q k = k a refl
  resume-Quiet w (throws x, w') f q k = q
  resume-Quiet w (faults, w') f q k = q
  resume-Quiet w (out_of_fuel, w') f q k = q

  pub bind-Quiet :
      {A B : Type 0} (m : M (World b) A) (f : A → M (World b) B) (w : World b)
      → Quiet w (m w).1
      → ((a : A) (w' : World b) → Quiet w w' → Quiet w' (f a w').1)
      → Quiet w ((m >>= f) w).1
  bind-Quiet m f w q k =
      resume-Quiet w (m w) f q λ a e. Quiet-trans w (m w).1 (f a (m w).1).1 q (k a (m w).1 q)

  pub bind-IsQuiet :
      {A B : Type 0} (m : M (World b) A) (f : A → M (World b) B)
      → IsQuiet m
      → ((a : A) → IsQuiet (f a))
      → IsQuiet (m >>= f)
  bind-IsQuiet m f q k = record { at = λ w. bind-Quiet m f w (q.at w) λ a w' _. (k a).at w' }

  handled-Quiet :
      {A : Type 0} (w : World b) (r : Outcome A × World b) (f : Exception → M (World b) A)
      → Quiet w r.1
      → ((x : Exception) → IsQuiet (f x))
      → Quiet w (handled r f).1
  handled-Quiet w (returns a, w') f q k = q
  handled-Quiet w (throws x, w') f q k = Quiet-trans w w' (f x w').1 q ((k x).at w')
  handled-Quiet w (faults, w') f q k = q
  handled-Quiet w (out_of_fuel, w') f q k = q

  -- `delete`: the destructor and the release of the memory.
  pub released-Quiet :
      (w : World b) (release : World b → World b) (r : Outcome (Unit {0}) × World b)
      → Quiet w r.1
      → ((v : World b) → Quiet v (release v))
      → Quiet w (released release r).1
  unfolding released
  released-Quiet w release (returns _, w') q k = Quiet-trans w w' (release w') q (k w')
  released-Quiet w release (throws x, w') q k = Quiet-trans w w' (release w') q (k w')
  released-Quiet w release (faults, w') q k = q
  released-Quiet w release (out_of_fuel, w') q k = q

  pub fault-IsQuiet : {A : Type 0} → IsQuiet {A = A} fault
  fault-IsQuiet = record { at = Quiet-refl }

  loaded-Quiet : {A : Type 0} (o : Option A) (w : World b) → Quiet w (loaded o w).1
  loaded-Quiet none w = Quiet-refl w
  loaded-Quiet (some a) w = Quiet-refl w

  pub loaded-IsQuiet : {A : Type 0} (o : Option A) → IsQuiet (loaded o)
  loaded-IsQuiet o = record { at = loaded-Quiet o }

  pub try_catch-IsQuiet :
      {A : Type 0} (m : M (World b) A) (f : Exception → M (World b) A)
      → IsQuiet m
      → ((x : Exception) → IsQuiet (f x))
      → IsQuiet (try_catch m f)
  try_catch-IsQuiet m f q k = record { at = λ w. handled-Quiet w (m w) f (q.at w) k }

  pub pure-IsQuiet : {A : Type 0} (a : A) → IsQuiet (pure {S = World b} a)
  pure-IsQuiet a = record { at = Quiet-refl }

  pub if-IsQuiet :
      {A : Type 0} (c : Bool) (m n : M (World b) A)
      → IsQuiet m
      → IsQuiet n
      → IsQuiet (if c then m else n)
  if-IsQuiet true m n q r = q
  if-IsQuiet false m n q r = r

  pub if-Quiet :
      {A : Type 0} (c : Bool) (m n : M (World b) A) (w : World b)
      → (c ≡ true → Quiet w (m w).1)
      → (c ≡ false → Quiet w (n w).1)
      → Quiet w ((if c then m else n) w).1
  if-Quiet true m n w q r = q refl
  if-Quiet false m n w q r = r refl

  -- A read through a pointer, after which the rest may use what was found there.
  pub read-Quiet :
      {A B : Type 0} (heap : World b → ℕ → Option A) (o : Option ℕ) (f : A → M (World b) B)
      (w : World b)
      → ((p : ℕ) (a : A) → o ≡ some p → heap w p ≡ some a → Quiet w (f a w).1)
      → Quiet w ((deref heap o >>= f) w).1
  read-Quiet heap none f w k = Quiet-refl w
  read-Quiet heap (some p) f w k = go (heap w p) refl
    where
      go : (o : Option _) → heap w p ≡ o → Quiet w (resume (loaded o w) f).1
      go none e = Quiet-refl w
      go (some a) e = k p a refl e

  pub read-IsQuiet :
      {A B : Type 0} (heap : World b → ℕ → Option A) (o : Option ℕ) (f : A → M (World b) B)
      → ((a : A) → IsQuiet (f a))
      → IsQuiet (deref heap o >>= f)
  read-IsQuiet heap o f k = record { at = λ w. read-Quiet heap o f w λ p a h e. (k a).at w }

  -- What is not among the handles and schemas does not matter.
  pub unseen :
      (w w' : World b)
      → w.next ≤ w'.next
      → w'.indices ≡ w.indices
      → w'.handles ≡ w.handles
      → w'.schemas ≡ w.schemas
      → Quiet w w'
  unseen w w' l n h s = record {
    later = l;
    same = n;
    open_before = λ i o. ap (λ (f : ℕ → Option Index). view (f i)) h;
    kept = λ q is e. (is, ap (λ (f : ℕ → Option IndexSchema). f q) s ∙ e, λ i o m. m);
    none_made = λ q e. ap (λ (f : ℕ → Option IndexSchema). f q) s ∙ e;
  }

  pub bdb-IsQuiet : {A : Type 0} (m : M b.Env A) → IsQuiet (bdb {b = b} m)
  bdb-IsQuiet m = record { at = λ w. unseen w _ (omega arith) refl refl refl }

  pub set_transaction-IsQuiet :
      (p : ℕ) (v : Option Transaction) → IsQuiet (set_transaction {b = b} p v)
  set_transaction-IsQuiet p v = record { at = λ w. unseen w _ (omega arith) refl refl refl }

  pub set_iterator-IsQuiet : (p : ℕ) (v : Option Iterator) → IsQuiet (set_iterator {b = b} p v)
  set_iterator-IsQuiet p v = record { at = λ w. unseen w _ (omega arith) refl refl refl }

  pub new_address-IsQuiet : IsQuiet (new_address {b = b})
  new_address-IsQuiet = record { at = λ w. unseen w _ (omega arith) refl refl refl }

  on_found-Quiet :
      {A : Type 0} (p : ℕ) (m : M (Iterator × b.Env) A) (o : Option Iterator) (w : World b)
      → Quiet w (on_found p m o w).1
  on_found-Quiet p m none w = Quiet-refl w
  on_found-Quiet p m (some it) w = unseen w _ (omega arith) refl refl refl

  pub on_iterator-IsQuiet :
      {A : Type 0} (p : ℕ) (m : M (Iterator × b.Env) A) → IsQuiet (on_iterator {b = b} p m)
  on_iterator-IsQuiet p m = record { at = λ w. on_found-Quiet p m (w.iterators p) w }

  pub get_world-IsQuiet : IsQuiet (get_world {b = b})
  get_world-IsQuiet = record { at = Quiet-refl }

  -- A handle is written, which is closed or points to what it pointed to.
  pub set_handle-Quiet :
      (i : ℕ) (v : Option Index) (w : World b)
      → ((ix : Index) → v ≡ some ix → ix.closed ≡ false → view v ≡ view (w.handles i))
      → Quiet w (record w { handles = update w.handles i v })
  set_handle-Quiet i v w h = record {
    later = omega arith;
    same = refl;
    open_before = λ j o. elim (Bool-cases (j == i)) [
      | inl e ↦
          let here : j ≡ i = ground arith in
          let (ix, at, c) = o in
          let at' : v ≡ some ix = ground arith in
          rw e (h ix at' c ∙ ap (λ q. view (w.handles q)) (sym here))
      | inr e ↦ rw e refl
    ];
    kept = λ s is e. (is, e, λ j o m. m);
    none_made = λ s e. e;
  }

  -- A schema is written over one that has no open handle that the new one does not have.
  pub set_schema-Quiet :
      (s : ℕ) (is is' : IndexSchema) (w : World b)
      → w.schemas s ≡ some is
      → ((i : ℕ) → IsOpen w i → mem i is.handles ≡ true → mem i is'.handles ≡ true)
      → Quiet w (record w { schemas = update w.schemas s (some is') })
  set_schema-Quiet s is is' w at h = record {
    later = omega arith;
    same = refl;
    open_before = λ j o. refl;
    kept = λ q js e. elim (Bool-cases (q == s)) [
      | inl t ↦
          let here : q ≡ s = ground arith in
          let eq : is ≡ js = ground (arith, sym at ∙ ap w.schemas (sym here) ∙ e) in
          (is', rw t refl, λ i o m. h i o (rw eq m))
      | inr t ↦ (js, rw t e, λ i o m. m)
    ];
    none_made = λ q e. elim (Bool-cases (q == s)) [
      | inl t ↦
          let here : q ≡ s = ground arith in
          absurd (ground (arith, sym at ∙ ap w.schemas (sym here) ∙ e))
      | inr t ↦ rw t e
    ];
  }

pub ruleset quiet_steps = (
  bind-IsQuiet, pure-IsQuiet, if-IsQuiet, read-IsQuiet, bdb-IsQuiet, set_transaction-IsQuiet,
  set_iterator-IsQuiet, new_address-IsQuiet, on_iterator-IsQuiet, get_world-IsQuiet, fault-IsQuiet,
)

module _ {b : Bdb} where
  pub free_new-IsQuiet : IsQuiet (free_new {b = b})
  unfolding free_new
  free_new-IsQuiet = search quiet_steps
