-- ===== src/Benchmark/KeyStore/Stack.antt =====
-- The key store against its abstract view, a list of keys that is bounded in length.
use native.Mathlib.Nat.{mod-lt}
use sigmod2012contest.Base.{
  ℕ, zero, suc, ◌+◌, ◌-◌, ◌%◌, ◌≤◌, ◌<◌, ◌≡◌, refl, sym, ap, ◌∙◌, inl, inr, Bool, true, false, some,
  List, [], ◌∷◌, length, set, get_elem?, leb, ltb, if◌then◌else◌, Bool-cases, arith, ℤ, length-set,
}
use sigmod2012contest.Benchmark.KeyStore.{
  KeyStore, Fetched, refused, fetched, to_unsigned, fetch, new_key_store, push, pop, get,
}

-- The calls that threads make of a store that they share, in the order in which they get the lock.
pub data Call {ℓ} (K : Type ℓ) : Type ℓ where
  pushes : K → Call K
  pops : Call K
  gets : ℤ → Call K

pub data Answer {ℓ} (K : Type ℓ) : Type ℓ where
  accepted : Bool → Answer K
  answered : Fetched K → Answer K

module _ {ℓ} {K : Type ℓ} where
  abbrev pub step : Call K → KeyStore K → Answer K × KeyStore K
  step (pushes k) s = let (b, s') = push k s in (accepted b, s')
  step pops s = let (k, s') = pop s in (answered k, s')
  step (gets i) s = (answered (get i s), s)

  abbrev pub answers : List (Call K) → KeyStore K → List (Answer K)
  answers [] s = []
  answers (c ∷ cs) s = let (a, s') = step c s in a ∷ answers cs s'

  -- The abstract view: the newest key first.
  abbrev pub top : List K → Fetched K
  top [] = refused
  top (k ∷ ks) = fetched k

  abbrev pub rest : List K → List K
  rest [] = []
  rest (k ∷ ks) = ks

  -- The key that is n places from the oldest one.
  abbrev pub from_oldest : List K → ℕ → Fetched K
  from_oldest [] n = refused
  from_oldest (k ∷ ks) n = fetch (get_elem? (k ∷ ks) (length ks - n % suc (length ks)))

  abbrev pub stack_step : ℕ → Call K → List K → Answer K × List K
  stack_step capacity (pushes k) ks =
      if ltb (length ks) capacity then (accepted true, k ∷ ks) else (accepted false, ks)
  stack_step capacity pops ks = (answered (top ks), rest ks)
  stack_step capacity (gets i) ks = (answered (from_oldest ks (to_unsigned i)), ks)

  abbrev pub stack_answers : ℕ → List (Call K) → List K → List (Answer K)
  stack_answers capacity [] ks = []
  stack_answers capacity (c ∷ cs) ks =
      let (a, ks') = stack_step capacity c ks in a ∷ stack_answers capacity cs ks'

  -- An array begins with the keys of a list, of which the last comes first.
  abbrev Down : List K → List K → Type ℓ
  Down keys [] = Unit
  Down keys (k ∷ ks) = (get_elem? keys (length ks) ≡ some k) × Down keys ks

  -- A store represents a stack.
  abbrev pub Represents : KeyStore K → ℕ → List K → Type ℓ
  Represents s capacity ks =
      (s.capacity ≡ capacity)
      × (length ks ≤ capacity)
      × (s.size ≡ length ks)
      × (length s.keys ≡ capacity)
      × Down s.keys ks

  get_elem?-set :
      (keys : List K) (n : ℕ) (k : K) → n < length keys → get_elem? (set keys n k) n ≡ some k
  get_elem?-set [] n k h = absurd (omega arith)
  get_elem?-set (x ∷ keys) zero k h = refl
  get_elem?-set (x ∷ keys) (suc n) k h = get_elem?-set keys n k (omega arith)

  get_elem?-set_other :
      (keys : List K) (n i : ℕ) (k : K) → i < n → get_elem? (set keys n k) i ≡ get_elem? keys i
  get_elem?-set_other [] n i k h = refl
  get_elem?-set_other (x ∷ keys) zero i k h = absurd (omega arith)
  get_elem?-set_other (x ∷ keys) (suc n) zero k h = refl
  get_elem?-set_other (x ∷ keys) (suc n) (suc i) k h = get_elem?-set_other keys n i k (omega arith)

  Down-set :
      (keys : List K) (n : ℕ) (k : K) (ks : List K)
      → length ks ≤ n
      → Down keys ks
      → Down (set keys n k) ks
  Down-set keys n k [] le h = tt
  Down-set keys n k (x ∷ ks) le h = (
    get_elem?-set_other keys n (length ks) k (omega arith) ∙ h.0,
    Down-set keys n k ks (omega arith) h.1,
  )

  -- The i-th key from the bottom is the j-th from the top.
  get_elem?-Down :
      (keys ks : List K) (i j : ℕ)
      → Down keys ks
      → i + j + 1 ≡ length ks
      → get_elem? keys i ≡ get_elem? ks j
  get_elem?-Down keys [] i j h e = absurd (omega arith)
  get_elem?-Down keys (k ∷ ks) i zero h e =
      let at : i ≡ length ks = omega arith in ap (get_elem? keys) at ∙ h.0
  get_elem?-Down keys (k ∷ ks) i (suc j) h e = get_elem?-Down keys ks i j h.1 (omega arith)

  step-Represents :
      (capacity : ℕ) (c : Call K) (s : KeyStore K) (ks : List K)
      → Represents s capacity ks
      → ((step c s).0 ≡ (stack_step capacity c ks).0)
        × Represents (step c s).1 capacity (stack_step capacity c ks).1
  unfolding push pop get
  step-Represents capacity (pushes k) s ks (c, le, n, l, d) =
      elim (Bool-cases (ltb (length ks) capacity)) [
        | inl room ↦
            let test : leb s.capacity s.size ≡ false = ground arith in
            rw (test, room)
              (
                refl,
                (
                  c,
                  ground arith,
                  ground arith,
                  rw (length-set s.keys s.size k) l,
                  (
                    rw n (get_elem?-set s.keys (length ks) k (ground arith)),
                    Down-set s.keys s.size k ks (ground arith) d,
                  ),
                ),
              )
        | inr full ↦
            let test : leb s.capacity s.size ≡ true = ground arith in
            rw (test, full) (refl, (c, le, n, l, d))
      ]
  step-Represents capacity pops s [] (c, le, n, l, d) =
      let test : ltb s.size 1 ≡ true = ground arith in rw test (refl, (c, le, n, l, d))
  step-Represents capacity pops s (k ∷ ks) (c, le, n, l, d) =
      let test : ltb s.size 1 ≡ false = ground arith in
      let one_less : s.size - 1 ≡ length ks = omega arith in
      rw (test, one_less, d.0) (refl, (c, omega arith, refl, l, d.1))
  step-Represents capacity (gets i) s [] (c, le, n, l, d) =
      let test : ltb s.size 1 ≡ true = ground arith in (rw test refl, (c, le, n, l, d))
  step-Represents capacity (gets i) s (k ∷ ks) (c, le, n, l, d) =
      let test : ltb s.size 1 ≡ false = ground arith in
      let at = to_unsigned i % s.size in
      let same : to_unsigned i % suc (length ks) ≡ at = rw n refl in
      let inside : at < s.size = mod-lt (to_unsigned i) (omega arith) in
      (
        rw test (
            ap (λ o. answered (fetch o))
              (get_elem?-Down s.keys (k ∷ ks) at (length ks - at) d (omega arith)
                ∙ ap (λ j. get_elem? (k ∷ ks) (length ks - j)) (sym same))),
        (c, le, n, l, d),
      )

  answers_lem :
      (capacity : ℕ) (cs : List (Call K)) (s : KeyStore K) (ks : List K)
      → Represents s capacity ks
      → answers cs s ≡ stack_answers capacity cs ks
  answers_lem capacity [] s ks h = refl
  answers_lem capacity (c ∷ cs) s ks h =
      let (a, h') = step-Represents capacity c s ks h in
      ap (λ x. x ∷ answers cs (step c s).1) a
      ∙ ap (λ l. (stack_step capacity c ks).0 ∷ l) (answers_lem capacity cs (step c s).1 _ h')

  -- Whatever the calls of the threads that share a key store and whatever their order, a store of a
  -- given capacity answers each as a bounded stack does: Push is accepted unless it is full, Pop
  -- gives the key that was pushed last, and Get gives a key that the stack holds, chosen by the index
  -- modulo the number of keys. No access is out of bounds, as a stack has no such answer.
  pub key_store_refines_stack :
      (capacity : ℕ) (memory : List K) (cs : List (Call K))
      → length memory ≡ capacity
      → answers cs (new_key_store capacity memory) ≡ stack_answers capacity cs []
  key_store_refines_stack capacity memory cs l =
      answers_lem capacity cs (new_key_store capacity memory) [] (refl, omega arith, refl, l, tt)
