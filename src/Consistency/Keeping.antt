-- ===== src/Consistency/Keeping.antt =====
-- Calls after which handles and schemas are consistent, and CreateIndex of example/BDBImpl.cc among
-- them.
use sigmod2012contest.Base.{
  ℕ, ◌+◌, ◌≡◌, ◌⊎◌, refl, sym, ◌∙◌, false, Option, none, some, List, [], ◌∷◌, ◌==◌, Bool-cases, inl,
  inr, ltb, arith,
}
use sigmod2012contest.Containers.Text.{Text, text_eq, eq_of_text_eq}
use sigmod2012contest.Containers.Map
use sigmod2012contest.Interface.{ok, AttributeType}
use sigmod2012contest.Bdb.{
  Bdb, M, Outcome, returns, throws, faults, out_of_fuel, resume, ◌>>=◌, pure, Exception,
}
use sigmod2012contest.Schema.{IndexSchema, new_schema}
use sigmod2012contest.Closing.{create_index_schema, insert_index}
use sigmod2012contest.Objects.{World, update, bdb}
use sigmod2012contest.Api.{handled, create_index, create_error}
use sigmod2012contest.Consistency.{Quiet-IsConsistent, IsConsistent}
use sigmod2012contest.Consistency.Steps.{IsQuiet, bdb-IsQuiet, pure-IsQuiet}

-- What a name stands for after the assignment.
assigned :
    (name n : Text) (p s : ℕ) (m : Map.Map ℕ)
    → Map.find n (Map.assign name p m) ≡ some s
    → ((name ≡ n) × (s ≡ p)) ⊎ (Map.find n m ≡ some s)
assigned name n p s m h = elim (Bool-cases (text_eq name n)) [
  | inl t ↦ inl (eq_of_text_eq name n t, ground (arith, Map.find-assign name n p m))
  | inr t ↦ inr (ground (arith, Map.find-assign name n p m))
]

module _ {b : Bdb} where
  pub resume-IsConsistent :
      {A B : Type 0} (r : Outcome A × World b) (f : A → M (World b) B)
      → IsConsistent r.1
      → ((a : A) → r.0 ≡ returns a → IsConsistent (f a r.1).1)
      → IsConsistent (resume r f).1
  resume-IsConsistent (returns a, w') f c k = k a refl
  resume-IsConsistent (throws x, w') f c k = c
  resume-IsConsistent (faults, w') f c k = c
  resume-IsConsistent (out_of_fuel, w') f c k = c

  pub handled-IsConsistent :
      {A : Type 0} (r : Outcome A × World b) (f : Exception → M (World b) A)
      → IsConsistent r.1
      → ((x : Exception) → IsQuiet (f x))
      → IsConsistent (handled r f).1
  handled-IsConsistent (returns a, w') f c k = c
  handled-IsConsistent (throws x, w') f c k = Quiet-IsConsistent w' (f x w').1 ((k x).at w') c
  handled-IsConsistent (faults, w') f c k = c
  handled-IsConsistent (out_of_fuel, w') f c k = c

  -- The state after a schema was made at a new address, under a name.
  abbrev made : World b → b.Env → Text → IndexSchema → World b
  made w e name is = record w {
    env = e;
    next = w.next + 1;
    schemas = update w.schemas w.next (some is);
    indices = Map.assign name w.next w.indices;
  }

  older :
      (w : World b) (s : ℕ) (is : IndexSchema)
      → IsConsistent w
      → w.schemas s ≡ some is
      → (s == w.next) ≡ false
  older w s is c at = elim (Bool-cases (s == w.next)) [
    | inl e ↦ absurd (ground (arith, c.unused s (ground arith)))
    | inr e ↦ e
  ]

  made-named :
      (w : World b) (e : b.Env) (name : Text) (is : IndexSchema) (n : Text) (s : ℕ)
      → IsConsistent w
      → ((name ≡ n) × (s ≡ w.next)) ⊎ (Map.find n w.indices ≡ some s)
      → (js : IndexSchema) × ((made w e name is).schemas s ≡ some js)
  made-named w e name is n s c (inl (_, new)) = (is, ground arith)
  made-named w e name is n s c (inr old) =
      let (js, at) = c.named n s old in (js, rw (older w s js c at) at)

  not_new :
      (w : World b) (n : Text) (s : ℕ)
      → IsConsistent w
      → Map.find n w.indices ≡ some s
      → s ≡ w.next
      → ⊥
  not_new w n s c found e =
      let (js, at) = c.named n s found in absurd (ground (arith, older w s js c at))

  made-named_once :
      (w : World b) (name n m : Text) (s : ℕ)
      → IsConsistent w
      → ((name ≡ n) × (s ≡ w.next)) ⊎ (Map.find n w.indices ≡ some s)
      → ((name ≡ m) × (s ≡ w.next)) ⊎ (Map.find m w.indices ≡ some s)
      → n ≡ m
  made-named_once w name n m s c (inl (p, _)) (inl (q, _)) = sym p ∙ q
  made-named_once w name n m s c (inl (_, e)) (inr k) = absurd (not_new w m s c k e)
  made-named_once w name n m s c (inr h) (inl (_, e)) = absurd (not_new w n s c h e)
  made-named_once w name n m s c (inr h) (inr k) = c.named_once n m s h k

  made-IsConsistent :
      (w : World b) (e : b.Env) (name : Text) (is : IndexSchema)
      → IsConsistent w
      → IsConsistent (made w e name is)
  made-IsConsistent w e name is c = record {
    unused = λ q h.
        let other : (q == w.next) ≡ false = ground arith in rw other (c.unused q (omega arith));
    named = λ n s h. made-named w e name is n s c (assigned name n w.next s w.indices h);
    named_once = λ n m s h k.
        made-named_once w name n m s c (assigned name n w.next s w.indices h)
          (assigned name m w.next s w.indices k);
    backed = λ i ix h o.
        let (s, db, js, hs, hd, at, m) = c.backed i ix h o in
        (s, db, js, hs, hd, rw (older w s js c at) at, m);
  }

  pub create_index_schema-IsConsistent :
      (name : Text) (n : ℕ) (types : List AttributeType) (w : World b)
      → IsConsistent w
      → IsConsistent (create_index_schema name n types w).1
  unfolding create_index_schema insert_index
  create_index_schema-IsConsistent name n types w c =
      resume-IsConsistent (bdb (b.db_create name) w) _
        (Quiet-IsConsistent w _ ((bdb-IsQuiet (b.db_create name)).at w) c)
        λ _ _. made-IsConsistent w (b.db_create name w.env).1 name (new_schema n types) c

  pub create_index-IsConsistent :
      (name : Option Text) (n : ℕ) (types : Option (List AttributeType)) (w : World b)
      → IsConsistent w
      → IsConsistent (create_index name n types w).1
  unfolding create_index
  create_index-IsConsistent name n none w c = c
  create_index-IsConsistent none n (some types) w c = c
  create_index-IsConsistent (some []) n (some types) w c = c
  create_index-IsConsistent (some (x ∷ xs)) n (some types) w c = elim (Bool-cases (ltb n 1)) [
    | inl e ↦ rw e c
    | inr e ↦ rw e (
        handled-IsConsistent ((create_index_schema (x ∷ xs) n types >>= λ _. pure ok) w) _
          (resume-IsConsistent (create_index_schema (x ∷ xs) n types w) _
            (create_index_schema-IsConsistent (x ∷ xs) n types w c)
            λ _ h. create_index_schema-IsConsistent (x ∷ xs) n types w c)
          λ e. pure-IsQuiet (create_error e))
  ]
