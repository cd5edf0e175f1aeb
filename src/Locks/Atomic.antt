-- ===== src/Locks/Atomic.antt =====
-- Statements under a lock are atomic: any interleaving of their accesses is an order of whole bodies.
use sigmod2012contest.Base.{
  ℕ, ◌≡◌, refl, sym, ap, ◌∙◌, subst, ◌⊎◌, inl, inr, Bool, false, Option, none, some, List, [], ◌∷◌,
  ◌++◌, map, ◌==◌, Bool-cases, arith,
}
use sigmod2012contest.Objects.{update}
use sigmod2012contest.Locks.{
  Instruction, accesses, destructs, lock, program, Machine, turn, run, begun, on_instruction,
}

-- What atomic statements do: the shared state and the bodies that each thread has left.
pub record Atomic (S : Type 0) : Type 0 where
  pub shared : S
  pub bodies : ℕ → List (List (S → S))

pub update_self : {A : Type 0} (f : ℕ → A) (t : ℕ) (v : A) → update f t v t ≡ v
update_self f t v = ground arith

pub update_other :
    {A : Type 0} (f : ℕ → A) (t u : ℕ) (v : A) → (u == t) ≡ false → update f t v u ≡ f u
update_other f t u v h = rw h refl

module _ {S : Type 0} where
  -- A body from its begin to its end.
  abbrev pub whole : List (S → S) → S → S
  whole [] s = s
  whole (f ∷ fs) s = whole fs (f s)

  abbrev pub next_body : ℕ → Atomic S → List (List (S → S)) → Atomic S
  next_body t a [] = a
  next_body t a (body ∷ bodies) = record {
    shared = whole body a.shared;
    bodies = update a.bodies t bodies;
  }

  -- A thread does its next body at once.
  abbrev pub atomic_turn : ℕ → Atomic S → Atomic S
  atomic_turn t a = next_body t a (a.bodies t)

  abbrev pub atomic_run : List ℕ → Atomic S → Atomic S
  atomic_run [] a = a
  atomic_run (t ∷ ts) a = atomic_run ts (atomic_turn t a)

  -- What is left of a thread inside a body.
  abbrev pub inside : List (S → S) → List (List (S → S)) → List (Instruction S)
  inside [] bodies = destructs ∷ program bodies
  inside (f ∷ fs) bodies = accesses f ∷ inside fs bodies

  -- All threads but one are between two statements, at the same ones in both.
  abbrev pub Between : (ℕ → Bool) → Machine S → Atomic S → Type 0
  Between but m a = (u : ℕ) → but u ≡ false → m.threads u ≡ program (a.bodies u)

  -- If no thread has the mutex, the states are the same and all threads are between two statements.
  -- If one has it, it alone is inside a body, and the end of the body leads to the same state.
  abbrev pub Stage : Option ℕ → Machine S → Atomic S → Type 0
  Stage none m a = (m.shared ≡ a.shared) × Between (λ u. false) m a
  Stage (some t) m a =
      (left : List (S → S)) × (m.threads t ≡ inside left (a.bodies t))
      × (whole left m.shared ≡ a.shared)
      × Between (λ u. u == t) m a

  abbrev pub Refines : Machine S → Atomic S → Type 0
  Refines m a = Stage m.mutex.owner m a

  inside_lem :
      (body : List (S → S)) (bodies : List (List (S → S)))
      → map accesses body ++ destructs ∷ [] ++ program bodies ≡ inside body bodies
  inside_lem [] bodies = refl
  inside_lem (f ∷ fs) bodies = ap (◌∷◌ (accesses f)) (inside_lem fs bodies)

  -- The machine with these parts.
  abbrev pub machine : Option ℕ → S → (ℕ → List (Instruction S)) → Machine S
  machine o s threads = record { mutex = record { owner = o }; shared = s; threads = threads }

  -- A turn of t: the atomic statements do nothing, or the next body of t.
  abbrev Follows : ℕ → Machine S → Atomic S → Type 0
  Follows t m a = Refines m a ⊎ Refines m (atomic_turn t a)

  -- A free mutex is taken at the begin of a body, which counts as the whole body.
  pub enters :
      (t : ℕ) (s : S) (threads : ℕ → List (Instruction S)) (a : Atomic S) (body : List (S → S))
      (bodies : List (List (S → S)))
      → Refines (machine none s threads) a
      → a.bodies t ≡ body ∷ bodies
      → Refines
          (on_instruction t (machine none s threads) (program (body ∷ bodies)))
          (atomic_turn t a)
  unfolding program lock
  enters t s threads a body bodies r e =
      let self = update_self a.bodies t bodies in
      let started : update threads t (inside body bodies) t
          ≡ inside body (update a.bodies t bodies t) =
        update_self threads t (inside body bodies) ∙ ap (inside body) (sym self) in
      rw (e, inside_lem body bodies)
        (
          body,
          started,
          ap (whole body) r.0,
          λ u h.
              rw
                (
                  update_other threads t u (inside body bodies) h,
                  update_other a.bodies t u bodies h,
                )
                (r.1 u refl),
        )

  -- The owner of the mutex goes on in its body or leaves it.
  pub releases :
      (t : ℕ) (left : List (S → S)) (s : S) (threads : ℕ → List (Instruction S)) (a : Atomic S)
      → Refines (machine (some t) s threads) a
      → threads t ≡ inside left (a.bodies t)
      → whole left s ≡ a.shared
      → Between (λ u. u == t) (machine (some t) s threads) a
      → Refines (on_instruction t (machine (some t) s threads) (inside left (a.bodies t))) a
  releases t [] s threads a r e w rest = (
    w,
    λ u _. elim (Bool-cases (u == t)) [
      | inl h ↦
          let same : u ≡ t = ground arith in rw same (update_self threads t (program (a.bodies t)))
      | inr h ↦ update_other threads t u (program (a.bodies t)) h ∙ rest u h
    ],
  )
  releases t (f ∷ fs) s threads a r e w rest = (
    fs,
    update_self threads t (inside fs (a.bodies t)),
    w,
    λ u h. update_other threads t u (inside fs (a.bodies t)) h ∙ rest u h,
  )

  owner_turn :
      (t : ℕ) (s : S) (threads : ℕ → List (Instruction S)) (a : Atomic S)
      → Refines (machine (some t) s threads) a
      → Refines (turn t (machine (some t) s threads)) a
  unfolding turn
  owner_turn t s threads a r = rw r.1 (releases t r.0 s threads a r r.1 r.2 r.3)

  -- A thread that has to wait, or is at its end, stays where it is.
  stays :
      (t v : ℕ) (s : S) (threads : ℕ → List (Instruction S)) (bodies : List (List (S → S)))
      → on_instruction t (machine (some v) s threads) (program bodies) ≡ machine (some v) s threads
  unfolding program lock
  stays t v s threads [] = refl
  stays t v s threads (body ∷ bodies) = refl

  begins :
      (t : ℕ) (s : S) (threads : ℕ → List (Instruction S)) (a : Atomic S)
      (bodies : List (List (S → S)))
      → Refines (machine none s threads) a
      → a.bodies t ≡ bodies
      → Follows t (on_instruction t (machine none s threads) (program bodies)) a
  unfolding program
  begins t s threads a [] r e = inl r
  begins t s threads a (body ∷ bodies) r e = inr (enters t s threads a body bodies r e)

  follows :
      (t : ℕ) (o : Option ℕ) (s : S) (threads : ℕ → List (Instruction S)) (a : Atomic S)
      → Refines (machine o s threads) a
      → Follows t (turn t (machine o s threads)) a
  unfolding turn
  follows t none s threads a r = rw (r.1 t refl) (begins t s threads a (a.bodies t) r refl)
  follows t (some v) s threads a r = elim (Bool-cases (t == v)) [
    | inl h ↦
        let same : t ≡ v = ground arith in
        subst (λ x. Follows x (turn x (machine (some v) s threads)) a) (sym same)
          (inl (owner_turn v s threads a r))
    | inr h ↦ rw (r.3 t h, stays t v s threads (a.bodies t)) (inl r)
  ]

  refines :
      (ts : List ℕ) (m : Machine S) (a : Atomic S)
      → Refines m a
      → (us : List ℕ) × Refines (run ts m) (atomic_run us a)
  unfolding run
  refines [] m a r = ([], r)
  refines (t ∷ ts) m a r = elim (follows t m.mutex.owner m.shared m.threads a r) [
    | inl same ↦ refines ts (turn t m) a same
    | inr after ↦ let (us, end) = refines ts (turn t m) (atomic_turn t a) after in (t ∷ us, end)
  ]

  -- However threads whose statements all run under one mutex are interleaved, there is an order of
  -- whole bodies, which keeps that of each thread, such that: while no thread has the mutex, the shared
  -- state is the one that this order leads to and every thread is between two statements; while
  -- one has it, no other is inside a body, and the end of its body leads to that state.
  pub run-Refines :
      (s : S) (bodies : ℕ → List (List (S → S))) (schedule : List ℕ)
      → (order : List ℕ) × Refines
          (run schedule (begun s bodies))
          (atomic_run order (record { shared = s; bodies = bodies }))
  run-Refines s bodies schedule = refines schedule (begun s bodies) _ (refl, λ u _. refl)
