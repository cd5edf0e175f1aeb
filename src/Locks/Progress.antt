-- ===== src/Locks/Progress.antt =====
-- No thread waits for a lock for good.
use sigmod2012contest.Base.{
  ℕ, ◌≡◌, refl, ap, ◌∙◌, Option, none, some, List, [], ◌∷◌, ◌++◌, map, ◌==◌,
}
use sigmod2012contest.Objects.{update}
use sigmod2012contest.Locks.{
  Instruction, accesses, destructs, lock, program, Machine, turn, run, begun,
}
use sigmod2012contest.Locks.Atomic.{
  Atomic, whole, atomic_turn, inside, Between, Refines, machine, enters, releases, update_self,
  update_other, run-Refines,
}

module _ {S : Type 0} where
  run-append : (ts us : List ℕ) (m : Machine S) → run (ts ++ us) m ≡ run us (run ts m)
  unfolding run
  run-append [] us m = refl
  run-append (t ∷ ts) us m = run-append ts us (turn t m)

  -- Turns that bring the machine to a state in which the mutex is free.
  abbrev Frees : Machine S → Atomic S → Type 0
  Frees m a =
      (us : List ℕ) × (s : S) × (threads : ℕ → List (Instruction S)) × (run us m
        ≡ machine none s threads)
      × Refines (machine none s threads) a

  leaves :
      (left : List (S → S)) (v : ℕ) (s : S) (threads : ℕ → List (Instruction S)) (a : Atomic S)
      → threads v ≡ inside left (a.bodies v)
      → whole left s ≡ a.shared
      → Between (λ u. u == v) (machine (some v) s threads) a
      → Frees (machine (some v) s threads) a
  unfolding run turn
  leaves [] v s threads a e w rest =
      let after = update threads v (program (a.bodies v)) in
      (v ∷ [], s, after, rw e refl, releases v [] s threads a ([], e, w, rest) e w rest)
  leaves (f ∷ fs) v s threads a e w rest =
      let after = update threads v (inside fs (a.bodies v)) in
      let (us, s', threads', eq, r) =
        leaves fs v (f s) after a (update_self threads v (inside fs (a.bodies v))) w
          λ u h. update_other threads v u (inside fs (a.bodies v)) h ∙ rest u h in
      (v ∷ us, s', threads', rw e eq, r)

  finishes :
      (bodies : List (List (S → S))) (u : ℕ) (s : S) (threads : ℕ → List (Instruction S))
      (a : Atomic S)
      → Refines (machine none s threads) a
      → a.bodies u ≡ bodies
      → (us : List ℕ) × ((run us (machine none s threads)).threads u ≡ [])
  unfolding run turn program lock
  finishes [] u s threads a r e = ([], r.1 u refl ∙ ap program e)
  finishes (body ∷ bodies) u s threads a r e =
      let rest = map accesses body ++ destructs ∷ [] ++ program bodies in
      let here : threads u ≡ program (body ∷ bodies) = r.1 u refl ∙ ap program e in
      let inner : Refines (machine (some u) s (update threads u rest)) (atomic_turn u a) =
        enters u s threads a body bodies r e in
      let (us, s', threads', eq, r') =
        leaves inner.0 u s (update threads u rest) (atomic_turn u a) inner.1 inner.2 inner.3 in
      let left : (atomic_turn u a).bodies u ≡ bodies = rw e (update_self a.bodies u bodies) in
      let (vs, end) = finishes bodies u s' threads' (atomic_turn u a) r' left in
      let m = machine none s threads in
      let entered : turn u m ≡ machine (some u) s (update threads u rest) = rw here refl in
      let freed : run us (turn u m) ≡ machine none s' threads' = ap (run us) entered ∙ eq in
      (
        u ∷ (us ++ vs),
        ap (λ (x : Machine S). x.threads u) (run-append us vs (turn u m) ∙ ap (run vs) freed) ∙ end,
      )

  onward :
      (o : Option ℕ) (u : ℕ) (s : S) (threads : ℕ → List (Instruction S)) (a : Atomic S)
      → Refines (machine o s threads) a
      → (us : List ℕ) × ((run us (machine o s threads)).threads u ≡ [])
  onward none u s threads a r = finishes (a.bodies u) u s threads a r refl
  onward (some v) u s threads a r =
      let (us, s', threads', eq, r') = leaves r.0 v s threads a r.1 r.2 r.3 in
      let (vs, end) = finishes (a.bodies u) u s' threads' a r' refl in
      (us ++ vs, rw (run-append us vs (machine (some v) s threads), eq) end)

  -- Whatever turns threads have had whose statements all run under one mutex, they can go on so that a
  -- given thread comes to its end: no thread is blocked for good.
  pub lock_progress :
      (s : S) (bodies : ℕ → List (List (S → S))) (schedule : List ℕ) (u : ℕ)
      → (more : List ℕ) × ((run (schedule ++ more) (begun s bodies)).threads u ≡ [])
  lock_progress s bodies schedule u =
      let m = run schedule (begun s bodies) in
      let (order, r) = run-Refines s bodies schedule in
      let (more, end) = onward m.mutex.owner u m.shared m.threads _ r in
      (more, rw (run-append schedule more (begun s bodies)) end)
