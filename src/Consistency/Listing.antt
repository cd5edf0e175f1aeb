-- ===== src/Consistency/Listing.antt =====
-- The loop of IndexSchema::CloseHandles, example/index.cc, if it returns at all.
use sigmod2012contest.Base.{
  ℕ, ◌≡◌, refl, sym, ◌∙◌, subst, Bool, true, false, some, List, [], ◌∷◌, ◌==◌, if◌then◌else◌,
  Bool-cases, inl, inr, arith,
}
use sigmod2012contest.Containers.AddressSet.{mem, mem_cons}
use sigmod2012contest.Bdb.{Bdb, M, Outcome, returns, throws, faults, out_of_fuel, resume, ◌>>◌}
use sigmod2012contest.Closing.{close_index, close_handles, step_past}
use sigmod2012contest.Objects.{World, Index}
use sigmod2012contest.Consistency.{view_open, Quiet, Quiet-refl, IsOpen}
use sigmod2012contest.Consistency.Steps.{IsQuiet, bind-IsQuiet, quiet_steps, read-Quiet}
use sigmod2012contest.Consistency.Closers.{
  IsShut, Quiet-IsShut, close_index-IsQuiet, close_index-IsShut,
}

module _ {b : Bdb} where
  -- Every open handle of the schema at s is listed.
  abbrev pub AllListed : World b → ℕ → List ℕ → Type 0
  AllListed w s l =
      (i : ℕ) (ix : Index)
      → w.handles i ≡ some ix
      → ix.closed ≡ false
      → ix.schema ≡ some s
      → mem i l ≡ true

  abbrev goes_on : Bool → M (World b) (Unit {0})
  goes_on c w = if c then (returns tt, w) else (faults, w)

  goes_on-IsQuiet : (c : Bool) → IsQuiet (goes_on c)
  goes_on-IsQuiet true = record { at = Quiet-refl }
  goes_on-IsQuiet false = record { at = Quiet-refl }

  step_past-IsQuiet : (s i : ℕ) → IsQuiet (step_past {b = b} s i)
  unfolding step_past
  step_past-IsQuiet s i = record {
    at = λ w.
        read-Quiet (λ (v : World b). v.schemas) (some s) _ w
          λ p is e h. (goes_on-IsQuiet (mem i is.handles)).at w;
  }

  -- A shut handle can be taken off the list.
  AllListed-tail :
      (w w' : World b) (s i : ℕ) (l : List ℕ)
      → AllListed w s (i ∷ l)
      → Quiet w w'
      → IsShut w' i
      → AllListed w' s l
  AllListed-tail w w' s i l all q shut j jx h o sc =
      let (jx0, h0, o0, sc0, d) =
        view_open (w'.handles j) (w.handles j) jx (q.open_before j (jx, h, o)) h o in
      let listed = all j jx0 h0 o0 (sc0 ∙ sc) in
      elim (Bool-cases (j == i)) [
        | inl e ↦
            let here : j ≡ i = ground arith in
            let open_j : IsOpen w' j = (jx, h, o) in absurd (shut (rw here at open_j))
        | inr e ↦ ground (arith, mem_cons j i l)
      ]

  pub close_handles-IsQuiet : (s : ℕ) (l : List ℕ) → IsQuiet (close_handles {b = b} s l)
  unfolding close_handles
  close_handles-IsQuiet s [] = search quiet_steps
  close_handles-IsQuiet s (i ∷ l) =
      bind-IsQuiet (close_index i >> step_past s i) (λ _. close_handles s l)
        (bind-IsQuiet (close_index i) (λ _. step_past s i) (close_index-IsQuiet i)
          (λ _. step_past-IsQuiet s i))
        (λ _. close_handles-IsQuiet s l)

  -- A sequence of calls returns only if each call does.
  returned :
      {A B : Type 0} (r : Outcome A × World b) (f : A → M (World b) B) (y : B)
      → (resume r f).0 ≡ returns y
      → (x : A) × (r.0 ≡ returns x) × (resume r f ≡ f x r.1) × ((f x r.1).0 ≡ returns y)
  returned (returns x, w') f y e = (x, refl, refl, e)
  returned (throws x, w') f y e = absurd (ground (arith, e))
  returned (faults, w') f y e = absurd (ground (arith, e))
  returned (out_of_fuel, w') f y e = absurd (ground (arith, e))

  -- If the loop of CloseHandles over all open handles of a schema returns, then none is open.
  pub close_handles-AllListed :
      (s : ℕ) (l : List ℕ) (w : World b)
      → AllListed w s l
      → (close_handles s l w).0 ≡ returns tt
      → AllListed (close_handles s l w).1 s []
  unfolding close_handles
  close_handles-AllListed s [] w all e = all
  close_handles-AllListed s (i ∷ l) w all e =
      let m = close_index i >> step_past s i in
      let w1 = (close_index i w).1 in
      let (_, e1, eq, e2) = returned (m w) (λ _. close_handles s l) tt e in
      let (_, _, eq1, _) = returned (close_index i w) (λ _. step_past s i) tt e1 in
      let q : Quiet w1 (step_past s i w1).1 = (step_past-IsQuiet s i).at w1 in
      let shut : IsShut (m w).1 i =
        subst (λ (r : Outcome (Unit {0}) × World b). IsShut r.1 i) (sym eq1)
          (Quiet-IsShut w1 (step_past s i w1).1 i q (close_index-IsShut i w)) in
      let quiet : Quiet w (m w).1 =
        (bind-IsQuiet (close_index i) (λ _. step_past s i) (close_index-IsQuiet i)
            (λ _. step_past-IsQuiet s i)).at
          w in
      subst (λ (r : Outcome (Unit {0}) × World b). AllListed r.1 s []) (sym eq)
        (close_handles-AllListed s l (m w).1 (AllListed-tail w (m w).1 s i l all quiet shut) e2)
