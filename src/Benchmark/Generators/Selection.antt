-- ===== src/Benchmark/Generators/Selection.antt =====
-- DiscreteGenerator: each index is drawn for as many remainders as its weight says.
use mathlib.Core.Path.{subst}
use native.Mathlib.Nat.{mod-lt}
use sigmod2012contest.Base.{
  ℕ, zero, suc, ◌+◌, ◌-◌, ◌%◌, ◌≤◌, ◌<◌, ◌≡◌, refl, sym, ap, ◌∙◌, inl, inr, false, some, List, [],
  ◌∷◌, ltb, ◌==◌, Bool-cases, Option-cases, arith, ℤ, pos, negsuc, pos_part, get_elem?,
}
use sigmod2012contest.Benchmark.Rngs.{Rng}
use sigmod2012contest.Benchmark.Generators.{max_weights, first_above, back, discrete_next}

-- The sum of the weights, and of those before an index.
abbrev pub total : List ℤ → ℕ
total [] = 0
total (w ∷ ws) = pos_part w + total ws

abbrev pub before : ℕ → List ℤ → ℕ
before zero ws = 0
before (suc i) [] = 0
before (suc i) (w ∷ ws) = pos_part w + before i ws

max_weights_cons :
    (t w : ℕ) (ws : List ℤ) (ms : List ℕ)
    → max_weights t (pos w ∷ ws) ≡ some ms
    → (ms' : List ℕ) × (max_weights (t + w) ws ≡ some ms') × (ms ≡ (t + w) ∷ ms')
unfolding max_weights
max_weights_cons t w ws ms h = elim (Option-cases (max_weights (t + w) ws)) [
  | inl e ↦ absurd (ground arith)
  | inr (ms', e) ↦ (ms', e, ground arith)
]

max_weights_negative :
    (t w : ℕ) (ws : List ℤ) (ms : List ℕ) → max_weights t (negsuc w ∷ ws) ≡ some ms → ⊥
unfolding max_weights
max_weights_negative t w ws ms h = ground arith

max_weights_nil : (t : ℕ) (ms : List ℕ) → max_weights t [] ≡ some ms → ms ≡ []
unfolding max_weights
max_weights_nil t ms h = ground arith

back-max_weights :
    (t m : ℕ) (ws : List ℤ) (ms : List ℕ)
    → max_weights t ws ≡ some ms
    → m ≡ t
    → back m ms ≡ t + total ws
back-max_weights t m [] ms h e = rw (max_weights_nil t ms h) (omega arith)
back-max_weights t m (negsuc w ∷ ws) ms h e = absurd (max_weights_negative t w ws ms h)
back-max_weights t m (pos w ∷ ws) ms h e =
    let (ms', h', at) = max_weights_cons t w ws ms h in
    ap (back m) at ∙ back-max_weights (t + w) (t + w) ws ms' h' refl ∙ omega arith

-- The index j is the one whose share of the remainders r falls into.
abbrev pub Selects : List ℤ → ℕ → ℕ → Type 0
Selects ws r j =
    (w : ℕ) × (get_elem? ws j ≡ some (pos w)) × (before j ws ≤ r) × (r < before j ws + w)

first_above_lem :
    (t r i : ℕ) (ws : List ℤ) (ms : List ℕ)
    → max_weights t ws ≡ some ms
    → t ≤ r
    → r < t + total ws
    → (j r' : ℕ) × (first_above r i ms ≡ some (i + j)) × (r ≡ t + r') × Selects ws r' j
unfolding first_above
first_above_lem t r i [] ms h le lt = absurd (omega arith)
first_above_lem t r i (negsuc w ∷ ws) ms h le lt = absurd (max_weights_negative t w ws ms h)
first_above_lem t r i (pos w ∷ ws) ms h le lt =
    let (ms', h', at) = max_weights_cons t w ws ms h in
    elim (Bool-cases (ltb r (t + w))) [
      | inl here ↦ (
        0,
        r - t,
        ap (first_above r i) at ∙ ground arith,
        omega arith,
        (w, refl, omega arith, ground arith),
      )
      | inr later ↦
          let (j, r', run, e, (w', there, lo, hi)) =
            first_above_lem (t + w) r (suc i) ws ms' h' (ground arith) (omega arith) in
          (
            suc j,
            w + r',
            ap (first_above r i) at ∙ ground arith,
            omega arith,
            (w', there, omega arith, omega arith),
          )
    ]

discrete_run :
    (rng : Rng) (m n i : ℕ) (ms : List ℕ) (s : rng.State)
    → back m ms ≡ n
    → 0 < n
    → first_above ((rng.next s).0 % n) 0 (m ∷ ms) ≡ some (0 + i)
    → discrete_next rng (m ∷ ms) s ≡ some (i, (rng.next s).1)
unfolding discrete_next
discrete_run rng m n i ms s sum p run =
    let positive : (n == 0) ≡ false = ground arith in
    let from_zero : 0 + i ≡ i = omega arith in
    rw (sum, positive, run) (ap (λ i. some (i, (rng.next s).1)) from_zero)

-- A DiscreteGenerator whose constructor got through, on weights that are not all 0: next returns, so
-- its assertion is never reached, and returns the index into whose share the remainder of the random
-- number by the sum of the weights falls. The share of an index starts at the sum of the weights
-- before it and has as many remainders as its weight, so an index of weight 0 is never returned.
pub discrete_next_lem :
    (rng : Rng) (ws : List ℤ) (ms : List ℕ) (s : rng.State)
    → max_weights 0 ws ≡ some ms
    → 0 < total ws
    → (i : ℕ) × (discrete_next rng ms s ≡ some (i, (rng.next s).1))
      × Selects ws ((rng.next s).0 % total ws) i
discrete_next_lem rng ws [] s h p = absurd (omega (arith, back-max_weights 0 0 ws [] h refl))
discrete_next_lem rng ws (m ∷ ms) s h p =
    let sum : back m ms ≡ total ws = back-max_weights 0 0 ws (m ∷ ms) h refl ∙ omega arith in
    let r = (rng.next s).0 % total ws in
    let (j, r', run, e, selects) =
      first_above_lem 0 r 0 ws (m ∷ ms) h (omega arith) (omega (arith, mod-lt (rng.next s).0 p)) in
    let same : r ≡ r' = omega (arith, e) in
    (
      j,
      discrete_run rng m (total ws) j ms s sum p run,
      subst (λ x. Selects ws x j) (sym same) selects,
    )
