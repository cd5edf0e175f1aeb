-- ===== src/Benchmark/Generators.antt =====
-- The generators of the benchmark, benchmark/core/generators. A generator that draws random numbers
-- holds a reference to a RandomNumberGenerator, whose state is passed along. The generators that
-- compute with floating point numbers, NormalGenerator and ZipfGenerator, are left out.
pub mod Selection
pub mod Range
pub mod Strings
use sigmod2012contest.Base.{
  ℕ, zero, suc, ◌+◌, ◌-◌, ◌%◌, ◌^◌, Bool, true, false, Option, none, some, List, [], ◌∷◌, length,
  replicate, ltb, ◌==◌, if◌then◌else◌, ℤ, pos, negsuc, ◌+ℤ◌, ◌-ℤ◌,
}
use mathlib.Core.Option
use sigmod2012contest.Containers.Text.{Text, codes}
use sigmod2012contest.Keys.{signed}
use sigmod2012contest.Benchmark.Rngs.{Rng, fast_rand, fast_rand_next}

-- Between int64_t and uint64_t, modulo 2^64.
abbrev pub to_uint64 : ℤ → ℕ
to_uint64 (pos n) = n % 2 ^ 64
to_uint64 (negsuc n) = 2 ^ 64 - 1 - n % 2 ^ 64

abbrev pub to_int64 : ℕ → ℤ
to_int64 u = signed (2 ^ 63) (u % 2 ^ 64)

-- The loop of the constructor of DiscreteGenerator: the sums of the weights so far. It does not get
-- through if a weight is negative, which is asserted, or if a sum does not fit an `int`, which is
-- undefined.
unfoldable pub max_weights : ℕ → List ℤ → Option (List ℕ)
max_weights total [] = some []
max_weights total (negsuc w ∷ ws) = none
max_weights total (pos w ∷ ws) =
    let total' = total + w in
    let rest = max_weights total' ws in
    if ltb total' 0x80000000 then Option.map (λ ms. total' ∷ ms) rest else none

-- The loop of DiscreteGenerator::next, from the index i on; `none` is its `assert(false)`.
unfoldable pub first_above : ℕ → ℕ → List ℕ → Option ℕ
first_above r i [] = none
first_above r i (m ∷ ms) = let rest = first_above r (suc i) ms in if ltb r m then some i else rest

-- `max_weights_.back()`
abbrev pub back : ℕ → List ℕ → ℕ
back m [] = m
back m (n ∷ ns) = back n ns

-- DiscreteGenerator::next on the list that the constructor made; `none` also where that list is empty
-- or where the modulus is 0.
unfoldable pub discrete_next : (rng : Rng) → List ℕ → rng.State → Option (ℕ × rng.State)
discrete_next rng [] s = none
discrete_next rng (m ∷ ms) s =
    if back m ms == 0
    then none
    else Option.map (λ i. (i, (rng.next s).1)) (first_above ((rng.next s).0 % back m ms) 0 (m ∷ ms))

pub record UniformGenerator : Type 0 where
  pub interval : ℕ
  pub lower_bound : ℤ

-- A sum or a difference of two int64_t: `none` if it does not fit, which is undefined.
abbrev pub fits_int64 : ℤ → Option ℤ
fits_int64 (pos n) = if ltb n (2 ^ 63) then some (pos n) else none
fits_int64 (negsuc n) = if ltb n (2 ^ 63) then some (negsuc n) else none

-- UniformGenerator::UniformGenerator; `none` where upper - lower + 1, which is computed in int64_t,
-- overflows.
unfoldable pub new_uniform : ℤ → ℤ → Option UniformGenerator
new_uniform lower upper = Option.bind (fits_int64 (upper -ℤ lower)) λ difference.
    Option.map (λ interval. record { interval = to_uint64 interval; lower_bound = lower })
      (fits_int64 (difference +ℤ pos 1))

-- UniformGenerator::next; the sum is one of uint64_t. `none` is a modulus of 0.
unfoldable pub uniform_next : (rng : Rng) → UniformGenerator → rng.State → Option (ℤ × rng.State)
uniform_next rng g s =
    if g.interval == 0
    then none
    else some (to_int64 (to_uint64 g.lower_bound + (rng.next s).0 % g.interval), (rng.next s).1)

pub record SequenceGenerator : Type 0 where
  pub min : ℤ
  pub step : ℤ
  pub current : ℤ

-- SequenceGenerator, its constructor, next and reset. Sums that leave int64_t, which are undefined, wrap.
unfoldable pub new_sequence : ℤ → ℤ → SequenceGenerator
new_sequence min step = record {
  min = min;
  step = step;
  current = to_int64 (to_uint64 (min -ℤ step));
}

unfoldable pub sequence_next : SequenceGenerator → ℤ × SequenceGenerator
sequence_next g =
    let current = to_int64 (to_uint64 (g.current +ℤ g.step)) in
    (current, record g { current = current })

unfoldable pub sequence_reset : SequenceGenerator → SequenceGenerator
sequence_reset g = record g { current = to_int64 (to_uint64 (g.min -ℤ g.step)) }

-- `rng` is the state of the generator's own FastRandNumberGenerator.
pub record FixedLengthStringGenerator : Type 0 where
  pub length : ℕ
  pub seed : ℕ
  pub rng : ℕ
  pub current : Text

-- FixedLengthStringGenerator::FixedLengthStringGenerator, with a number drawn from the generator that
-- it is given.
unfoldable pub new_fixed_length :
    (rng : Rng) → ℕ → rng.State → FixedLengthStringGenerator × rng.State
new_fixed_length rng length s =
    let (seed, s') = rng.next s in
    (
      record {
        length = length;
        seed = seed;
        rng = fast_rand.seed seed;
        current = replicate length 0;
      },
      s',
    )

-- FixedLengthStringGenerator::reset
unfoldable pub fixed_length_reset : FixedLengthStringGenerator → FixedLengthStringGenerator
fixed_length_reset g = record g { rng = fast_rand.seed g.seed }

abbrev pub readable_characters : Text
readable_characters = codes "abcdefghijklmnopqrstuvwxyzABCDEFGHIJKLMNOPQRSTUVWXYZ0123456789*+-="

-- `text[i]`; a string literal ends with a NUL.
abbrev pub character_at : Text → ℕ → ℕ
character_at [] i = 0
character_at (c ∷ cs) zero = c
character_at (c ∷ cs) (suc i) = character_at cs i

-- The loop of FixedLengthStringGenerator::next: the characters that are left to generate.
unfoldable pub random_characters : ℕ → ℕ → Text × ℕ
random_characters zero rng = ([], rng)
random_characters (suc n) rng =
    let (r, rng) = fast_rand_next rng in
    let (rest, rng) = random_characters n rng in
    (character_at readable_characters (r % length readable_characters) ∷ rest, rng)

-- FixedLengthStringGenerator::next
unfoldable pub fixed_length_next : FixedLengthStringGenerator → Text × FixedLengthStringGenerator
unfolding random_characters
fixed_length_next g =
    let (text, rng) = random_characters g.length g.rng in
    (text, record g { rng = rng; current = text })
