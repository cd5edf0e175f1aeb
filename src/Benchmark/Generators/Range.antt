-- ===== src/Benchmark/Generators/Range.antt =====
-- UniformGenerator stays between its bounds; SequenceGenerator starts again after a reset.
use native.Mathlib.Nat.{mod-lt}
use sigmod2012contest.Base.{
  ℕ, zero, suc, ◌+◌, ◌%◌, ◌^◌, ◌<◌, ◌≤◌, ◌≡◌, refl, ap, false, some, List, [], ◌∷◌, ◌==◌, arith, ℤ,
  pos, negsuc, pos_part, neg_part, ◌+ℤ◌, ◌-ℤ◌, ◌≤ℤ◌, eq_of_parts, +ℤ_parts, -ℤ_parts,
}
use mathlib.Core.Option
use sigmod2012contest.Benchmark.Rngs.{Rng}
use sigmod2012contest.Benchmark.Generators.{
  fits_int64, to_uint64, to_int64, UniformGenerator, new_uniform, uniform_next, SequenceGenerator,
  new_sequence, sequence_next, sequence_reset,
}

-- A number that an int64_t can hold.
abbrev pub IsInt64 : ℤ → Type 0
IsInt64 (pos n) = n < 2 ^ 63
IsInt64 (negsuc n) = n < 2 ^ 63

below : (z : ℤ) → IsInt64 z → pos_part z < 2 ^ 63 + neg_part z
below (pos n) h = omega arith
below (negsuc n) h = omega arith

int64_uint64 : (z : ℤ) → IsInt64 z → to_int64 (to_uint64 z) ≡ z
int64_uint64 (pos n) h = ground arith
int64_uint64 (negsuc n) h = ground arith

sub-add : (a b : ℤ) → a -ℤ b +ℤ b ≡ a
sub-add a b = eq_of_parts _ a (omega (arith, +ℤ_parts (a -ℤ b) b, -ℤ_parts a b))

fits_lem :
    (z : ℤ) → neg_part z ≤ pos_part z → pos_part z < neg_part z + 2 ^ 63 → fits_int64 z ≡ some z
fits_lem (pos n) h k = ground arith
fits_lem (negsuc n) h k = absurd (omega arith)

count_lem :
    (z : ℤ)
    → neg_part z ≤ pos_part z
    → pos_part z < neg_part z + 2 ^ 63
    → to_uint64 z + neg_part z ≡ pos_part z
count_lem (pos n) h k = ground arith
count_lem (negsuc n) h k = absurd (omega arith)

-- The constructor: the difference fits an int64_t, and the interval is one more.
new_uniform_lem :
    (lower upper : ℤ)
    → lower ≤ℤ upper
    → pos_part upper + neg_part lower + 1 < pos_part lower + neg_part upper + 2 ^ 63
    → (n : ℕ) × (new_uniform lower upper ≡ some (record { interval = n; lower_bound = lower }))
      × (n + pos_part lower + neg_part upper ≡ pos_part upper + neg_part lower + 1)
unfolding new_uniform Option.bind ◌+ℤ◌
new_uniform_lem lower upper le lt =
    let d = upper -ℤ lower in
    let i = d +ℤ pos 1 in
    let difference =
      fits_lem d (omega (arith, -ℤ_parts upper lower)) (omega (arith, -ℤ_parts upper lower)) in
    let interval =
      fits_lem i (omega (arith, -ℤ_parts upper lower, +ℤ_parts d (pos 1)))
        (omega (arith, -ℤ_parts upper lower, +ℤ_parts d (pos 1))) in
    let count =
      count_lem i (omega (arith, -ℤ_parts upper lower, +ℤ_parts d (pos 1)))
        (omega (arith, -ℤ_parts upper lower, +ℤ_parts d (pos 1))) in
    (
      to_uint64 i,
      rw (difference, interval) refl,
      omega (arith, count, -ℤ_parts upper lower, +ℤ_parts d (pos 1)),
    )

-- The sum of next, for an offset that leads to a number that an int64_t can hold.
offset_lem :
    (lower : ℤ) (o : ℕ)
    → IsInt64 lower
    → pos_part lower + o < neg_part lower + 2 ^ 63
    → to_int64 (to_uint64 lower + o) ≡ lower +ℤ pos o
unfolding ◌+ℤ◌
offset_lem (pos l) o a lt = ground arith
offset_lem (negsuc l) o a lt = ground arith

-- A UniformGenerator on bounds that an int64_t can hold, the lower one not above the upper one, with
-- fewer than 2^63 integers between them, both bounds included: the constructor overflows nowhere, next
-- returns, and it gives the lower bound plus the remainder of the random number by the number of those
-- integers. So it never leaves the bounds.
pub uniform_next_lem :
    (rng : Rng) (lower upper : ℤ) (s : rng.State)
    → IsInt64 lower
    → IsInt64 upper
    → lower ≤ℤ upper
    → pos_part upper + neg_part lower + 1 < pos_part lower + neg_part upper + 2 ^ 63
    → (g : UniformGenerator) × (n : ℕ) × (x : ℤ) × (new_uniform lower upper ≡ some g)
      × (n + pos_part lower + neg_part upper ≡ pos_part upper + neg_part lower + 1)
      × (x ≡ lower +ℤ pos ((rng.next s).0 % n))
      × (uniform_next rng g s ≡ some (x, (rng.next s).1))
      × (lower ≤ℤ x)
      × (x ≤ℤ upper)
unfolding uniform_next
uniform_next_lem rng lower upper s a b le lt =
    let (n, made, count) = new_uniform_lem lower upper le lt in
    let g : UniformGenerator = record { interval = n; lower_bound = lower } in
    let o = (rng.next s).0 % n in
    let inside : o < n = mod-lt (rng.next s).0 (omega arith) in
    let some_ : (n == 0) ≡ false = ground arith in
    (
      g,
      n,
      lower +ℤ pos o,
      made,
      count,
      refl,
      rw some_ (
          ap (λ x. some (x, (rng.next s).1)) (offset_lem lower o a (omega (arith, below upper b)))),
      omega (arith, +ℤ_parts lower (pos o)),
      omega (arith, +ℤ_parts lower (pos o)),
    )

-- The next n values of a sequence, and the generator after them.
abbrev pub values : ℕ → SequenceGenerator → List ℤ × SequenceGenerator
values zero g = ([], g)
values (suc n) g = let (x, g') = sequence_next g in let (xs, g'') = values n g' in (x ∷ xs, g'')

after_values :
    (n : ℕ) (g : SequenceGenerator) → ((values n g).1.min ≡ g.min) × ((values n g).1.step ≡ g.step)
unfolding sequence_next
after_values zero g = (refl, refl)
after_values (suc n) g = after_values n (sequence_next g).1

-- Where the minimum, the step and their difference fit an int64_t: however many values a
-- SequenceGenerator has given, reset brings it back to the state in which the constructor left it, and
-- the value that comes first in that state is the minimum.
sequence_reset_lem :
    (min step : ℤ) (n : ℕ)
    → IsInt64 min
    → IsInt64 step
    → IsInt64 (min -ℤ step)
    → (sequence_reset (values n (new_sequence min step)).1 ≡ new_sequence min step)
      × ((sequence_next (new_sequence min step)).0 ≡ min)
unfolding sequence_reset sequence_next new_sequence
sequence_reset_lem min step n a b c =
    let (m, t) = after_values n (new_sequence min step) in
    (rw (m, t) refl, rw (int64_uint64 (min -ℤ step) c, sub-add min step) (int64_uint64 min a))
