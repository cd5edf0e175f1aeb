-- ===== src/Benchmark/Rngs.antt =====
-- RandomNumberGenerator, benchmark/core/utils/rng.h, and its two implementations in
-- benchmark/core/utils/rngs. A uint64_t is a number below 2^64, and an `unsigned int` one below 2^32.
use Prim.Native.Nat.{bit_xor}
use sigmod2012contest.Base.{ℕ, ◌+◌, ◌*◌, ◌/◌, ◌%◌, ◌^◌}

-- The interface: Seed and Next of a generator.
pub record Rng : Type 1 where
  pub State : Type 0
  pub seed : ℕ → State
  pub next : State → ℕ × State

-- FastRandNumberGenerator::Next
unfoldable pub fast_rand_next : ℕ → ℕ × ℕ
fast_rand_next seed =
    let seed = (214013 * seed + 2531011) % 2 ^ 64 in (seed / 2 ^ 16 % 0x8000, seed)

-- FastRandNumberGenerator; Seed takes an `unsigned int`.
abbrev pub fast_rand : Rng
fast_rand = record { State = ℕ; seed = λ seed. seed % 2 ^ 32; next = fast_rand_next }

-- XORShiftNumberGenerator::Next
unfoldable pub xor_shift_next : ℕ → ℕ × ℕ
xor_shift_next seed =
    let seed = bit_xor seed (seed * 2 ^ 13 % 2 ^ 64) in
    let seed = bit_xor seed (seed / 2 ^ 7) in
    let seed = bit_xor seed (seed * 2 ^ 17 % 2 ^ 64) in (seed, seed)

-- XORShiftNumberGenerator
abbrev pub xor_shift : Rng
xor_shift = record { State = ℕ; seed = λ seed. seed % 2 ^ 32; next = xor_shift_next }
