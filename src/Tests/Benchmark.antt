-- ===== src/Tests/Benchmark.antt =====
-- The parts of the benchmark driver on small data.
use sigmod2012contest.Base.{
  ℕ, ◌+◌, ◌*◌, ◌^◌, ◌%◌, ◌/◌, ◌≤◌, ◌<◌, ◌≡◌, refl, true, false, some, List, [], ◌∷◌, arith, ℤ, pos,
  negsuc, ◌+ℤ◌, ◌≤ℤ◌,
}
use sigmod2012contest.Interface.{AttributeType}
use sigmod2012contest.Schema.{key_size}
use sigmod2012contest.Benchmark.KeyStore.{new_key_store, push, pop, get, fetched, refused}
use sigmod2012contest.Benchmark.KeyStore.Stack.{
  Call, pushes, pops, gets, accepted, answered, answers, stack_answers, key_store_refines_stack,
}
use sigmod2012contest.Benchmark.Rngs.{fast_rand, fast_rand_next, xor_shift_next}
use sigmod2012contest.Benchmark.Generators.{
  max_weights, discrete_next, UniformGenerator, new_uniform, uniform_next,
}
use sigmod2012contest.Benchmark.Generators.Selection.{total, Selects, discrete_next_lem}
use sigmod2012contest.Benchmark.Generators.Range.{uniform_next_lem}
use sigmod2012contest.Benchmark.Sizes.{invalid, product, get_size}
use sigmod2012contest.Benchmark.Sizes.Units.{megabytes, get_size_units}
use sigmod2012contest.Benchmark.Properties.{
  BenchmarkProperties, IndexProperties, new_index_properties,
}
use sigmod2012contest.Benchmark.Properties.Layout.{new_index_properties_lem}
use sigmod2012contest.Benchmark.Driver.{
  Workload, Benchmark, closes, new_benchmark, run, warmup_and_run,
}
use sigmod2012contest.Benchmark.Driver.Phases.{
  inits, runs, warms_up, closes_with, perform_all, IsInPhase, phases_never_null, phases_need_init,
}

abbrev calls : List (Call ℕ)
calls = pushes 4 ∷ pushes 5 ∷ pushes 6 ∷ gets (negsuc 0) ∷ gets (pos 2) ∷ pops ∷ pops ∷ pops ∷ []

answers-calls :
    answers calls (new_key_store 2 (0 ∷ 0 ∷ []))
    ≡ accepted true
      ∷ accepted true
      ∷ accepted false
      ∷ answered (fetched 5)
      ∷ answered (fetched 4)
      ∷ answered (fetched 5)
      ∷ answered (fetched 4)
      ∷ answered refused
      ∷ []
unfolding push pop get
answers-calls = refl

key_store_refines_stack_example :
    answers calls (new_key_store 2 (0 ∷ 0 ∷ [])) ≡ stack_answers 2 calls []
key_store_refines_stack_example = key_store_refines_stack 2 (0 ∷ 0 ∷ []) calls refl

fast_rand_run : (fast_rand_next 1).0 ≡ 41
unfolding fast_rand_next
fast_rand_run = refl

xor_shift_run : (xor_shift_next 1).0 ≡ 1082269761
unfolding xor_shift_next
xor_shift_run = refl

abbrev weights : List ℤ
weights = pos 3 ∷ pos 0 ∷ pos 5 ∷ []

discrete_next_lem_example :
    (i : ℕ) × (discrete_next fast_rand (3 ∷ 3 ∷ 8 ∷ []) 1 ≡ some (i, (fast_rand_next 1).1))
    × Selects weights ((fast_rand_next 1).0 % total weights) i
unfolding max_weights
discrete_next_lem_example =
    discrete_next_lem fast_rand weights (3 ∷ 3 ∷ 8 ∷ []) 1 refl (omega arith)

uniform_next_lem_example :
    (g : UniformGenerator) × (n : ℕ) × (x : ℤ) × (new_uniform (negsuc 3) (pos 3) ≡ some g)
    × (n + 0 + 0 ≡ 3 + 4 + 1)
    × (x ≡ negsuc 3 +ℤ pos ((fast_rand_next 1).0 % n))
    × (uniform_next fast_rand g 1 ≡ some (x, (fast_rand_next 1).1))
    × (negsuc 3 ≤ℤ x)
    × (x ≤ℤ pos 3)
uniform_next_lem_example =
    uniform_next_lem fast_rand (negsuc 3) (pos 3) 1 (omega arith) (omega arith) (omega arith)
      (omega arith)

get_size_units_example :
    (get_size (49 ∷ 48 ∷ 32 ∷ 77 ∷ 66 ∷ []) ≡ product 10 (2 ^ 20))
    × (get_size (49 ∷ 48 ∷ 32 ∷ []) ≡ product 10 1)
    × (get_size (49 ∷ 48 ∷ 32 ∷ 66 ∷ []) ≡ invalid)
get_size_units_example = get_size_units 49 (48 ∷ []) 1 megabytes (refl, (refl, tt)) refl

abbrev two_columns : List AttributeType
two_columns = AttributeType.int ∷ AttributeType.varchar ∷ []

new_index_properties_lem_example :
    (p : IndexProperties) × (new_index_properties (λ n. n * 3 / 2) [] [] 2 two_columns 10000 20
      ≡ some p)
    × (p.key_size + 1 ≡ key_size two_columns)
    × (p.record_size ≡ p.key_size + 20)
    × (p.record_size * p.populate_count ≤ 10000)
    × (10000 < p.record_size * p.populate_count + p.record_size)
    × (p.keystore.size ≡ 0)
unfolding key_size
new_index_properties_lem_example =
    new_index_properties_lem (λ n. n * 3 / 2) [] [] 2 two_columns 10000 20 (omega arith)
      (omega arith)

abbrev settings : BenchmarkProperties
settings = record {
  thread_count = 1;
  warmup_time = 0;
  measurement_time = 1;
  seed = 3;
  settings = [];
}

-- A workload that counts its calls, and one that refuses its properties.
abbrev counting : Workload
counting = record {
  State = ℕ;
  init = λ props s. (true, s);
  warmup = λ s. s + 1;
  run = λ s. (record { elements = []; groups = [] }, s + 10);
  cleanup = λ s. (true, s);
}

abbrev refusing : Workload
refusing = record counting { init = λ props s. (false, s) }

phases_never_null_example :
    (s' : Benchmark counting) × (perform_all
        (closes_with [] [] ∷ inits settings ∷ warms_up ∷ closes_with [] [] ∷ [])
        (new_benchmark 0)
      ≡ closes s')
    × IsInPhase s'
phases_never_null_example =
    phases_never_null {w = counting}
      (closes_with [] [] ∷ inits settings ∷ warms_up ∷ closes_with [] [] ∷ []) 0

phases_need_init_example :
    (s' : Benchmark refusing) × (perform_all
        (inits settings ∷ runs ∷ warms_up ∷ [])
        (new_benchmark 0)
      ≡ closes s')
    × (s'.workload ≡ 0)
    × (s'.printed ≡ [])
    × (run s' ≡ (false, s'))
    × (warmup_and_run s' ≡ (false, s'))
phases_need_init_example =
    phases_need_init {w = refusing} (inits settings ∷ runs ∷ warms_up ∷ []) 0 (refl, (tt, (tt, tt)))
