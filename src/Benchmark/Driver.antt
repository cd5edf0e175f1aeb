-- ===== src/Benchmark/Driver.antt =====
-- The class Benchmark, benchmark/core/benchmark.cc, which drives a workload through its phases, and
-- the counters of BenchmarkThread, benchmark/core/benchmark.h. Messages to the logger and the timer
-- are left out; the statistics are printed by a parameter.
pub mod Phases
use sigmod2012contest.Base.{
  ℕ, ◌+◌, Bool, true, false, Option, none, some, List, [], ◌∷◌, if◌then◌else◌,
}
use sigmod2012contest.Containers.Text.{Text}
use sigmod2012contest.Benchmark.Properties.{BenchmarkProperties}
use sigmod2012contest.Benchmark.Statistics.{Statistics, add_value}

-- The interface Workload, benchmark/core/workload.h.
pub record Workload : Type 1 where
  pub State : Type 0
  pub init : BenchmarkProperties → State → Bool × State
  pub warmup : State → State
  pub run : State → Statistics × State
  pub cleanup : State → Bool × State

-- `statistics` is a pointer that may be NULL, `printed` what has been given to PrintStatistics.
pub record Benchmark (w : Workload) : Type 0 where
  pub initialized : Bool
  pub executed : Bool
  pub properties : Option BenchmarkProperties
  pub workload : w.State
  pub statistics : Option Statistics
  pub printed : List Statistics

-- Benchmark::Close goes through `statistics_`, which must not be NULL.
pub data Closed (w : Workload) : Type 0 where
  closes : Benchmark w → Closed w
  null_pointer : Closed w

module _ {w : Workload} where
  -- Benchmark::Benchmark
  unfoldable pub new_benchmark : w.State → Benchmark w
  new_benchmark workload = record {
    initialized = false;
    executed = false;
    properties = none;
    workload = workload;
    statistics = none;
    printed = [];
  }

  -- Benchmark::Init
  unfoldable pub init : BenchmarkProperties → Benchmark w → Benchmark w
  init props s =
      let (done, workload) = w.init props s.workload in
      if done
      then record s { properties = some props; workload = workload; initialized = true }
      else record s { properties = some props; workload = workload }

  -- Benchmark::Run
  unfoldable pub run : Benchmark w → Bool × Benchmark w
  run s =
      if s.initialized
      then (let (statistics, workload) = w.run s.workload in
          (true, record s { statistics = some statistics; workload = workload; executed = true }))
      else (false, s)

  -- Benchmark::WarmupAndRun
  unfoldable pub warmup_and_run : Benchmark w → Bool × Benchmark w
  unfolding run
  warmup_and_run s =
      if s.initialized
      then (true, (run (record s { workload = w.warmup s.workload })).1)
      else (false, s)

  -- The end of Benchmark::Close, after the cleanup; `elapsed` is the runtime as a text.
  abbrev report : Text → Text → Option Statistics → Benchmark w → Closed w
  report metric elapsed none s = null_pointer
  report metric elapsed (some statistics) s =
      let statistics = add_value metric elapsed statistics in
      closes (record s { statistics = some statistics; printed = statistics ∷ s.printed })

  -- Benchmark::Close
  unfoldable pub close : Text → Text → Benchmark w → Closed w
  close metric elapsed s =
      if s.executed
      then report metric elapsed s.statistics (record s { workload = (w.cleanup s.workload).1 })
      else closes s

-- BenchmarkThread: its mode, and the two methods that change a counter by `incv_`.
unfoldable pub increment : ℕ → ℕ → ℕ
increment incv value = value + incv

unfoldable pub decrement : ℕ → ℕ → ℕ
decrement incv value = value + incv
