-- ===== src/Benchmark/Driver/Phases.antt =====
-- The order of the phases of a benchmark.
use sigmod2012contest.Base.{
  ◌≡◌, ◌⊎◌, refl, ap, ◌∙◌, true, false, none, some, List, [], ◌∷◌, inl, inr, Bool-cases,
  Option-cases, is_some, All, arith,
}
use sigmod2012contest.Containers.Text.{Text}
use sigmod2012contest.Benchmark.Properties.{BenchmarkProperties}
use sigmod2012contest.Benchmark.Statistics.{Statistics, add_value}
use sigmod2012contest.Benchmark.Driver.{
  Workload, Benchmark, Closed, closes, null_pointer, new_benchmark, init, run, warmup_and_run,
  close,
}

-- The calls that a program may make of a benchmark, in any order.
pub data Call : Type 0 where
  inits : BenchmarkProperties → Call
  runs warms_up : Call
  closes_with : Text → Text → Call

-- An Init is refused by the workload, which stays in its state.
abbrev pub Refused : (w : Workload) → w.State → Call → Type 0
Refused w state (inits props) = w.init props state ≡ (false, state)
Refused w state runs = Unit
Refused w state warms_up = Unit
Refused w state (closes_with metric elapsed) = Unit

module _ {w : Workload} where
  abbrev pub perform : Call → Benchmark w → Closed w
  perform (inits props) s = closes (init props s)
  perform runs s = closes (run s).1
  perform warms_up s = closes (warmup_and_run s).1
  perform (closes_with metric elapsed) s = close metric elapsed s

  abbrev pub continue : (Benchmark w → Closed w) → Closed w → Closed w
  continue f (closes s) = f s
  continue f null_pointer = null_pointer

  abbrev pub perform_all : List Call → Benchmark w → Closed w
  perform_all [] s = closes s
  perform_all (c ∷ cs) s = continue (perform_all cs) (perform c s)

  -- A benchmark that has been executed was initialized before and has its statistics.
  abbrev pub IsInPhase : Benchmark w → Type 0
  IsInPhase s = s.executed ≡ true → (s.initialized ≡ true) × (is_some s.statistics ≡ true)

  perform_lem :
      (c : Call) (s : Benchmark w)
      → IsInPhase s
      → (s' : Benchmark w) × (perform c s ≡ closes s') × IsInPhase s'
  unfolding init run warmup_and_run close
  perform_lem (inits props) s h = (init props s, refl, ground arith)
  perform_lem runs s h = ((run s).1, refl, ground arith)
  perform_lem warms_up s h = ((warmup_and_run s).1, refl, ground arith)
  perform_lem (closes_with metric elapsed) s h = elim (Bool-cases s.executed) [
    | inl e ↦ closed e (Option-cases s.statistics)
    | inr e ↦ (s, ground arith, h)
  ]
    where
      closed :
          s.executed ≡ true
          → (s.statistics ≡ none) ⊎ ((x : Statistics) × (s.statistics ≡ some x))
          → (s' : Benchmark w) × (perform (closes_with metric elapsed) s ≡ closes s') × IsInPhase s'
      closed ex (inl n) = let (_, there) = h ex in absurd (ground arith)
      closed ex (inr (x, e)) =
          let x' = add_value metric elapsed x in
          (
            record s {
              workload = (w.cleanup s.workload).1;
              statistics = some x';
              printed = x' ∷ s.printed;
            },
            rw (ex, e) refl,
            λ _. ((h ex).0, refl),
          )

  perform_all_lem :
      (cs : List Call) (s : Benchmark w)
      → IsInPhase s
      → (s' : Benchmark w) × (perform_all cs s ≡ closes s') × IsInPhase s'
  perform_all_lem [] s h = (s, refl, h)
  perform_all_lem (c ∷ cs) s h =
      let (s1, run1, h1) = perform_lem c s h in
      let (s', run', h') = perform_all_lem cs s1 h1 in
      (s', ap (continue (perform_all cs)) run1 ∙ run', h')

  -- Whatever calls are made of a new benchmark, in any order, none goes through a NULL pointer. If it
  -- counts as executed in the end, then it was initialized and has its statistics.
  pub phases_never_null :
      (cs : List Call) (state : w.State)
      → (s' : Benchmark w) × (perform_all cs (new_benchmark state) ≡ closes s') × IsInPhase s'
  unfolding new_benchmark
  phases_never_null cs state = perform_all_lem cs (new_benchmark state) (λ e. absurd (ground arith))

  -- The phases after Init have not been entered.
  abbrev pub IsIdle : w.State → Benchmark w → Type 0
  IsIdle state s =
      (s.initialized ≡ false) × (s.executed ≡ false) × (s.workload ≡ state) × (s.printed ≡ [])

  perform-IsIdle :
      (state : w.State) (c : Call) (s : Benchmark w)
      → Refused w state c
      → IsIdle state s
      → (s' : Benchmark w) × (perform c s ≡ closes s') × IsIdle state s'
  unfolding init run warmup_and_run close
  perform-IsIdle state (inits props) s r (i, e, at, p) =
      let same : w.init props s.workload ≡ (false, state) = rw at r in
      (record s { properties = some props; workload = state }, rw same refl, (i, e, refl, p))
  perform-IsIdle state runs s r (i, e, at, p) = (s, rw i refl, (i, e, at, p))
  perform-IsIdle state warms_up s r (i, e, at, p) = (s, rw i refl, (i, e, at, p))
  perform-IsIdle state (closes_with metric elapsed) s r (i, e, at, p) =
      (s, rw e refl, (i, e, at, p))

  perform_all-IsIdle :
      (state : w.State) (cs : List Call) (s : Benchmark w)
      → All (Refused w state) cs
      → IsIdle state s
      → (s' : Benchmark w) × (perform_all cs s ≡ closes s') × IsIdle state s'
  perform_all-IsIdle state [] s h idle = (s, refl, idle)
  perform_all-IsIdle state (c ∷ cs) s h idle =
      let (s1, run1, idle1) = perform-IsIdle state c s h.0 idle in
      let (s', run', idle') = perform_all-IsIdle state cs s1 h.1 idle1 in
      (s', ap (continue (perform_all cs)) run1 ∙ run', idle')

  -- As long as the workload refuses every Init and is left as it was by it, no other call of a new
  -- benchmark reaches the workload or prints anything: Run, WarmupAndRun and Close do nothing, and
  -- the next Run and WarmupAndRun return false.
  pub phases_need_init :
      (cs : List Call) (state : w.State)
      → All (Refused w state) cs
      → (s' : Benchmark w) × (perform_all cs (new_benchmark state) ≡ closes s')
        × (s'.workload ≡ state)
        × (s'.printed ≡ [])
        × (run s' ≡ (false, s'))
        × (warmup_and_run s' ≡ (false, s'))
  unfolding new_benchmark run warmup_and_run
  phases_need_init cs state h =
      let (s', ran, (i, e, at, p)) =
        perform_all-IsIdle state cs (new_benchmark state) h (refl, refl, refl, refl) in
      (s', ran, at, p, rw i refl, rw i refl)
