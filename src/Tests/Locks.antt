-- ===== src/Tests/Locks.antt =====
-- Two threads on an IndexSchema, as in the file Locks: one begins a transaction on it while the other
-- makes it read-only.
use sigmod2012contest.Base.{ℕ, ◌≡◌, refl, ◌==◌, if◌then◌else◌, List, [], ◌∷◌, ◌++◌, false}
use sigmod2012contest.Containers.AddressSet.{insert}
use sigmod2012contest.Schema.{IndexSchema, begin_transaction, make_read_only}
use sigmod2012contest.Locks.{program, run, begun}
use sigmod2012contest.Locks.Atomic.{Refines, atomic_run, run-Refines}
use sigmod2012contest.Locks.Progress.{lock_progress}
use sigmod2012contest.Tests.Objects.{schema_with}

abbrev Access : Type 0
Access = IndexSchema → IndexSchema

abbrev begins_seven : Access
begins_seven is = (begin_transaction 7 is).1

abbrev makes_read_only : Access
makes_read_only is = (make_read_only is).1

abbrev bodies : ℕ → List (List Access)
bodies t =
    if t == 0 then (begins_seven ∷ []) ∷ [] else if t == 1 then (makes_read_only ∷ []) ∷ [] else []

-- The second thread tries in vain while the first has the mutex.
abbrev schedule : List ℕ
schedule = 0 ∷ 1 ∷ 0 ∷ 1 ∷ 0 ∷ 1 ∷ 1 ∷ 1 ∷ []

both_end :
    (run schedule (begun (schema_with false [] []) bodies)).shared ≡ schema_with false [] (7 ∷ [])
unfolding run program begin_transaction make_read_only insert
both_end = refl

run-Refines_example :
    (order : List ℕ) × Refines
      (run schedule (begun (schema_with false [] []) bodies))
      (atomic_run order (record { shared = schema_with false [] []; bodies = bodies }))
run-Refines_example = run-Refines (schema_with false [] []) bodies schedule

lock_progress_example :
    (more : List ℕ) × ((run ((0 ∷ 0 ∷ []) ++ more) (begun (schema_with false [] []) bodies)).threads
        1
      ≡ [])
lock_progress_example = lock_progress (schema_with false [] []) bodies (0 ∷ 0 ∷ []) 1
