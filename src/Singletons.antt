-- ===== src/Singletons.antt =====
-- The two singletons of the example implementation: getInstance, Initialize and Destroy of
-- ConnectionManager (example/connection_manager.cc) and of IndexManager (example/index.cc), which are
-- the same code, and the constructor and the destructor of ConnectionManager. If the function that
-- pthread_once calls throws, then pthread_once calls it again the next time, as in the GNU library.
pub mod Once
use sigmod2012contest.Base.{
  ℕ, ◌+◌, ◌*◌, ◌^◌, Bool, true, false, Option, none, some, List, [], ◌∷◌, if◌then◌else◌,
}
use sigmod2012contest.Containers.Text.{Text, codes}
use sigmod2012contest.Containers.Map.{Map}
use sigmod2012contest.Bdb.{M, Outcome, returns, throws, faults, out_of_fuel, ◌>>=◌, ◌>>◌, pure}
use sigmod2012contest.Objects.{loaded}

pub data EnvFlag : Type 0 where
  create recover init_lock init_log init_txn init_mpool private auto_commit thread : EnvFlag

-- The methods of DbEnv that are called, on a state of Berkeley DB; a DbEnv* is a number.
pub record DbEnv : Type 1 where
  pub State : Type 0
  pub new_env : M State ℕ
  pub log_in_memory : ℕ → M State (Unit {0})
  pub set_lg_bsize : ℕ → ℕ → M State (Unit {0})
  pub set_cachesize : ℕ → ℕ → ℕ → ℕ → M State (Unit {0})
  pub set_lk_detect_minwrite : ℕ → M State (Unit {0})
  pub set_errfile : ℕ → Text → M State (Unit {0})
  pub open_env : ℕ → List EnvFlag → M State (Unit {0})
  pub close_env : ℕ → M State (Unit {0})

abbrev pub env_flags : List EnvFlag
env_flags =
    create ∷ recover ∷ init_lock ∷ init_log ∷ init_txn ∷ init_mpool ∷ private ∷ auto_commit ∷ thread
    ∷ []

-- ConnectionManager::ConnectionManager; an object is its `env_`.
unfoldable pub new_connection_manager : (d : DbEnv) → M d.State ℕ
new_connection_manager d = do
  env ← d.new_env
  d.log_in_memory env
  d.set_lg_bsize env (2 ^ 20 * 25)
  d.set_cachesize env 4 0 1
  d.set_lk_detect_minwrite env
  d.set_errfile env (codes "bdb.log")
  d.open_env env env_flags
  pure env

-- ConnectionManager::~ConnectionManager: an exception is printed and goes no further.
abbrev pub closed_env : {S : Type 0} → Outcome (Unit {0}) × S → Outcome (Unit {0}) × S
closed_env (returns tt, s) = (returns tt, s)
closed_env (throws e, s) = (returns tt, s)
closed_env (faults, s) = (faults, s)
closed_env (out_of_fuel, s) = (out_of_fuel, s)

unfoldable pub delete_connection_manager : (d : DbEnv) → ℕ → M d.State (Unit {0})
delete_connection_manager d env s = closed_env (d.close_env env s)

-- `once_` and `instance_` of a class beside the rest of the state, and how often Destroy has been
-- registered by atexit.
pub record Singleton (S A : Type 0) : Type 0 where
  pub state : S
  pub once : Bool
  pub instance_ : Option A
  pub registered : ℕ

module _ {S A : Type 0} where
  -- A call on the rest of the state.
  abbrev pub inner : {B : Type 0} → M S B → M (Singleton S A) B
  inner m w = let (r, s) = m w.state in (r, record w { state = s })

  -- Initialize, of a class with this constructor.
  unfoldable pub initialize : M S A → M (Singleton S A) (Unit {0})
  initialize construct = do
    a ← inner construct
    λ w. (returns tt, record w { instance_ = some a; registered = w.registered + 1 })

  -- `pthread_once(&once_, &Initialize)`
  abbrev pub pthread_once : M (Singleton S A) (Unit {0}) → M (Singleton S A) (Unit {0})
  pthread_once init w =
      if w.once
      then (returns tt, w)
      else (init >>= λ _ w'. (returns tt, record w' { once = true })) w

  -- getInstance
  unfoldable pub get_instance : M S A → M (Singleton S A) A
  unfolding initialize
  get_instance construct = do pthread_once (initialize construct); λ w. loaded w.instance_ w

  abbrev deleted : (A → M S (Unit {0})) → Option A → M (Singleton S A) (Unit {0})
  deleted destruct none = pure tt
  deleted destruct (some a) = inner (destruct a)

  -- Destroy
  unfoldable pub destroy : (A → M S (Unit {0})) → M (Singleton S A) (Unit {0})
  destroy destruct w =
      (deleted destruct w.instance_ >>= λ _ w'. (returns tt, record w' { instance_ = none })) w

-- ConnectionManager::getInstance
abbrev pub connection_manager : (d : DbEnv) → M (Singleton d.State ℕ) ℕ
connection_manager d = get_instance (new_connection_manager d)

-- IndexManager::getInstance; an IndexManager is its `indices_`, and a new one has none.
abbrev pub index_manager : {S : Type 0} → M (Singleton S (Map ℕ)) (Map ℕ)
index_manager = get_instance (pure [])
