-- ===== src/Locks.antt =====
-- The mutexes of example/mutex.h, and threads that use a shared state under one of them. A thread is
-- a number. Of the pthread library it is used that pthread_mutex_lock waits while another call has
-- the mutex, and that pthread_mutex_unlock lets it go.
pub mod Atomic
pub mod Progress
use sigmod2012contest.Base.{
  ℕ, Bool, false, Option, none, some, List, [], ◌∷◌, ◌++◌, map, if◌then◌else◌,
}
use sigmod2012contest.Objects.{update}

-- Mutex: the thread that has it locked.
pub record Mutex : Type 0 where
  pub owner : Option ℕ

-- Mutex::Lock; `none` has to wait. Mutex::Unlock.
abbrev pub mutex_lock : ℕ → Mutex → Option Mutex
mutex_lock t m = elim m.owner [ none ↦ some (record { owner = some t }) | some _ ↦ none ]

abbrev pub mutex_unlock : Mutex
mutex_unlock = record { owner = none }

-- Lock::operator bool
abbrev pub operator_bool : Bool
operator_bool = false

-- What a thread does next: Lock::Lock, one access of the body, Lock::~Lock.
pub data Instruction (S : Type 0) : Type 0 where
  constructs : Instruction S
  accesses : (S → S) → Instruction S
  destructs : Instruction S

module _ {S : Type 0} where
  -- `lock(x){ body }`: the new lock is the condition of an `if` with the body as its `else`, and it is
  -- destroyed however the body is left. The state holds the variables of the threads too, so what
  -- follows a `return` of the body is an access that changes nothing.
  unfoldable pub lock : List (S → S) → List (Instruction S)
  lock body = constructs ∷ (if operator_bool then [] else map accesses body) ++ destructs ∷ []

  -- The statements of a thread.
  unfoldable pub program : List (List (S → S)) → List (Instruction S)
  unfolding lock
  program [] = []
  program (body ∷ bodies) = lock body ++ program bodies

-- The threads' instructions that are left, and what they share.
pub record Machine (S : Type 0) : Type 0 where
  pub mutex : Mutex
  pub shared : S
  pub threads : ℕ → List (Instruction S)

module _ {S : Type 0} where
  abbrev pub constructed : ℕ → Machine S → List (Instruction S) → Option Mutex → Machine S
  constructed t m rest none = m
  constructed t m rest (some mutex) = record m { mutex = mutex; threads = update m.threads t rest }

  abbrev pub on_instruction : ℕ → Machine S → List (Instruction S) → Machine S
  on_instruction t m [] = m
  on_instruction t m (constructs ∷ rest) = constructed t m rest (mutex_lock t m.mutex)
  on_instruction t m (accesses f ∷ rest) = record m {
    shared = f m.shared;
    threads = update m.threads t rest;
  }
  on_instruction t m (destructs ∷ rest) = record m {
    mutex = mutex_unlock;
    threads = update m.threads t rest;
  }

  -- A thread gets its turn. It stays where it is if it has to wait or is at its end.
  unfoldable pub turn : ℕ → Machine S → Machine S
  turn t m = on_instruction t m (m.threads t)

  -- An interleaving, by the threads that get the turns.
  unfoldable pub run : List ℕ → Machine S → Machine S
  unfolding turn
  run [] m = m
  run (t ∷ ts) m = run ts (turn t m)

  -- The threads before their first statement.
  abbrev pub begun : S → (ℕ → List (List (S → S))) → Machine S
  begun s bodies = record {
    mutex = record { owner = none };
    shared = s;
    threads = λ t. program (bodies t);
  }
