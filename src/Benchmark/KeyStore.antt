-- ===== src/Benchmark/KeyStore.antt =====
-- CachedKeyStore, benchmark/core/cached_key_store.h: a bounded array of keys that is filled and emptied
-- at its end. Each method runs under the mutex of the store, so it is one step; `int` and
-- `unsigned int` have 32 bits.
pub mod Stack
use sigmod2012contest.Base.{
  ℕ, ◌+◌, ◌-◌, ◌%◌, Bool, true, false, Option, none, some, List, get_elem?, set, leb, ltb,
  if◌then◌else◌, ℤ, pos, negsuc,
}

-- `keys` is the array of `capacity` keys, which holds arbitrary keys at first.
pub record KeyStore {ℓ} (K : Type ℓ) : Type ℓ where
  pub capacity : ℕ
  pub size : ℕ
  pub keys : List K

-- What Pop and Get do with the reference they are given: nothing, a key, or a read out of bounds.
pub data Fetched {ℓ} (K : Type ℓ) : Type ℓ where
  refused : Fetched K
  fetched : K → Fetched K
  out_of_bounds : Fetched K

-- An `int` as an `unsigned int`.
abbrev pub to_unsigned : ℤ → ℕ
to_unsigned (pos n) = n % 0x100000000
to_unsigned (negsuc n) = 0xffffffff - n % 0x100000000

module _ {ℓ} {K : Type ℓ} where
  abbrev pub fetch : Option K → Fetched K
  fetch none = out_of_bounds
  fetch (some k) = fetched k

  -- CachedKeyStore::CachedKeyStore, on an array of fresh memory.
  abbrev pub new_key_store : ℕ → List K → KeyStore K
  new_key_store capacity memory = record { capacity = capacity; size = 0; keys = memory }

  -- CachedKeyStore::Push
  unfoldable pub push : K → KeyStore K → Bool × KeyStore K
  push key s =
      if leb s.capacity s.size
      then (false, s)
      else (true, record s { keys = set s.keys s.size key; size = s.size + 1 })

  -- CachedKeyStore::Pop
  unfoldable pub pop : KeyStore K → Fetched K × KeyStore K
  pop s =
      if ltb s.size 1
      then (refused, s)
      else (fetch (get_elem? s.keys (s.size - 1)), record s { size = s.size - 1 })

  -- CachedKeyStore::Get
  unfoldable pub get : ℤ → KeyStore K → Fetched K
  get index s =
      if ltb s.size 1 then refused else fetch (get_elem? s.keys (to_unsigned index % s.size))
