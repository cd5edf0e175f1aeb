-- ===== src/Benchmark/KeyData.antt =====
-- The keys that a benchmark remembers in its key store: how
-- benchmark/workloads/sigmod_2012_basic_workload.cc writes a key into an array of bytes and reads it
-- back (SetKey). An access beyond an array, which is undefined behaviour, is `none`.
pub mod Bytes
pub mod RoundTrip
use sigmod2012contest.Base.{
  ℕ, zero, suc, Option, none, some, List, [], ◌∷◌, ◌++◌, take, drop, ◌==◌, if◌then◌else◌,
}
use sigmod2012contest.Interface.{AttributeType, Attribute}
use sigmod2012contest.Benchmark.Properties.{attribute_bytes}

abbrev pub ◌>>=◌ : {A B : Type 0} → Option A → (A → Option B) → Option B

infixl 1 ◌>>=◌
none >>= f = none
some a >>= f = f a

-- The first n bytes at an address.
unfoldable pub read : ℕ → List ℕ → Option (List ℕ)
read zero p = some []
read (suc n) [] = none
read (suc n) (x ∷ p) = do xs ← read n p; some (x ∷ xs)

-- The bytes of a C string, with the NUL that ends it.
unfoldable pub c_string : List ℕ → Option (List ℕ)
c_string [] = none
c_string (x ∷ p) =
    let rest = c_string p in if x == 0 then some (0 ∷ []) else (do xs ← rest; some (x ∷ xs))

-- The bytes that an assignment of a number or strcpy copies from an address.
unfoldable pub source_bytes : AttributeType → List ℕ → Option (List ℕ)
unfolding read c_string
source_bytes AttributeType.short p = read 4 p
source_bytes AttributeType.int p = read 8 p
source_bytes AttributeType.varchar p = c_string p

-- An array after bytes were written to its start.
unfoldable pub put : List ℕ → List ℕ → Option (List ℕ)
put [] p = some p
put (b ∷ bs) [] = none
put (b ∷ bs) (x ∷ p) = do rest ← put bs p; some (b ∷ rest)

-- The loop that writes the attributes of a key into `data`, from the current offset on.
unfoldable pub write_key : List AttributeType → List Attribute → List ℕ → Option (List ℕ)
unfolding source_bytes put
write_key [] values buffer = some buffer
write_key (t ∷ ts) [] buffer = none
write_key (t ∷ ts) (a ∷ values) buffer = do
  bytes ← source_bytes t a.bytes
  written ← put bytes buffer
  rest ← write_key ts values (drop (attribute_bytes t) written)
  some (take (attribute_bytes t) written ++ rest)

-- SetKey, from the current offset on: the values of the key after it.
unfoldable pub set_key : List ℕ → List Attribute → Option (List Attribute)
unfolding source_bytes put
set_key serialized [] = some []
set_key serialized (a ∷ values) = do
  bytes ← source_bytes a.type serialized
  union ← put bytes a.bytes
  rest ← set_key (drop (attribute_bytes a.type) serialized) values
  some (record { type = a.type; bytes = union } ∷ rest)
