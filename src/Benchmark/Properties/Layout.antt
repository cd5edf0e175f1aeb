-- ===== src/Benchmark/Properties/Layout.antt =====
-- How many records populate an index, and how its record size relates to the keys of the index.
use native.Mathlib.Nat.{mod-lt, div-add-mod}
use sigmod2012contest.Base.{
  ℕ, ◌+◌, ◌*◌, ◌/◌, ◌%◌, ◌^◌, ◌≤◌, ◌<◌, ◌≡◌, refl, false, some, List, [], ◌∷◌, take, ◌==◌,
  if◌then◌else◌, arith,
}
use sigmod2012contest.Containers.Text.{Text, text_eq}
use sigmod2012contest.Containers.Map
use sigmod2012contest.Interface.{AttributeType}
use sigmod2012contest.Schema.{key_size}
use sigmod2012contest.Benchmark.Properties.{
  BenchmarkProperties, set_property, get_property, sum_key_size, IndexProperties,
  new_index_properties,
}

-- Get after Set: the value that was set under that key, and what it was under any other.
get_property-set_property :
    (key value other default_value : Text) (p : BenchmarkProperties)
    → get_property other default_value (set_property key value p)
      ≡ (if text_eq key other then value else get_property other default_value p)
unfolding get_property set_property
get_property-set_property key value other default_value p =
    ground (arith, Map.find-assign key other value p.settings)

abbrev pub varchars : List AttributeType → ℕ
varchars [] = 0
varchars (AttributeType.varchar ∷ ts) = 1 + varchars ts
varchars (AttributeType.short ∷ ts) = varchars ts
varchars (AttributeType.int ∷ ts) = varchars ts

sum_key_size_lem :
    (n : ℕ) (ts : List AttributeType)
    → n + key_size ts < 2 ^ 32
    → sum_key_size n ts + varchars ts ≡ n + key_size ts
unfolding sum_key_size key_size
sum_key_size_lem n [] h = omega arith
sum_key_size_lem n (AttributeType.short ∷ ts) h =
    omega (arith, sum_key_size_lem ((n + 4) % 2 ^ 32) ts (omega arith))
sum_key_size_lem n (AttributeType.int ∷ ts) h =
    omega (arith, sum_key_size_lem ((n + 8) % 2 ^ 32) ts (omega arith))
sum_key_size_lem n (AttributeType.varchar ∷ ts) h =
    omega (arith, sum_key_size_lem ((n + 512) % 2 ^ 32) ts (omega arith))

quotient_le : (n r : ℕ) → r * (n / r) ≤ n
quotient_le n r = let q = r * (n / r) in let split : q + n % r ≡ n = div-add-mod n r in omega arith

lt_quotient : (n r : ℕ) → 0 < r → n < r * (n / r) + r
lt_quotient n r p =
    let q = r * (n / r) in
    let split : q + n % r ≡ n = div-add-mod n r in let small : n % r < r = mod-lt n p in omega arith

-- The settings of an index whose key and payload fit 32 bits together, where the payload is not empty: the key size is
-- that of a key of the example implementation, less its last byte of each varchar, and the
-- number of records is the greatest whose total size does not exceed the size of the index. The key
-- store begins empty.
pub new_index_properties_lem :
    (scaled : ℕ → ℕ) (memory : List ℕ) (name : Text) (dimensions : ℕ) (types : List AttributeType)
    (size payload_size : ℕ)
    → key_size (take dimensions types) + payload_size < 2 ^ 32
    → 0 < payload_size
    → (p : IndexProperties) × (new_index_properties scaled memory name dimensions types size
          payload_size
        ≡ some p)
      × (p.key_size + varchars (take dimensions types) ≡ key_size (take dimensions types))
      × (p.record_size ≡ p.key_size + payload_size)
      × (p.record_size * p.populate_count ≤ size)
      × (size < p.record_size * p.populate_count + p.record_size)
      × (p.keystore.size ≡ 0)
unfolding new_index_properties
new_index_properties_lem scaled memory name dimensions types size payload_size h nonzero =
    let ts = take dimensions types in
    let k = sum_key_size 0 ts in
    let keys : k + varchars ts ≡ 0 + key_size ts = sum_key_size_lem 0 ts (omega arith) in
    let r = (k + payload_size) % 2 ^ 32 in
    let same : r ≡ k + payload_size = omega arith in
    let divides : (r == 0) ≡ false = ground arith in
    (
      record {
        name = name;
        dimensions = dimensions;
        types = types;
        size = size;
        payload_size = payload_size;
        key_size = k;
        record_size = r;
        populate_count = size / r;
        keystore_capacity = scaled (size / r);
        keystore = record { capacity = scaled (size / r); size = 0; keys = memory };
      },
      rw divides refl,
      omega arith,
      same,
      quotient_le size r,
      lt_quotient size r (ground arith),
      refl,
    )
