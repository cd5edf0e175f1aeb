-- ===== src/Benchmark/Properties.antt =====
-- The settings of a run: BenchmarkProperties of benchmark/core/benchmark_properties.h, and
-- SIGMOD2012Properties and SIGMOD2012IndexProperties of benchmark/workloads/sigmod_2012_properties.h.
-- An `unsigned int` has 32 bits.
pub mod Layout
use sigmod2012contest.Base.{
  ℕ, ◌+◌, ◌*◌, ◌/◌, ◌%◌, ◌^◌, ◌≡◌, Bool, true, false, Option, none, some, List, [], ◌∷◌, ◌++◌, take,
  get_elem?, ◌==◌, if◌then◌else◌, ℤ, pos, arith,
}
use sigmod2012contest.Containers.Text.{Text, text_eq}
use sigmod2012contest.Containers.Map
use sigmod2012contest.Containers.Map.{Map}
use sigmod2012contest.Interface.{AttributeType}
use sigmod2012contest.Keys.{max_varchar_length}
use sigmod2012contest.Benchmark.KeyStore.{KeyStore, new_key_store}

pub record BenchmarkProperties : Type 0 where
  pub thread_count : ℕ
  pub warmup_time : ℕ
  pub measurement_time : ℕ
  pub seed : ℕ
  pub settings : Map Text

-- BenchmarkProperties::Set
unfoldable pub set_property : Text → Text → BenchmarkProperties → BenchmarkProperties
set_property key value p = record p { settings = Map.assign key value p.settings }

abbrev pub or_default : Text → Option Text → Text
or_default default_value none = default_value
or_default default_value (some value) = value

-- BenchmarkProperties::Get
unfoldable pub get_property : Text → Text → BenchmarkProperties → Text
get_property key default_value p = or_default default_value (Map.find key p.settings)

-- `sizeof(int32_t)`, `sizeof(int64_t)` and MAX_VARCHAR_LENGTH.
abbrev pub attribute_bytes : AttributeType → ℕ
attribute_bytes AttributeType.short = 4
attribute_bytes AttributeType.int = 8
attribute_bytes AttributeType.varchar = max_varchar_length

-- The loop of the constructor that sums the key size up.
unfoldable pub sum_key_size : ℕ → List AttributeType → ℕ
sum_key_size key_size [] = key_size
sum_key_size key_size (t ∷ ts) = sum_key_size ((key_size + attribute_bytes t) % 2 ^ 32) ts

pub record IndexProperties : Type 0 where
  pub name : Text
  pub dimensions : ℕ
  pub types : List AttributeType
  pub size : ℕ
  pub payload_size : ℕ
  pub key_size : ℕ
  pub record_size : ℕ
  pub populate_count : ℕ
  pub keystore_capacity : ℕ
  pub keystore : KeyStore ℕ

-- SIGMOD2012IndexProperties::SIGMOD2012IndexProperties. `scaled` is the product with the factor of
-- type float, as an `unsigned int`; `memory` is what the new array of keys holds. `none` is a division
-- by a record size of 0.
unfoldable pub new_index_properties :
    (ℕ → ℕ) → List ℕ → Text → ℕ → List AttributeType → ℕ → ℕ → Option IndexProperties
unfolding sum_key_size
new_index_properties scaled memory name dimensions types size payload_size =
    let key_size = sum_key_size 0 (take dimensions types) in
    let record_size = (key_size + payload_size) % 2 ^ 32 in
    let populate_count = size / record_size in
    let keystore_capacity = scaled populate_count in
    if record_size == 0
    then none
    else some (record {
      name = name;
      dimensions = dimensions;
      types = types;
      size = size;
      payload_size = payload_size;
      key_size = key_size;
      record_size = record_size;
      populate_count = populate_count;
      keystore_capacity = keystore_capacity;
      keystore = new_key_store keystore_capacity memory;
    })
