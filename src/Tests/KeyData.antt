-- ===== src/Tests/KeyData.antt =====
-- Keys of a key store on small data.
use sigmod2012contest.Base.{◌++◌, ℕ, ◌≡◌, refl, some, none, List, [], ◌∷◌, length, replicate, arith}
use sigmod2012contest.Interface.{AttributeType, Attribute}
use sigmod2012contest.Benchmark.KeyData.{source_bytes, read, c_string, write_key, set_key}
use sigmod2012contest.Benchmark.KeyData.RoundTrip.{Agree, set_key-write_key, write_key_beyond}

abbrev columns : List AttributeType
columns = AttributeType.short ∷ AttributeType.varchar ∷ []

abbrev a_key : List Attribute
a_key =
    record { type = AttributeType.short; bytes = 1 ∷ 2 ∷ 3 ∷ 4 ∷ [] }
    ∷ record { type = AttributeType.varchar; bytes = 97 ∷ 98 ∷ 0 ∷ 7 ∷ [] }
    ∷ []

abbrev old_key : List Attribute
old_key =
    record { type = AttributeType.short; bytes = 9 ∷ 9 ∷ 9 ∷ 9 ∷ [] }
    ∷ record { type = AttributeType.varchar; bytes = 120 ∷ 121 ∷ 122 ∷ 0 ∷ [] }
    ∷ []

abbrev array : List ℕ
array = replicate 516 5

set_key-write_key_example :
    (written : List ℕ) × (news : List Attribute) × (write_key columns a_key array ≡ some written)
    × (length written ≡ length array)
    × (set_key written old_key ≡ some news)
    × Agree columns a_key news
unfolding source_bytes read c_string
set_key-write_key_example =
    set_key-write_key columns a_key old_key array
      (
        1 ∷ 2 ∷ 3 ∷ 4 ∷ [],
        (refl, omega arith),
        omega arith,
        refl,
        (97 ∷ 98 ∷ 0 ∷ [], (refl, omega arith), omega arith, refl, tt),
      )
      (omega arith)

abbrev long_key : List Attribute
long_key = record { type = AttributeType.varchar; bytes = replicate 512 97 ++ 0 ∷ [] } ∷ []

write_key_beyond_example : write_key (AttributeType.varchar ∷ []) long_key (replicate 512 5) ≡ none
unfolding source_bytes c_string
write_key_beyond_example =
    write_key_beyond (AttributeType.varchar ∷ []) long_key (replicate 512 5)
      (refl, replicate 512 97 ++ 0 ∷ [], refl, refl) refl
