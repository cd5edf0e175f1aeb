-- ===== src/Tests/Keys.antt =====
-- Keys of two columns, and of a column of texts, as in the files Keys and Schema.
use sigmod2012contest.Base.{
  ℕ, ◌≡◌, refl, ◌↔◌, inl, inr, true, false, Option, none, some, List, [], ◌∷◌, replicate, arith,
}
use sigmod2012contest.Interface.{AttributeType, Attribute, Key}
use sigmod2012contest.Keys.{zero, key_cmp}
use sigmod2012contest.Keys.Order.{flip, Agree, key_cmp_preorder}
use sigmod2012contest.Schema.{IndexSchema, new_schema, get_bdb_key, get_key}
use sigmod2012contest.Schema.RoundTrip.{get_key-get_bdb_key}
use sigmod2012contest.Schema.Wildcards.{AboveLower, BelowUpper, range_test_iff}
use sigmod2012contest.Tests.Shelf.{columns, pair}

abbrev mixed : List AttributeType
mixed = AttributeType.int ∷ AttributeType.varchar ∷ []

abbrev mixed_schema : IndexSchema
mixed_schema = new_schema 2 mixed

abbrev text : ℕ → List ℕ
text c = c ∷ 0 ∷ replicate 511 7

abbrev int_of : ℕ → Option Attribute
int_of n = some (record { type = AttributeType.int; bytes = n ∷ replicate 7 0 })

abbrev text_of : ℕ → Option Attribute
text_of c = some (record { type = AttributeType.varchar; bytes = text c })

abbrev key_of : List (Option Attribute) → Key
key_of vs = record { value = vs; attribute_count = 2 }

abbrev stored_key : Key
stored_key = key_of (int_of 5 ∷ text_of 98 ∷ [])

abbrev lower_key : Key
lower_key = key_of (none ∷ text_of 97 ∷ [])

abbrev upper_key : Key
upper_key = key_of (int_of 9 ∷ none ∷ [])

range_test_iff_example :
    let stored = get_bdb_key 4096 1 mixed_schema stored_key false in
    ((key_cmp mixed (get_bdb_key 4096 1 mixed_schema lower_key false) stored true ≡ zero)
      × (key_cmp mixed stored (get_bdb_key 4096 1 mixed_schema upper_key true) true ≡ zero))
    ↔ (AboveLower mixed lower_key.value stored_key.value
        × BelowUpper mixed stored_key.value upper_key.value)
unfolding new_schema
range_test_iff_example =
    range_test_iff 4096 1 mixed_schema lower_key stored_key upper_key
      ((refl, inr (ground arith, inl refl)), tt) (refl, ((refl, inr (ground arith, inl refl)), tt))
      (refl, tt) tt

get_key-get_bdb_key_example :
    get_key mixed_schema (get_bdb_key 4096 1 mixed_schema stored_key false) ≡ stored_key
unfolding new_schema
get_key-get_bdb_key_example =
    get_key-get_bdb_key 4096 1 mixed_schema stored_key false refl (refl, refl, (refl, refl, tt)) tt

key_cmp_preorder_example :
    (key_cmp columns (pair 2 3) (pair 1 5) false
      ≡ flip (key_cmp columns (pair 1 5) (pair 2 3) false))
    × Agree
        (key_cmp columns (pair 1 5) (pair 2 3) false)
        (key_cmp columns (pair 2 3) (pair 3 4) false)
        (key_cmp columns (pair 1 5) (pair 3 4) false)
key_cmp_preorder_example = key_cmp_preorder columns (pair 1 5) (pair 2 3) (pair 3 4)
