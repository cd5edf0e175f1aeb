-- ===== src/Tests/Records.antt =====
-- Records of the BasicTest, as in the file Records.
use sigmod2012contest.Base.{
  ℕ, ◌≡◌, refl, ◌↔◌, arith, false, true, Option, some, List, [], ◌∷◌, length-replicate, replicate,
  ℤ, negsuc, inl, inr,
}
use sigmod2012contest.Interface.{AttributeType, Record, Attribute}
use sigmod2012contest.Keys
use sigmod2012contest.Schema.{new_schema, get_bdb_key}
use sigmod2012contest.Records.{key_cmp, record_cmp}
use sigmod2012contest.Records.{
  create_record_partial_match, create_record_range, create_record_isolation,
  create_record_auto_commit, create_record_bulk, create_record_error_handling,
}
use sigmod2012contest.Records.Kinds.{
  IsRecordOf, of_short, of_int, of_text, create_records-IsRecordOf,
}
use sigmod2012contest.Records.Storable.{AreStorable}
use sigmod2012contest.Records.Agreement.{key_cmp-get_bdb_key}
use sigmod2012contest.Records.Identity.{SameValues, record_cmp_iff}
use sigmod2012contest.Records.Creation.{
  Arguments, AreAllowed, HasRoom, create, record_cmp-create_record_basic,
}

-- What the memory of new attributes holds.
abbrev garbage : ℕ → ℕ → List ℕ
garbage c i = replicate 520 c

garbage-HasRoom : (c : ℕ) → HasRoom (garbage c)
garbage-HasRoom c i = omega (arith, length-replicate 520 c)

abbrev arguments : ℤ → Arguments
arguments n = record {
  attribute_1 = n;
  attribute_2 = negsuc 1;
  attribute_3 = 97 ∷ [];
  payload = 82 ∷ [];
}

arguments-AreAllowed : AreAllowed (arguments (negsuc 4))
arguments-AreAllowed = record {
  first = omega arith;
  second = omega arith;
  third = ((λ e. absurd (omega arith)), tt);
  third_fits = omega arith;
  payload = ((λ e. absurd (omega arith)), tt);
}

record_cmp-create_record_basic_example :
    (a : Record) × (b : Record) × (create (garbage 1) (arguments (negsuc 4)) ≡ some a)
    × (create (garbage 2) (arguments (negsuc 4)) ≡ some b)
    × (s : Keys.Sign) × (record_cmp a b ≡ some s)
    × ((s ≡ Keys.zero) ↔ (arguments (negsuc 4) ≡ arguments (negsuc 4)))
record_cmp-create_record_basic_example =
    record_cmp-create_record_basic (garbage 1) (garbage 2) (arguments (negsuc 4))
      (arguments (negsuc 4)) (garbage-HasRoom 1) (garbage-HasRoom 2) arguments-AreAllowed
      arguments-AreAllowed

abbrev mixed : List AttributeType
mixed = AttributeType.short ∷ AttributeType.varchar ∷ []

abbrev short_of : ℕ → Option Attribute
short_of n = some (record { type = AttributeType.short; bytes = n ∷ 0 ∷ 0 ∷ 0 ∷ 9 ∷ [] })

abbrev text_of : ℕ → Option Attribute
text_of c = some (record { type = AttributeType.varchar; bytes = c ∷ 0 ∷ replicate 511 7 })

abbrev record_of : ℕ → ℕ → Record
record_of n c = record {
  key = record { value = short_of n ∷ text_of c ∷ []; attribute_count = 2 };
  payload = record { bytes = 82 ∷ 0 ∷ [] };
}

record_of-AreStorable : (n c : ℕ) → AreStorable mixed (record_of n c).key.value
record_of-AreStorable n c = (refl, omega arith, (refl, (omega arith, inr (inl refl)), tt))

key_cmp-get_bdb_key_example :
    let is = new_schema 2 mixed in
    key_cmp (record_of 3 97).key (record_of 3 98).key
    ≡ some (
        Keys.key_cmp is.type
          (get_bdb_key 4096 1 is (record_of 3 97).key false)
          (get_bdb_key 4096 2 is (record_of 3 98).key true)
          false)
unfolding new_schema
key_cmp-get_bdb_key_example =
    key_cmp-get_bdb_key 4096 1 2 (new_schema 2 mixed) (record_of 3 97).key (record_of 3 98).key
      false true refl refl (record_of-AreStorable 3 97) (record_of-AreStorable 3 98)

record_cmp_iff_example :
    (s : Keys.Sign) × (record_cmp (record_of 3 97) (record_of 3 98) ≡ some s)
    × ((s ≡ Keys.zero) ↔ (
        SameValues mixed (record_of 3 97).key.value (record_of 3 98).key.value
        × ((record_of 3 97).payload.bytes ≡ (record_of 3 98).payload.bytes)))
record_cmp_iff_example =
    record_cmp_iff mixed (record_of 3 97) (record_of 3 98) refl refl (record_of-AreStorable 3 97)
      (record_of-AreStorable 3 98)

create_records-IsRecordOf_example :
    IsRecordOf
      (of_short (negsuc 0) ∷ of_short (negsuc 1) ∷ of_short (negsuc 2) ∷ [])
      (82 ∷ [])
      (create_record_partial_match (garbage 1) (negsuc 0) (negsuc 1) (negsuc 2) (82 ∷ []))
    × ((r : Record) × (create_record_range (garbage 1) (negsuc 0) (97 ∷ []) (negsuc 3) (82 ∷ [])
          ≡ some r)
        × IsRecordOf (of_short (negsuc 0) ∷ of_text (97 ∷ []) ∷ of_int (negsuc 3) ∷ []) (82 ∷ []) r)
    × IsRecordOf
        (of_int (negsuc 3) ∷ [])
        (82 ∷ [])
        (create_record_isolation (garbage 1 0) (negsuc 3) (82 ∷ []))
    × IsRecordOf
        (of_short (negsuc 0) ∷ [])
        (82 ∷ [])
        (create_record_auto_commit (garbage 1 0) (negsuc 0) (82 ∷ []))
    × IsRecordOf
        (of_short (negsuc 0) ∷ [])
        (82 ∷ [])
        (create_record_bulk (garbage 1 0) (negsuc 0) (82 ∷ []))
    × IsRecordOf
        (of_short (negsuc 0) ∷ [])
        (82 ∷ [])
        (create_record_error_handling (garbage 1 0) (negsuc 0) (82 ∷ []))
create_records-IsRecordOf_example =
    create_records-IsRecordOf (garbage 1) (negsuc 0) (negsuc 1) (negsuc 2) (negsuc 3) (97 ∷ [])
      (82 ∷ []) (omega arith) (omega arith) (omega arith) (omega arith)
      (((λ e. absurd (omega arith)), tt), omega arith) ((λ e. absurd (omega arith)), tt)
