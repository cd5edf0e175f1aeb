-- ===== src/Records/Kinds.antt =====
-- What is read from the records that the other unit tests make.
use mathlib.Core.Option
use sigmod2012contest.Base.{
  ℕ, ◌≤◌, ◌≡◌, refl, ap, some, List, [], ◌∷◌, ◌++◌, map, suc, drop, length, ℤ, arith,
}
use sigmod2012contest.Interface.{AttributeType, Attribute, Record}
use sigmod2012contest.Keys.{max_varchar_length, short_value, int_value}
use sigmod2012contest.Records.{
  short_attribute, int_attribute, varchar_attribute, set_value, create_record_partial_match,
  create_record_range, create_record_isolation, create_record_auto_commit, create_record_bulk,
  create_record_error_handling,
}
use sigmod2012contest.Records.Identity.{characters}
use sigmod2012contest.Records.Creation.{
  InRange, IsString, short_value-short_attribute, int_value-int_attribute, characters-append,
}

-- What an attribute stands for.
pub data Value : Type 0 where
  of_short of_int : ℤ → Value
  of_text : List ℕ → Value

abbrev value_as : AttributeType → List ℕ → Value
value_as AttributeType.short bytes = of_short (short_value bytes)
value_as AttributeType.int bytes = of_int (int_value bytes)
value_as AttributeType.varchar bytes = of_text (characters bytes)

abbrev pub attribute_value : Attribute → Value
attribute_value a = value_as a.type a.bytes

abbrev IsAllowed : Value → Type 0
IsAllowed (of_short v) = InRange 0x80000000 v
IsAllowed (of_int v) = InRange 0x8000000000000000 v
IsAllowed (of_text s) = IsString s × (length s ≤ max_varchar_length)

-- The record has these values for its columns, none of them NULL, and this payload.
abbrev pub IsRecordOf : List Value → List ℕ → Record → Type 0
IsRecordOf vs payload r =
    (r.key.attribute_count ≡ length vs)
    × (map (Option.map attribute_value) r.key.value ≡ map some vs)
    × (characters r.payload.bytes ≡ payload)

short_read :
    (fresh : List ℕ) (v : ℤ)
    → IsAllowed (of_short v)
    → attribute_value (short_attribute fresh v) ≡ of_short v
unfolding short_attribute
short_read fresh v h = ap of_short (short_value-short_attribute fresh v h)

int_read :
    (fresh : List ℕ) (v : ℤ)
    → IsAllowed (of_int v)
    → attribute_value (int_attribute fresh v) ≡ of_int v
unfolding int_attribute
int_read fresh v h = ap of_int (int_value-int_attribute fresh v h)

text_read :
    (fresh s : List ℕ)
    → IsAllowed (of_text s)
    → (a : Attribute) × (varchar_attribute fresh s ≡ some a) × (attribute_value a ≡ of_text s)
unfolding varchar_attribute
text_read fresh s h =
    let rest = drop (suc (length s)) fresh in
    (
      record { type = AttributeType.varchar; bytes = s ++ 0 ∷ rest },
      ground (arith, h.1),
      ap of_text (characters-append s rest h.0),
    )

payload_read : (s : List ℕ) → IsString s → characters (set_value s).bytes ≡ s
unfolding set_value
payload_read s h = characters-append s [] h

-- The functions that make the records of the PartialMatchTest, the RangeTest, the IsolationTest, the
-- AutoCommitTest, the BulkTest and the ErrorHandlingTest, on integers that fit their columns and C
-- strings, the text of the RangeTest being short enough for a varchar: the values and the payload that
-- are read from the record are the arguments, each in its own column, whatever the memory held.
pub create_records-IsRecordOf :
    (fresh : ℕ → List ℕ) (a b c n : ℤ) (s payload : List ℕ)
    → IsAllowed (of_short a)
    → IsAllowed (of_short b)
    → IsAllowed (of_short c)
    → IsAllowed (of_int n)
    → IsAllowed (of_text s)
    → IsString payload
    → IsRecordOf
        (of_short a ∷ of_short b ∷ of_short c ∷ [])
        payload
        (create_record_partial_match fresh a b c payload)
      × ((r : Record) × (create_record_range fresh a s n payload ≡ some r)
          × IsRecordOf (of_short a ∷ of_text s ∷ of_int n ∷ []) payload r)
      × IsRecordOf (of_int n ∷ []) payload (create_record_isolation (fresh 0) n payload)
      × IsRecordOf (of_short a ∷ []) payload (create_record_auto_commit (fresh 0) a payload)
      × IsRecordOf (of_short a ∷ []) payload (create_record_bulk (fresh 0) a payload)
      × IsRecordOf (of_short a ∷ []) payload (create_record_error_handling (fresh 0) a payload)
unfolding create_record_partial_match create_record_range create_record_isolation
    create_record_auto_commit
create_records-IsRecordOf fresh a b c n s payload ha hb hc hn hs hp =
    let read = payload_read payload hp in
    let (text, made, as_text) = text_read (fresh 1) s hs in
    let alone : IsRecordOf (of_short a ∷ []) payload
        (create_record_auto_commit (fresh 0) a payload) =
      (refl, rw (short_read (fresh 0) a ha) refl, read) in
    (
      (
        refl,
        rw (short_read (fresh 0) a ha, short_read (fresh 1) b hb, short_read (fresh 2) c hc) refl,
        read,
      ),
      (
        record {
          key = record {
            value =
                some (short_attribute (fresh 0) a)
                ∷ some text
                ∷ some (int_attribute (fresh 2) n)
                ∷ [];
            attribute_count = 3;
          };
          payload = set_value payload;
        },
        rw made refl,
        (refl, rw (short_read (fresh 0) a ha, as_text, int_read (fresh 2) n hn) refl, read),
      ),
      (refl, rw (int_read (fresh 0) n hn) refl, read),
      alone,
      alone,
      alone,
    )
