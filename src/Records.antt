-- ===== src/Records.antt =====
-- The records of the unit tests, unittests/util.h and unittests/util.cc: how they are made and
-- compared. Memory is not exhausted, `fresh` tells what the memory of each new attribute held, and a
-- C string is the list of its characters, without the NUL. The asserts are compiled in. A block is
-- shorter than 2 ^ 31 bytes, so that its size is an int.
pub mod Storable
pub mod Kinds
pub mod Identity
pub mod Agreement
pub mod Creation
use mathlib.Core.Option
use sigmod2012contest.Base.{
  ℕ, ◌-◌, ◌*◌, suc, zero, Option, none, some, List, [], ◌∷◌, ◌++◌, drop, length, ltb, leb, ◌==◌,
  if◌then◌else◌, ℤ, pos, negsuc,
}
use sigmod2012contest.Interface.{AttributeType, Attribute, Key, Block, Record}
use sigmod2012contest.Keys.{
  Sign, negative, zero, positive, is_zero, attribute_cmp, max_varchar_length,
}
use sigmod2012contest.Schema.{to_bytes}

-- The bit pattern of an integer in two's complement; `half` is 2 ^ 31 or 2 ^ 63.
abbrev pub pattern : ℕ → ℤ → ℕ
pattern half (pos n) = n
pattern half (negsuc n) = 2 * half - 1 - n

-- ShortAttribute, IntAttribute: the rest of the union keeps what its memory held.
unfoldable pub short_attribute : List ℕ → ℤ → Attribute
unfolding to_bytes
short_attribute fresh value = record {
  type = AttributeType.short;
  bytes = to_bytes 4 (pattern 0x80000000 value) ++ drop 4 fresh;
}

unfoldable pub int_attribute : List ℕ → ℤ → Attribute
unfolding to_bytes
int_attribute fresh value = record {
  type = AttributeType.int;
  bytes = to_bytes 8 (pattern 0x8000000000000000 value) ++ drop 8 fresh;
}

-- VarcharAttribute; `none` is a strcpy beyond the array `char_value`.
unfoldable pub varchar_attribute : List ℕ → List ℕ → Option Attribute
varchar_attribute fresh value =
    if leb (length value) max_varchar_length
    then some (record {
      type = AttributeType.varchar;
      bytes = value ++ 0 ∷ drop (suc (length value)) fresh;
    })
    else none

-- SetValue, on a new block: the characters and the NUL.
unfoldable pub set_value : List ℕ → Block
set_value value = record { bytes = value ++ 0 ∷ [] }

-- CreateRecordBasic
unfoldable pub create_record_basic : (ℕ → List ℕ) → ℤ → ℤ → List ℕ → List ℕ → Option Record
unfolding short_attribute int_attribute varchar_attribute set_value
create_record_basic fresh attribute_1 attribute_2 attribute_3 payload =
    Option.map
      (λ a2. record {
        key = record {
          value =
              some (short_attribute (fresh 0) attribute_1)
              ∷ some (int_attribute (fresh 1) attribute_2)
              ∷ some a2
              ∷ [];
          attribute_count = 3;
        };
        payload = set_value payload;
      })
      (varchar_attribute (fresh 2) attribute_3)

-- CreateRecordPartialMatch
unfoldable pub create_record_partial_match : (ℕ → List ℕ) → ℤ → ℤ → ℤ → List ℕ → Record
unfolding short_attribute set_value
create_record_partial_match fresh attribute_1 attribute_2 attribute_3 payload = record {
  key = record {
    value =
        some (short_attribute (fresh 0) attribute_1)
        ∷ some (short_attribute (fresh 1) attribute_2)
        ∷ some (short_attribute (fresh 2) attribute_3)
        ∷ [];
    attribute_count = 3;
  };
  payload = set_value payload;
}

-- CreateRecordRange
unfoldable pub create_record_range : (ℕ → List ℕ) → ℤ → List ℕ → ℤ → List ℕ → Option Record
unfolding short_attribute int_attribute varchar_attribute set_value
create_record_range fresh attribute_1 attribute_2 attribute_3 payload =
    Option.map
      (λ a1. record {
        key = record {
          value =
              some (short_attribute (fresh 0) attribute_1)
              ∷ some a1
              ∷ some (int_attribute (fresh 2) attribute_3)
              ∷ [];
          attribute_count = 3;
        };
        payload = set_value payload;
      })
      (varchar_attribute (fresh 1) attribute_2)

-- CreateRecordIsolation
unfoldable pub create_record_isolation : List ℕ → ℤ → List ℕ → Record
unfolding int_attribute set_value
create_record_isolation fresh attribute_1 payload = record {
  key = record { value = some (int_attribute fresh attribute_1) ∷ []; attribute_count = 1 };
  payload = set_value payload;
}

-- CreateRecordAutoCommit; CreateRecordBulk and CreateRecordErrorHandling call it.
unfoldable pub create_record_auto_commit : List ℕ → ℤ → List ℕ → Record
unfolding short_attribute set_value
create_record_auto_commit fresh attribute_1 payload = record {
  key = record { value = some (short_attribute fresh attribute_1) ∷ []; attribute_count = 1 };
  payload = set_value payload;
}

abbrev pub create_record_bulk : List ℕ → ℤ → List ℕ → Record
create_record_bulk = create_record_auto_commit

abbrev pub create_record_error_handling : List ℕ → ℤ → List ℕ → Record
create_record_error_handling = create_record_auto_commit

-- The loop of KeyCmp over the attributes that are left; its `switch`, on the type of the first key,
-- is that of the example's KeyCmp. `none` is a failed assert, or a read beyond an array.
unfoldable pub values_cmp : ℕ → List (Option Attribute) → List (Option Attribute) → Option Sign
values_cmp ℕ.zero vs ws = some zero
values_cmp (suc n) (some a ∷ vs) (some b ∷ ws) =
    let rest = values_cmp n vs ws in
    let r = attribute_cmp a.type a.bytes b.bytes in if is_zero r then rest else some r
values_cmp (suc n) _ _ = none

-- The sign of x - y, and the two tests of BlockCmp.
abbrev pub compare_sizes : ℕ → ℕ → Sign
compare_sizes x y = if ltb x y then negative else if ltb y x then positive else zero

-- KeyCmp
unfoldable pub key_cmp : Key → Key → Option Sign
unfolding values_cmp
key_cmp a b =
    if a.attribute_count == b.attribute_count
    then values_cmp a.attribute_count a.value b.value
    else some (compare_sizes a.attribute_count b.attribute_count)

-- memcmp of the C library, which compares unsigned bytes. Both arrays have the bytes that it reads.
unfoldable pub memcmp : ℕ → List ℕ → List ℕ → Sign
memcmp (suc n) (x ∷ xs) (y ∷ ys) =
    if x == y then memcmp n xs ys else if ltb x y then negative else positive
memcmp _ _ _ = zero

-- BlockCmp
unfoldable pub block_cmp : Block → Block → Sign
unfolding memcmp
block_cmp a b =
    let a_size = length a.bytes in
    let b_size = length b.bytes in
    let min_size = if ltb a_size b_size then a_size else b_size in
    let r = memcmp min_size a.bytes b.bytes in if is_zero r then compare_sizes a_size b_size else r

-- RecordCmp, once the keys are compared.
abbrev pub payload_next : Block → Block → Sign → Sign
payload_next a b r = if is_zero r then block_cmp a b else r

-- RecordCmp
unfoldable pub record_cmp : Record → Record → Option Sign
unfolding key_cmp block_cmp
record_cmp a b = Option.map (payload_next a.payload b.payload) (key_cmp a.key b.key)
