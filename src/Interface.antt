-- ===== src/Interface.antt =====
-- The types of include/contest_interface.h: status codes, flags, attributes, keys and records.
use sigmod2012contest.Base.{ℕ, Bool, Option, List, ◌==◌, ◌%◌, ◌/◌}

-- Only the differences between the codes are used, so they are an enumeration.
pub data ErrorCode : Type 0 where
  ok transaction_aborted error_out_of_memory error_deadlock error_index_exists : ErrorCode
  error_unknown_index error_iterator_closed error_not_found error_transaction_closed : ErrorCode
  error_incompatible_key error_open_transactions error_generic_failure : ErrorCode

-- `flags & kMatchDuplicates` and `flags & kIgnorePayload`, of a uint8_t.
unfoldable pub match_duplicates : ℕ → Bool
match_duplicates flags = flags % 2 == 1

unfoldable pub ignore_payload : ℕ → Bool
ignore_payload flags = flags / 2 % 2 == 1

pub data AttributeType : Type 0 where
  short int varchar : AttributeType

-- The union of an attribute is its bytes, from the lowest address; a byte is a number below 256.
pub record Attribute : Type 0 where
  pub type : AttributeType
  pub bytes : List ℕ

-- `value` is an array of pointers; `none` is NULL, a wildcard.
pub record Key : Type 0 where
  pub value : List (Option Attribute)
  pub attribute_count : ℕ

pub record Block : Type 0 where
  pub bytes : List ℕ

pub record Record : Type 0 where
  pub key : Key
  pub payload : Block
