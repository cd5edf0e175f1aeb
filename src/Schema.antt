-- ===== src/Schema.antt =====
-- IndexSchema of example/index.h and example/index.cc: the layout of an index's keys in Berkeley DB,
-- its open handles and the transactions that have written to it. Each method runs under its mutex,
-- so it is one step. Addresses of objects are numbers.
pub mod RoundTrip
pub mod Wildcards
pub mod Writers
use sigmod2012contest.Base.{
  refl, arith, ◌≡◌, ℕ, ◌+◌, ◌/◌, ◌%◌, zero, suc, Bool, true, false, ◌&&◌, Option, none, some, List,
  [], ◌∷◌, ◌++◌, take, drop, replicate, length, ltb, ◌==◌, if◌then◌else◌,
}
use sigmod2012contest.Containers.AddressSet.{AddressSet, insert, erase}
use sigmod2012contest.Interface.{AttributeType, Attribute, Key}
use sigmod2012contest.Keys.{attribute_size, max_varchar_length}

pub record IndexSchema : Type 0 where
  pub attribute_count : ℕ
  pub type : List AttributeType
  pub size : ℕ
  pub read_only : Bool
  pub handles : AddressSet
  pub transactions : AddressSet

-- The loop of the constructor that sums the sizes up.
unfoldable pub key_size : List AttributeType → ℕ
key_size [] = 0
key_size (t ∷ ts) = attribute_size t + key_size ts

-- IndexSchema::IndexSchema. `type` is an array of at least `attribute_count` entries.
unfoldable pub new_schema : ℕ → List AttributeType → IndexSchema
unfolding key_size
new_schema attribute_count type =
    let types = take attribute_count type in
    record {
      attribute_count = attribute_count;
      type = types;
      size = key_size types;
      read_only = false;
      handles = [];
      transactions = [];
    }

-- The lowest n bytes of a number, little-endian.
unfoldable pub to_bytes : ℕ → ℕ → List ℕ
to_bytes zero u = []
to_bytes (suc n) u = u % 256 ∷ to_bytes n (u / 256)

-- What the buffer of GetBDBKey holds of a wildcard. The last byte of a minimal varchar is not written: it
-- is what the new memory held.
unfoldable pub wildcard : Bool → ℕ → AttributeType → List ℕ
unfolding to_bytes
wildcard true fresh AttributeType.short = to_bytes 4 0x7fffffff
wildcard false fresh AttributeType.short = to_bytes 4 0x80000000
wildcard true fresh AttributeType.int = to_bytes 8 0x7fffffffffffffff
wildcard false fresh AttributeType.int = to_bytes 8 0x8000000000000000
wildcard true fresh AttributeType.varchar = replicate max_varchar_length 127 ++ 0 ∷ []
wildcard false fresh AttributeType.varchar = 0 ∷ replicate 511 127 ++ fresh ∷ []

-- The bytes of one attribute in the key: a wildcard for NULL, or a copy out of the union.
unfoldable pub field : Bool → ℕ → AttributeType → Option Attribute → List ℕ
unfolding wildcard
field max fresh t none = wildcard max fresh t
field max fresh t (some a) = take (attribute_size t) a.bytes

-- The loop of GetBDBKey, on an array of values with an entry for each column: where the array is too
-- short, Index::GetBDBKey does not come here.
unfoldable pub fields : Bool → ℕ → List AttributeType → List (Option Attribute) → List ℕ
unfolding field
fields max fresh [] vs = []
fields max fresh (t ∷ ts) [] = field max fresh t none ++ fields max fresh ts []
fields max fresh (t ∷ ts) (v ∷ vs) = field max fresh t v ++ fields max fresh ts vs

-- IndexSchema::GetBDBKey: the schema's own address in 8 bytes, then the attributes.
unfoldable pub get_bdb_key : ℕ → ℕ → IndexSchema → Key → Bool → List ℕ
unfolding fields to_bytes
get_bdb_key this fresh is key max = to_bytes 8 this ++ fields max fresh is.type key.value

-- The loop of GetKey, from the current offset on.
unfoldable pub read_attributes : List AttributeType → List ℕ → List (Option Attribute)
read_attributes [] p = []
read_attributes (t ∷ ts) p =
    some (record { type = t; bytes = take (attribute_size t) p })
    ∷ read_attributes ts (drop (attribute_size t) p)

-- IndexSchema::GetKey
unfoldable pub get_key : IndexSchema → List ℕ → Key
unfolding read_attributes
get_key is bdb_key = record {
  value = read_attributes is.type (drop 8 bdb_key);
  attribute_count = is.attribute_count;
}

abbrev pub type_eq : AttributeType → AttributeType → Bool
type_eq AttributeType.short AttributeType.short = true
type_eq AttributeType.int AttributeType.int = true
type_eq AttributeType.varchar AttributeType.varchar = true
type_eq _ _ = false

-- The loop of Compatible: a value that is not NULL has the type of its column. `none` is a read beyond
-- the array of values, which is undefined.
unfoldable pub types_match : List AttributeType → List (Option Attribute) → Option Bool
types_match [] vs = some true
types_match (t ∷ ts) [] = none
types_match (t ∷ ts) (none ∷ vs) = types_match ts vs
types_match (t ∷ ts) (some a ∷ vs) =
    let rest = types_match ts vs in if type_eq a.type t then rest else some false

-- IndexSchema::Compatible
unfoldable pub schema_compatible : IndexSchema → Key → Option Bool
unfolding types_match
schema_compatible is key =
    if key.attribute_count == is.attribute_count then types_match is.type key.value else some false

-- Whether an array of values has an entry for each column.
unfoldable pub has_values : List AttributeType → List (Option Attribute) → Bool
has_values [] vs = true
has_values (t ∷ ts) [] = false
has_values (t ∷ ts) (v ∷ vs) = has_values ts vs

types_match-has_values :
    (ts : List AttributeType) (vs : List (Option Attribute))
    → types_match ts vs ≡ some true
    → has_values ts vs ≡ true
unfolding types_match has_values
types_match-has_values [] vs h = refl
types_match-has_values (t ∷ ts) [] h = absurd (ground arith)
types_match-has_values (t ∷ ts) (none ∷ vs) h = types_match-has_values ts vs h
types_match-has_values (t ∷ ts) (some a ∷ vs) h = types_match-has_values ts vs (ground arith)

-- A key that fits has a value for each column.
pub schema_compatible-has_values :
    (is : IndexSchema) (key : Key)
    → schema_compatible is key ≡ some true
    → has_values is.type key.value ≡ true
unfolding schema_compatible
schema_compatible-has_values is key h = types_match-has_values is.type key.value (ground arith)

-- IndexSchema::RegisterHandle, IndexSchema::UnregisterHandle
unfoldable pub register_handle : ℕ → IndexSchema → IndexSchema
register_handle handle is = record is { handles = insert handle is.handles }

unfoldable pub unregister_handle : ℕ → IndexSchema → IndexSchema
unregister_handle handle is = record is { handles = erase handle is.handles }

-- IndexSchema::BeginTransaction, false if the index is read-only.
unfoldable pub begin_transaction : ℕ → IndexSchema → Bool × IndexSchema
begin_transaction tx is =
    if is.read_only
    then (false, is)
    else (true, record is { transactions = insert tx is.transactions })

-- IndexSchema::EndTransaction
unfoldable pub end_transaction : ℕ → IndexSchema → IndexSchema
end_transaction tx is = record is { transactions = erase tx is.transactions }

-- IndexSchema::MakeReadOnly, false if a transaction that has written is not resolved.
unfoldable pub make_read_only : IndexSchema → Bool × IndexSchema
make_read_only is =
    if ltb 0 (length is.transactions) then (false, is) else (true, record is { read_only = true })
