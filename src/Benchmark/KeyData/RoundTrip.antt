-- ===== src/Benchmark/KeyData/RoundTrip.antt =====
-- What a benchmark gets back of the keys in its key store.
use sigmod2012contest.Base.{
  length-take, length-drop, ℕ, ◌+◌, ◌≤◌, ◌≡◌, refl, sym, ap, ◌∙◌, none, some, List, [], ◌∷◌, ◌++◌,
  take, drop, length, length-append, drop_all-append, arith,
}
use sigmod2012contest.Interface.{AttributeType, Attribute}
use sigmod2012contest.Keys.{max_varchar_length}
use sigmod2012contest.Benchmark.Properties.{attribute_bytes}
use sigmod2012contest.Benchmark.KeyData.{source_bytes, write_key, set_key}
use sigmod2012contest.Benchmark.KeyData.Bytes.{
  put_lem, put_beyond, source_bytes-append, take-append,
}

-- The bytes that `key_size` counts for these columns.
abbrev pub places : List AttributeType → ℕ
places [] = 0
places (t ∷ ts) = attribute_bytes t + places ts

-- The value of a column, whose bytes are `s`, fits its place.
abbrev pub IsStored : AttributeType → Attribute → List ℕ → Type 0
IsStored t a s = (source_bytes t a.bytes ≡ some s) × (length s ≤ attribute_bytes t)

-- Each value fits its place, and the attribute at its index in another key has the type of the
-- column and room for the value.
abbrev pub Fit : List AttributeType → List Attribute → List Attribute → Type 0
Fit [] [] [] = Unit {0}
Fit (t ∷ ts) (a ∷ values) (o ∷ olds) =
    (s : List ℕ) × IsStored t a s × (length s ≤ length o.bytes) × (o.type ≡ t) × Fit ts values olds
Fit _ _ _ = ⊥

-- Two keys of these columns agree: each number, and each string up to its NUL.
abbrev pub Agree : List AttributeType → List Attribute → List Attribute → Type 0
Agree [] [] [] = Unit {0}
Agree (t ∷ ts) (a ∷ values) (o ∷ others) =
    (o.type ≡ t) × (source_bytes t o.bytes ≡ source_bytes t a.bytes) × Agree ts values others
Agree _ _ _ = ⊥

-- The array after a value was put into its place.
after_put :
    (s buffer : List ℕ)
    → length s ≤ length buffer
    → length (s ++ drop (length s) buffer) ≡ length buffer
after_put s buffer h =
    omega (arith, length-append s (drop (length s) buffer), length-drop (length s) buffer h)

abbrev IsRecalled : List AttributeType → List Attribute → List Attribute → List ℕ → Type 0
IsRecalled ts values olds buffer =
    (written : List ℕ) × (news : List Attribute) × (write_key ts values buffer ≡ some written)
    × (length written ≡ length buffer)
    × (set_key written olds ≡ some news)
    × Agree ts values news

recall_next :
    (t : AttributeType) (ts : List AttributeType) (a o : Attribute) (values olds : List Attribute)
    (buffer s : List ℕ)
    → IsStored t a s
    → length s ≤ length o.bytes
    → o.type ≡ t
    → attribute_bytes t ≤ length buffer
    → IsRecalled ts values olds (drop (attribute_bytes t) (s ++ drop (length s) buffer))
    → IsRecalled (t ∷ ts) (a ∷ values) (o ∷ olds) buffer
unfolding write_key set_key
recall_next t ts a o values olds buffer s (e, fits) room same h
      (written, news, wrote, size, set, agree) =
    let w = attribute_bytes t in
    let d = s ++ drop (length s) buffer in
    let kept : length d ≡ length buffer = after_put s buffer (omega arith) in
    let place : length (take w d) ≡ w = length-take w d (omega arith) in
    let (y, split) = take-append s (drop (length s) buffer) written w fits in
    let copied : source_bytes t (take w d ++ written) ≡ some s =
      rw split (source_bytes-append t a.bytes s y e) in
    let bytes = s ++ drop (length s) o.bytes in
    (
      take w d ++ written,
      record { type = o.type; bytes = bytes } ∷ news,
      rw (e, put_lem s buffer (omega arith), wrote) refl,
      omega (arith, length-append (take w d) written, length-drop w d (omega arith)),
      rw same (
          rw (copied, put_lem s o.bytes room, drop_all-append (take w d) written w place, set)
            refl),
      (same, source_bytes-append t a.bytes s (drop (length s) o.bytes) e ∙ sym e, agree),
    )

-- SetKey gives back the key that the insertions have written into `data`: for every key whose
-- values fit their places, and an array that is at least as long as the places together, nothing is
-- read or written out of bounds, and the key that SetKey sets, in which the attributes have the types
-- of the columns and room for the values, agrees with the first one in every number and string.
pub set_key-write_key :
    (ts : List AttributeType) (values olds : List Attribute) (buffer : List ℕ)
    → Fit ts values olds
    → places ts ≤ length buffer
    → (written : List ℕ) × (news : List Attribute) × (write_key ts values buffer ≡ some written)
      × (length written ≡ length buffer)
      × (set_key written olds ≡ some news)
      × Agree ts values news
unfolding write_key set_key
set_key-write_key [] [] [] buffer h room = (buffer, [], refl, refl, refl, tt)
set_key-write_key [] (a ∷ values) olds buffer h room = absurd h
set_key-write_key [] [] (o ∷ olds) buffer h room = absurd h
set_key-write_key (t ∷ ts) [] olds buffer h room = absurd h
set_key-write_key (t ∷ ts) (a ∷ values) [] buffer h room = absurd h
set_key-write_key (t ∷ ts) (a ∷ values) (o ∷ olds) buffer (s, stores, holds, same, h) room =
    let d = s ++ drop (length s) buffer in
    let kept : length d ≡ length buffer = after_put s buffer (omega (arith, stores.1)) in
    recall_next t ts a o values olds buffer s stores holds same (omega arith) (
      set_key-write_key ts values olds (drop (attribute_bytes t) d) h
        (omega (arith, length-drop (attribute_bytes t) d (omega arith))))

-- A key of which the last column is a string of MAX_VARCHAR_LENGTH characters, and any other value
-- fits its place.
abbrev pub FullLast : List AttributeType → List Attribute → Type 0
FullLast [] values = ⊥
FullLast (t ∷ ts) [] = ⊥
FullLast (t ∷ []) (a ∷ values) =
    (t ≡ AttributeType.varchar)
    × (s : List ℕ) × (source_bytes t a.bytes ≡ some s)
    × (length s ≡ max_varchar_length + 1)
FullLast (t ∷ t' ∷ ts) (a ∷ values) = (s : List ℕ) × IsStored t a s × FullLast (t' ∷ ts) values

-- If the last column of a key is a string of MAX_VARCHAR_LENGTH characters, and the other values
-- fit their places, then its NUL is written beyond an array of `key_size` bytes.
pub write_key_beyond :
    (ts : List AttributeType) (values : List Attribute) (buffer : List ℕ)
    → FullLast ts values
    → length buffer ≡ places ts
    → write_key ts values buffer ≡ none
unfolding write_key
write_key_beyond [] values buffer full h = absurd full
write_key_beyond (t ∷ []) [] buffer full h = absurd full
write_key_beyond (t ∷ t' ∷ ts) [] buffer full h = absurd full
write_key_beyond (t ∷ []) (a ∷ values) buffer (same, s, e, full) h =
    let place : attribute_bytes t ≡ 512 = ap attribute_bytes same in
    rw (e, put_beyond s buffer (omega arith)) refl
write_key_beyond (t ∷ t' ∷ ts) (a ∷ values) buffer (s, stores, rest) h =
    let d = s ++ drop (length s) buffer in
    let fits = stores.1 in
    let kept : length d ≡ length buffer = after_put s buffer (omega arith) in
    rw
      (
        stores.0,
        put_lem s buffer (omega arith),
        write_key_beyond (t' ∷ ts) values (drop (attribute_bytes t) d) rest
            (omega (arith, length-drop (attribute_bytes t) d (omega arith))),
      )
      refl
