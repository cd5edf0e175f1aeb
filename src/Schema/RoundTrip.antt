-- ===== src/Schema/RoundTrip.antt =====
-- Keys keep their values on the way into Berkeley DB and back, and fill their buffer exactly.
use sigmod2012contest.Base.{
  ℕ, ◌≡◌, refl, Bool, true, false, Option, none, some, List, [], ◌∷◌, length, length-append,
  take_all, take_all-append, drop_all-append, arith,
}
use sigmod2012contest.Interface.{AttributeType, Attribute, Key}
use sigmod2012contest.Keys.{attribute_size}
use sigmod2012contest.Schema.{
  IndexSchema, key_size, to_bytes, wildcard, field, fields, get_bdb_key, read_attributes, get_key,
}

-- Values that fit the columns, each with its whole union; NULLs are allowed.
abbrev pub Fits : List AttributeType → List (Option Attribute) → Type 0
Fits [] [] = Unit {0}
Fits [] (v ∷ vs) = ⊥
Fits (t ∷ ts) [] = ⊥
Fits (t ∷ ts) (none ∷ vs) = Fits ts vs
Fits (t ∷ ts) (some a ∷ vs) = (a.type ≡ t) × (length a.bytes ≡ attribute_size t) × Fits ts vs

-- Values of which none is NULL.
abbrev pub IsComplete : List (Option Attribute) → Type 0
IsComplete [] = Unit {0}
IsComplete (none ∷ vs) = ⊥
IsComplete (some a ∷ vs) = IsComplete vs

pub length-wildcard :
    (max : Bool) (fresh : ℕ) (t : AttributeType) → length (wildcard max fresh t) ≡ attribute_size t
unfolding wildcard
length-wildcard true fresh AttributeType.short = refl
length-wildcard true fresh AttributeType.int = refl
length-wildcard true fresh AttributeType.varchar = refl
length-wildcard false fresh AttributeType.short = refl
length-wildcard false fresh AttributeType.int = refl
length-wildcard false fresh AttributeType.varchar = refl

pub length-field :
    (max : Bool) (fresh : ℕ) (t : AttributeType) (a : Attribute)
    → length a.bytes ≡ attribute_size t
    → length (field max fresh t (some a)) ≡ attribute_size t
unfolding field
length-field max fresh t a h = rw (take_all a.bytes (attribute_size t) h) h

pub length-fields :
    (max : Bool) (fresh : ℕ) (ts : List AttributeType) (vs : List (Option Attribute))
    → Fits ts vs
    → length (fields max fresh ts vs) ≡ key_size ts
unfolding fields key_size
length-fields max fresh [] [] h = refl
length-fields max fresh [] (v ∷ vs) h = absurd h
length-fields max fresh (t ∷ ts) [] h = absurd h
length-fields max fresh (t ∷ ts) (none ∷ vs) h = omega (
  arith,
  length-append (wildcard max fresh t) (fields max fresh ts vs),
  length-wildcard max fresh t,
  length-fields max fresh ts vs h,
)
length-fields max fresh (t ∷ ts) (some a ∷ vs) h = omega (
  arith,
  length-append (field max fresh t (some a)) (fields max fresh ts vs),
  length-field max fresh t a h.1,
  length-fields max fresh ts vs h.2,
)

pub to_bytes-eight : (u : ℕ) → length (to_bytes 8 u) ≡ 8
unfolding to_bytes
to_bytes-eight u = refl

read-fields :
    (max : Bool) (fresh : ℕ) (ts : List AttributeType) (vs : List (Option Attribute))
    → Fits ts vs
    → IsComplete vs
    → read_attributes ts (fields max fresh ts vs) ≡ vs
unfolding fields read_attributes
read-fields max fresh [] [] h c = refl
read-fields max fresh [] (v ∷ vs) h c = absurd h
read-fields max fresh (t ∷ ts) [] h c = absurd h
read-fields max fresh (t ∷ ts) (none ∷ vs) h c = absurd c
read-fields max fresh (t ∷ ts) (some a ∷ vs) h c =
    let n = attribute_size t in
    let bytes = field max fresh t (some a) in
    let rest = fields max fresh ts vs in
    rw
      (
        take_all-append bytes rest n (length-field max fresh t a h.1),
        drop_all-append bytes rest n (length-field max fresh t a h.1),
        read-fields max fresh ts vs h.2 c,
      )
      (ground (arith, take_all a.bytes n h.1))

-- GetKey gives back the key that GetBDBKey has converted: of every complete key that fits the
-- columns of the schema, the values, their types and their number.
pub get_key-get_bdb_key :
    (this fresh : ℕ) (is : IndexSchema) (key : Key) (max : Bool)
    → key.attribute_count ≡ is.attribute_count
    → Fits is.type key.value
    → IsComplete key.value
    → get_key is (get_bdb_key this fresh is key max) ≡ key
unfolding get_key get_bdb_key
get_key-get_bdb_key this fresh is key max n h c =
    rw
      (
        drop_all-append (to_bytes 8 this) (fields max fresh is.type key.value) 8
            (to_bytes-eight this),
        read-fields max fresh is.type key.value h c,
      )
      (ground arith)
