-- ===== src/Records/Agreement.antt =====
-- The comparison of keys in the unit tests is the order of the b-tree on the keys that the example
-- implementation stores.
use sigmod2012contest.Base.{
  ℕ, ◌≡◌, refl, Bool, false, Option, none, some, List, [], ◌∷◌, take, length, length-take,
  drop_all-append, arith,
}
use sigmod2012contest.Interface.{AttributeType, Attribute, Key}
use sigmod2012contest.Keys
use sigmod2012contest.Schema.{IndexSchema, to_bytes, field, fields, get_bdb_key}
use sigmod2012contest.Schema.RoundTrip.{to_bytes-eight}
use sigmod2012contest.Records.{values_cmp, key_cmp}
use sigmod2012contest.Records.Storable.{AreStorable, IsStorable-length, attribute_cmp_within}

loops_agree :
    (max max' : Bool) (fresh fresh' : ℕ) (ts : List AttributeType) (vs ws : List (Option Attribute))
    → AreStorable ts vs
    → AreStorable ts ws
    → values_cmp (length ts) vs ws
      ≡ some (Keys.key_cmp_loop ts (fields max fresh ts vs) (fields max' fresh' ts ws) false)
unfolding values_cmp Keys.key_cmp_loop fields field
loops_agree max max' fresh fresh' [] vs ws h k = refl
loops_agree max max' fresh fresh' (t ∷ ts) [] ws h k = absurd h
loops_agree max max' fresh fresh' (t ∷ ts) (none ∷ vs) ws h k = absurd h
loops_agree max max' fresh fresh' (t ∷ ts) (some a ∷ vs) [] h k = absurd k
loops_agree max max' fresh fresh' (t ∷ ts) (some a ∷ vs) (none ∷ ws) h k = absurd k
loops_agree max max' fresh fresh' (t ∷ ts) (some a ∷ vs) (some b ∷ ws) h k =
    let n = Keys.attribute_size t in
    let r = fields max fresh ts vs in
    let s = fields max' fresh' ts ws in
    rw
      (
        drop_all-append (take n a.bytes) r n
            (length-take n a.bytes (IsStorable-length t a.bytes h.1)),
        drop_all-append (take n b.bytes) s n
            (length-take n b.bytes (IsStorable-length t b.bytes k.1)),
        attribute_cmp_within t a.bytes b.bytes r s h.1 k.1,
        h.0,
      )
      (ground (arith, loops_agree max max' fresh fresh' ts vs ws h.2 k.2))

-- On complete keys of the columns of an index, texts NUL-terminated inside their field, the KeyCmp of
-- the unit tests gives the sign that the KeyCmp of the b-tree gives on the stored forms of the keys.
pub key_cmp-get_bdb_key :
    (this fresh fresh' : ℕ) (is : IndexSchema) (a b : Key) (max max' : Bool)
    → a.attribute_count ≡ length is.type
    → b.attribute_count ≡ length is.type
    → AreStorable is.type a.value
    → AreStorable is.type b.value
    → key_cmp a b
      ≡ some (
          Keys.key_cmp is.type
            (get_bdb_key this fresh is a max)
            (get_bdb_key this fresh' is b max')
            false)
unfolding key_cmp get_bdb_key Keys.key_cmp
key_cmp-get_bdb_key this fresh fresh' is a b max max' m n h k =
    rw
      (
        drop_all-append (to_bytes 8 this) (fields max fresh is.type a.value) 8
            (to_bytes-eight this),
        drop_all-append (to_bytes 8 this) (fields max' fresh' is.type b.value) 8
            (to_bytes-eight this),
        m,
        n,
      )
      (ground (arith, loops_agree max max' fresh fresh' is.type a.value b.value h k))
