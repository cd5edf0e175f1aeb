-- ===== src/Keys.antt =====
-- The comparison of keys, example/util.cc. A pointer into a key is the list of the bytes from there
-- on. Integers are little-endian and chars are compared as unsigned chars, as on the x86-64 machines
-- that the Makefile builds for. Of an int that is a comparison's result the callers use the sign.
pub mod Order
pub mod Box
use sigmod2012contest.Base.{
  ℕ, ◌+◌, ◌-◌, ◌*◌, Bool, true, false, not, ◌&&◌, List, [], ◌∷◌, take, drop, ltb, ◌==◌,
  if◌then◌else◌, ℤ, pos, negsuc, ltb_ℤ,
}
use sigmod2012contest.Interface.{AttributeType}

pub data Sign : Type 0 where
  negative zero positive : Sign

abbrev pub is_zero : Sign → Bool
is_zero zero = true
is_zero _ = false

abbrev pub is_positive : Sign → Bool
is_positive positive = true
is_positive _ = false

-- The number that little-endian bytes stand for.
unfoldable pub little_endian : List ℕ → ℕ
little_endian [] = 0
little_endian (b ∷ bs) = b + 256 * little_endian bs

-- Two's complement: a pattern from `half` on is negative.
abbrev pub signed : ℕ → ℕ → ℤ
signed half u = if ltb u half then pos u else negsuc (2 * half - 1 - u)

-- `short_value` and `int_value` of the union at a pointer.
unfoldable pub short_value : List ℕ → ℤ
short_value p = signed 0x80000000 (little_endian (take 4 p))

unfoldable pub int_value : List ℕ → ℤ
int_value p = signed 0x8000000000000000 (little_endian (take 8 p))

-- `if(x < y) result = -1; else if (x > y) result = 1;` after `result = 0`.
abbrev pub compare_values : ℤ → ℤ → Sign
compare_values x y = if ltb_ℤ x y then negative else if ltb_ℤ y x then positive else zero

-- strcmp of the C library. The end of a buffer is read as a NUL; keys hold a NUL before it.
unfoldable pub strcmp : List ℕ → List ℕ → Sign
strcmp [] [] = zero
strcmp [] (y ∷ ys) = if y == 0 then zero else negative
strcmp (x ∷ xs) [] = if x == 0 then zero else positive
strcmp (x ∷ xs) (y ∷ ys) =
    if x == y then if x == 0 then zero else strcmp xs ys else if ltb x y then negative else positive

abbrev pub max_varchar_length : ℕ
max_varchar_length = 512

-- The bytes that an attribute takes in a key.
abbrev pub attribute_size : AttributeType → ℕ
attribute_size AttributeType.short = 4
attribute_size AttributeType.int = 8
attribute_size AttributeType.varchar = max_varchar_length + 1

-- The `switch` of KeyCmp.
unfoldable pub attribute_cmp : AttributeType → List ℕ → List ℕ → Sign
attribute_cmp AttributeType.short av bv = compare_values (short_value av) (short_value bv)
attribute_cmp AttributeType.int av bv = compare_values (int_value av) (int_value bv)
attribute_cmp AttributeType.varchar av bv = strcmp av bv

-- The loop of KeyCmp over the attributes that are left, with the two pointers.
unfoldable pub key_cmp_loop : List AttributeType → List ℕ → List ℕ → Bool → Sign
key_cmp_loop [] ak bk full = zero
key_cmp_loop (t ∷ ts) ak bk full =
    let result = attribute_cmp t ak bk in
    let rest = key_cmp_loop ts (drop (attribute_size t) ak) (drop (attribute_size t) bk) full in
    if not full && not (is_zero result)
    then result
    else if full && is_positive result
    then positive
    else rest

-- KeyCmp: the first 8 bytes of a key hold the address of its schema and are skipped.
unfoldable pub key_cmp : List AttributeType → List ℕ → List ℕ → Bool → Sign
unfolding key_cmp_loop
key_cmp types a b full = key_cmp_loop types (drop 8 a) (drop 8 b) full
