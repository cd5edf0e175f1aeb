-- ===== src/Keys/Order.antt =====
-- KeyCmp without `full` is a total preorder, the one that the b-tree needs.
use sigmod2012contest.Base.{ℕ, ◌≡◌, refl, false, List, [], ◌∷◌, drop, arith, ℤ}
use sigmod2012contest.Interface.{AttributeType}
use sigmod2012contest.Keys.{
  Sign, negative, zero, positive, compare_values, short_value, int_value, strcmp, attribute_cmp,
  attribute_size, key_cmp_loop, key_cmp,
}

abbrev pub flip : Sign → Sign
flip negative = positive
flip zero = zero
flip positive = negative

-- What the signs of a against b and of b against c say of the sign of a against c.
abbrev pub Agree : Sign → Sign → Sign → Type 0
Agree zero t u = u ≡ t
Agree negative positive u = Unit {0}
Agree negative t u = u ≡ negative
Agree positive negative u = Unit {0}
Agree positive t u = u ≡ positive

compare_values-flip : (x y : ℤ) → compare_values y x ≡ flip (compare_values x y)
compare_values-flip x y = ground arith

compare_values-Agree :
    (x y z : ℤ) → Agree (compare_values x y) (compare_values y z) (compare_values x z)
compare_values-Agree x y z = ground arith

strcmp-flip : (xs ys : List ℕ) → strcmp ys xs ≡ flip (strcmp xs ys)
unfolding strcmp
strcmp-flip [] [] = refl
strcmp-flip [] (y ∷ ys) = ground arith
strcmp-flip (x ∷ xs) [] = ground arith
strcmp-flip (x ∷ xs) (y ∷ ys) = ground (arith, strcmp-flip xs ys)

strcmp-Agree : (xs ys zs : List ℕ) → Agree (strcmp xs ys) (strcmp ys zs) (strcmp xs zs)
unfolding strcmp
strcmp-Agree [] [] [] = refl
strcmp-Agree [] [] (z ∷ zs) = ground arith
strcmp-Agree [] (y ∷ ys) [] = ground arith
strcmp-Agree [] (y ∷ ys) (z ∷ zs) = ground arith
strcmp-Agree (x ∷ xs) [] [] = ground arith
strcmp-Agree (x ∷ xs) [] (z ∷ zs) = ground arith
strcmp-Agree (x ∷ xs) (y ∷ ys) [] = ground arith
strcmp-Agree (x ∷ xs) (y ∷ ys) (z ∷ zs) = ground (arith, strcmp-Agree xs ys zs)

pub attribute_cmp-flip :
    (t : AttributeType) (a b : List ℕ) → attribute_cmp t b a ≡ flip (attribute_cmp t a b)
unfolding attribute_cmp
attribute_cmp-flip AttributeType.short a b = compare_values-flip (short_value a) (short_value b)
attribute_cmp-flip AttributeType.int a b = compare_values-flip (int_value a) (int_value b)
attribute_cmp-flip AttributeType.varchar a b = strcmp-flip a b

pub attribute_cmp-Agree :
    (t : AttributeType) (a b c : List ℕ)
    → Agree (attribute_cmp t a b) (attribute_cmp t b c) (attribute_cmp t a c)
unfolding attribute_cmp
attribute_cmp-Agree AttributeType.short a b c =
    compare_values-Agree (short_value a) (short_value b) (short_value c)
attribute_cmp-Agree AttributeType.int a b c =
    compare_values-Agree (int_value a) (int_value b) (int_value c)
attribute_cmp-Agree AttributeType.varchar a b c = strcmp-Agree a b c

key_cmp_loop-flip :
    (ts : List AttributeType) (a b : List ℕ)
    → key_cmp_loop ts b a false ≡ flip (key_cmp_loop ts a b false)
unfolding key_cmp_loop
key_cmp_loop-flip [] a b = refl
key_cmp_loop-flip (t ∷ ts) a b = ground (
  arith,
  attribute_cmp-flip t a b,
  key_cmp_loop-flip ts (drop (attribute_size t) a) (drop (attribute_size t) b),
)

key_cmp_loop-Agree :
    (ts : List AttributeType) (a b c : List ℕ)
    → Agree (key_cmp_loop ts a b false) (key_cmp_loop ts b c false) (key_cmp_loop ts a c false)
unfolding key_cmp_loop
key_cmp_loop-Agree [] a b c = refl
key_cmp_loop-Agree (t ∷ ts) a b c =
    let n = attribute_size t in
    ground
      (arith, attribute_cmp-Agree t a b c, key_cmp_loop-Agree ts (drop n a) (drop n b) (drop n c))

-- The comparison of the b-tree is a total preorder on keys of any schema: two keys compare
-- oppositely when they are swapped, and the signs of a against b and of b against c determine the
-- sign of a against c wherever a transitive order determines it.
pub key_cmp_preorder :
    (ts : List AttributeType) (a b c : List ℕ)
    → (key_cmp ts b a false ≡ flip (key_cmp ts a b false))
      × Agree (key_cmp ts a b false) (key_cmp ts b c false) (key_cmp ts a c false)
unfolding key_cmp
key_cmp_preorder ts a b c = (key_cmp_loop-flip ts _ _, key_cmp_loop-Agree ts _ _ _)
