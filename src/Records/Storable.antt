-- ===== src/Records/Storable.antt =====
-- Keys that an index can store: complete, of its types, with texts that end inside their field.
use sigmod2012contest.Base.{
  ℕ, ◌+◌, ◌≤◌, ◌≡◌, refl, ◌⊎◌, suc, Option, none, some, List, [], ◌∷◌, ◌++◌, take, length, arith,
}
use sigmod2012contest.Interface.{AttributeType, Attribute}
use sigmod2012contest.Keys.{
  attribute_size, attribute_cmp, strcmp, short_value, int_value, max_varchar_length,
}

-- A NUL within the first n bytes.
abbrev pub Ends : ℕ → List ℕ → Type 0
Ends ℕ.zero bs = ⊥
Ends (suc n) [] = ⊥
Ends (suc n) (b ∷ bs) = (b ≡ 0) ⊎ Ends n bs

-- The bytes of a union that holds a value of the type.
abbrev pub IsStorable : AttributeType → List ℕ → Type 0
IsStorable AttributeType.short bs = 4 ≤ length bs
IsStorable AttributeType.int bs = 8 ≤ length bs
IsStorable AttributeType.varchar bs =
    (max_varchar_length + 1 ≤ length bs) × Ends (max_varchar_length + 1) bs

abbrev pub AreStorable : List AttributeType → List (Option Attribute) → Type 0
AreStorable [] [] = Unit {0}
AreStorable [] (v ∷ vs) = ⊥
AreStorable (t ∷ ts) [] = ⊥
AreStorable (t ∷ ts) (none ∷ vs) = ⊥
AreStorable (t ∷ ts) (some a ∷ vs) = (a.type ≡ t) × IsStorable t a.bytes × AreStorable ts vs

pub IsStorable-length :
    (t : AttributeType) (bs : List ℕ) → IsStorable t bs → attribute_size t ≤ length bs
IsStorable-length AttributeType.short bs h = h
IsStorable-length AttributeType.int bs h = h
IsStorable-length AttributeType.varchar bs h = h.0

-- A prefix of a prefix that something follows.
take_within : (n : ℕ) (bs r : List ℕ) → n ≤ length bs → take n (take n bs ++ r) ≡ take n bs
take_within ℕ.zero bs r h = refl
take_within (suc n) [] r h = absurd (omega arith)
take_within (suc n) (b ∷ bs) r h = ground (arith, take_within n bs r)

-- strcmp reads neither string beyond its NUL.
strcmp_within :
    (n : ℕ) (xs ys r s : List ℕ)
    → Ends n xs
    → Ends n ys
    → strcmp (take n xs ++ r) (take n ys ++ s) ≡ strcmp xs ys
unfolding strcmp
strcmp_within ℕ.zero xs ys r s h k = absurd h
strcmp_within (suc n) [] ys r s h k = absurd h
strcmp_within (suc n) (x ∷ xs) [] r s h k = absurd k
strcmp_within (suc n) (x ∷ xs) (y ∷ ys) r s h k = ground (arith, strcmp_within n xs ys r s)

-- The copies of two attributes in their fields compare as the attributes do.
pub attribute_cmp_within :
    (t : AttributeType) (a b r s : List ℕ)
    → IsStorable t a
    → IsStorable t b
    → let n = attribute_size t in
      attribute_cmp t (take n a ++ r) (take n b ++ s) ≡ attribute_cmp t a b
unfolding attribute_cmp short_value int_value
attribute_cmp_within AttributeType.short a b r s h k =
    rw (take_within 4 a r h, take_within 4 b s k) refl
attribute_cmp_within AttributeType.int a b r s h k =
    rw (take_within 8 a r h, take_within 8 b s k) refl
attribute_cmp_within AttributeType.varchar a b r s h k =
    strcmp_within (max_varchar_length + 1) a b r s h.1 k.1
