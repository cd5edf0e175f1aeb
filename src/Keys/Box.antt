-- ===== src/Keys/Box.antt =====
-- KeyCmp with `full`: the test of a key range, attribute by attribute.
use sigmod2012contest.Base.{ℕ, ◌≡◌, refl, ◌≢◌, ◌↔◌, false, true, false, List, [], ◌∷◌, drop, arith}
use sigmod2012contest.Interface.{AttributeType}
use sigmod2012contest.Keys.{zero, positive, attribute_cmp, attribute_size, key_cmp_loop, key_cmp}
use sigmod2012contest.Keys.Order.{key_cmp_preorder}

-- Every attribute at a is at most the attribute at b.
abbrev pub AllAtMost : List AttributeType → List ℕ → List ℕ → Type 0
AllAtMost [] a b = Unit {0}
AllAtMost (t ∷ ts) a b =
    (attribute_cmp t a b ≢ positive)
    × AllAtMost ts (drop (attribute_size t) a) (drop (attribute_size t) b)

loop_full_iff :
    (ts : List AttributeType) (a b : List ℕ) → (key_cmp_loop ts a b true ≡ zero) ↔ AllAtMost ts a b
unfolding key_cmp_loop
loop_full_iff [] a b = (λ _. tt, λ _. refl)
loop_full_iff (t ∷ ts) a b =
    let n = attribute_size t in ground (arith, loop_full_iff ts (drop n a) (drop n b))

loop_full_zero-or-positive :
    (ts : List AttributeType) (a b : List ℕ)
    → key_cmp_loop ts a b true ≢ zero
    → key_cmp_loop ts a b true ≡ positive
unfolding key_cmp_loop
loop_full_zero-or-positive [] a b h = absurd (h refl)
loop_full_zero-or-positive (t ∷ ts) a b h =
    let n = attribute_size t in ground (arith, loop_full_zero-or-positive ts (drop n a) (drop n b))

loop_ne_positive_of_full :
    (ts : List AttributeType) (a b : List ℕ)
    → key_cmp_loop ts a b true ≡ zero
    → key_cmp_loop ts a b false ≢ positive
unfolding key_cmp_loop
loop_ne_positive_of_full [] a b h = λ e. cc
loop_ne_positive_of_full (t ∷ ts) a b h =
    let n = attribute_size t in ground (arith, loop_ne_positive_of_full ts (drop n a) (drop n b))

-- With `full`, KeyCmp returns 0 exactly when each attribute of the first key is smaller than or equal
-- to that of the second, and 1 in every other case.
pub key_cmp_full :
    (ts : List AttributeType) (a b : List ℕ)
    → ((key_cmp ts a b true ≡ zero) ↔ AllAtMost ts (drop 8 a) (drop 8 b))
      × (key_cmp ts a b true ≢ zero → key_cmp ts a b true ≡ positive)
unfolding key_cmp
key_cmp_full ts a b = (loop_full_iff ts _ _, loop_full_zero-or-positive ts _ _)

-- A key inside the box is not beyond its upper corner in the order of the b-tree.
pub key_cmp-ne_positive_of_full :
    (ts : List AttributeType) (a b : List ℕ)
    → key_cmp ts a b true ≡ zero
    → key_cmp ts a b false ≢ positive
unfolding key_cmp
key_cmp-ne_positive_of_full ts a b = loop_ne_positive_of_full ts (drop 8 a) (drop 8 b)

-- Once a key is beyond `m`, no key that follows it in the order is inside the box below `m`.
pub beyond_stays_beyond :
    (ts : List AttributeType) (k l m : List ℕ)
    → key_cmp ts k l false ≢ positive
    → key_cmp ts k m false ≡ positive
    → (key_cmp ts l m false ≡ positive) × (key_cmp ts l m true ≢ zero)
beyond_stays_beyond ts k l m after beyond =
    ground (arith, (key_cmp_preorder ts k l m).1, key_cmp-ne_positive_of_full ts l m)
