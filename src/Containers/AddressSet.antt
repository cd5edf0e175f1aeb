-- ===== src/Containers/AddressSet.antt =====
-- std::set<T*>: addresses in ascending order, each once.
use sigmod2012contest.Base.{
  ◌≤◌, ◌<◌, length, ℕ, ◌≡◌, refl, Bool, false, not, ◌&&◌, ◌||◌, List, [], ◌∷◌, arith, ltb, ◌==◌,
  if◌then◌else◌,
}

abbrev pub AddressSet : Type 0
AddressSet = List ℕ

unfoldable pub mem : ℕ → AddressSet → Bool
mem x [] = false
mem x (y ∷ ys) = x == y || mem x ys

unfoldable pub insert : ℕ → AddressSet → AddressSet
insert x [] = x ∷ []
insert x (y ∷ ys) = if x == y then y ∷ ys else if ltb x y then x ∷ y ∷ ys else y ∷ insert x ys

unfoldable pub erase : ℕ → AddressSet → AddressSet
erase x [] = []
erase x (y ∷ ys) = if x == y then erase x ys else y ∷ erase x ys

pub mem-insert : (x y : ℕ) (s : AddressSet) → mem y (insert x s) ≡ (y == x || mem y s)
unfolding mem insert
mem-insert x y [] = refl
mem-insert x y (z ∷ s) = ground (arith, mem-insert x y s)

pub mem-erase : (x y : ℕ) (s : AddressSet) → mem y (erase x s) ≡ (not (y == x) && mem y s)
unfolding mem erase
mem-erase x y [] = ground arith
mem-erase x y (z ∷ s) = ground (arith, mem-erase x y s)

pub mem_nil : (x : ℕ) → mem x [] ≡ false
unfolding mem
mem_nil x = refl

pub mem_cons : (x y : ℕ) (s : AddressSet) → mem x (y ∷ s) ≡ (x == y || mem x s)
unfolding mem
mem_cons x y s = refl

pub length-erase-le : (x : ℕ) (s : AddressSet) → length (erase x s) ≤ length s
unfolding erase
length-erase-le x [] = omega arith
length-erase-le x (y ∷ s) = ground (arith, length-erase-le x s)

pub erase_head-lt : (x : ℕ) (s : AddressSet) → length (erase x (x ∷ s)) < length (x ∷ s)
unfolding erase
erase_head-lt x s = ground (arith, length-erase-le x s)
