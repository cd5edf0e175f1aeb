-- ===== src/Records/Identity.antt =====
-- RecordCmp of the unit tests gives 0 for the same record only.
use sigmod2012contest.Base.{
  ℕ, ◌≡◌, refl, ap, ◌↔◌, zero, Option, none, some, List, [], ◌∷◌, length, ◌==◌, if◌then◌else◌, ℤ,
  eq_of_parts, arith,
}
use sigmod2012contest.Interface.{AttributeType, Attribute, Block, Record}
use sigmod2012contest.Keys.{
  Sign, negative, zero, positive, is_zero, compare_values, short_value, int_value, strcmp,
  attribute_cmp,
}
use sigmod2012contest.Records.{values_cmp, key_cmp, memcmp, block_cmp, record_cmp}
use sigmod2012contest.Records.Storable.{AreStorable}

-- The characters of a C string, up to its NUL.
unfoldable pub characters : List ℕ → List ℕ
characters [] = []
characters (x ∷ xs) = if x == 0 then [] else x ∷ characters xs

-- Two unions that hold the same value of a type.
abbrev pub SameValue : AttributeType → List ℕ → List ℕ → Type 0
SameValue AttributeType.short a b = short_value a ≡ short_value b
SameValue AttributeType.int a b = int_value a ≡ int_value b
SameValue AttributeType.varchar a b = characters a ≡ characters b

abbrev pub SameValues :
    List AttributeType → List (Option Attribute) → List (Option Attribute) → Type 0
SameValues (t ∷ ts) (some a ∷ vs) (some b ∷ ws) = SameValue t a.bytes b.bytes × SameValues ts vs ws
SameValues _ _ _ = Unit {0}

strcmp_zero_iff : (xs ys : List ℕ) → (strcmp xs ys ≡ zero) ↔ (characters xs ≡ characters ys)
unfolding strcmp characters
strcmp_zero_iff [] [] = (λ _. refl, λ _. refl)
strcmp_zero_iff [] (y ∷ ys) = ground arith
strcmp_zero_iff (x ∷ xs) [] = ground arith
strcmp_zero_iff (x ∷ xs) (y ∷ ys) = ground (arith, strcmp_zero_iff xs ys)

compare_values_zero_iff : (x y : ℤ) → (compare_values x y ≡ zero) ↔ (x ≡ y)
compare_values_zero_iff x y = ground (arith, eq_of_parts x y)

attribute_cmp_zero_iff :
    (t : AttributeType) (a b : List ℕ) → (attribute_cmp t a b ≡ zero) ↔ SameValue t a b
unfolding attribute_cmp
attribute_cmp_zero_iff AttributeType.short a b =
    compare_values_zero_iff (short_value a) (short_value b)
attribute_cmp_zero_iff AttributeType.int a b = compare_values_zero_iff (int_value a) (int_value b)
attribute_cmp_zero_iff AttributeType.varchar a b = strcmp_zero_iff a b

-- One round of the loop: the first difference decides.
first_then_rest :
    {P Q : Type 0} (r s : Sign) (rest : Option Sign)
    → rest ≡ some s
    → (r ≡ zero) ↔ P
    → (s ≡ zero) ↔ Q
    → (u : Sign) × ((if is_zero r then rest else some r) ≡ some u) × ((u ≡ zero) ↔ (P × Q))
first_then_rest negative s rest e p q = (negative, refl, ground arith)
first_then_rest zero s rest e p q = (s, e, (λ h. (p.0 refl, q.0 h), λ h. q.1 h.1))
first_then_rest positive s rest e p q = (positive, refl, ground arith)

-- No assert fails, and the result is 0 on the same values only.
values_cmp_iff :
    (ts : List AttributeType) (vs ws : List (Option Attribute))
    → AreStorable ts vs
    → AreStorable ts ws
    → (s : Sign) × (values_cmp (length ts) vs ws ≡ some s) × ((s ≡ zero) ↔ SameValues ts vs ws)
unfolding values_cmp
values_cmp_iff [] vs ws h k = (zero, refl, (λ _. tt, λ _. refl))
values_cmp_iff (t ∷ ts) [] ws h k = absurd h
values_cmp_iff (t ∷ ts) (none ∷ vs) ws h k = absurd h
values_cmp_iff (t ∷ ts) (some a ∷ vs) [] h k = absurd k
values_cmp_iff (t ∷ ts) (some a ∷ vs) (none ∷ ws) h k = absurd k
values_cmp_iff (t ∷ ts) (some a ∷ vs) (some b ∷ ws) h k =
    let (s, e, rest) = values_cmp_iff ts vs ws h.2 k.2 in
    first_then_rest (attribute_cmp a.type a.bytes b.bytes) s (values_cmp (length ts) vs ws) e
      (rw h.0 (attribute_cmp_zero_iff t a.bytes b.bytes)) rest

memcmp_zero_iff :
    (xs ys : List ℕ) → length xs ≡ length ys → (memcmp (length xs) xs ys ≡ zero) ↔ (xs ≡ ys)
unfolding memcmp
memcmp_zero_iff [] [] h = (λ _. refl, λ _. refl)
memcmp_zero_iff [] (y ∷ ys) h = absurd (omega arith)
memcmp_zero_iff (x ∷ xs) [] h = absurd (omega arith)
memcmp_zero_iff (x ∷ xs) (y ∷ ys) h = ground (arith, memcmp_zero_iff xs ys)

block_cmp_zero_iff : (a b : Block) → (block_cmp a b ≡ zero) ↔ (a.bytes ≡ b.bytes)
unfolding block_cmp
block_cmp_zero_iff a b =
    let same_length : a.bytes ≡ b.bytes → length a.bytes ≡ length b.bytes = λ e. ap length e in
    ground (arith, memcmp_zero_iff a.bytes b.bytes)

-- RecordCmp of two records whose keys are complete and of the same types, texts NUL-terminated inside
-- their field, fails no assert, and returns 0 exactly if the keys have the same values and the
-- payloads the same bytes.
pub record_cmp_iff :
    (ts : List AttributeType) (a b : Record)
    → a.key.attribute_count ≡ length ts
    → b.key.attribute_count ≡ length ts
    → AreStorable ts a.key.value
    → AreStorable ts b.key.value
    → (s : Sign) × (record_cmp a b ≡ some s)
      × ((s ≡ zero) ↔ (SameValues ts a.key.value b.key.value × (a.payload.bytes ≡ b.payload.bytes)))
unfolding record_cmp key_cmp
record_cmp_iff ts a b m n h k =
    let (s, e, same) = values_cmp_iff ts a.key.value b.key.value h k in
    let (u, eq, iff) =
      first_then_rest s (block_cmp a.payload b.payload) (some (block_cmp a.payload b.payload)) refl
        same (block_cmp_zero_iff a.payload b.payload) in
    (u, ground arith, iff)
