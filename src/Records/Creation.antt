-- ===== src/Records/Creation.antt =====
-- CreateRecordBasic of the unit tests and RecordCmp: what is compared is what the records were made
-- of, and not what their memory held before.
use sigmod2012contest.Base.{
  ℕ, ◌+◌, ◌≤◌, ◌<◌, ◌≡◌, refl, sym, ap, ◌∙◌, ◌≢◌, ◌↔◌, zero, suc, Option, some, List, [], ◌∷◌, ◌++◌,
  drop, length, length-append, length-drop, All, ℤ, pos, negsuc, arith, inl, inr,
}
use sigmod2012contest.Interface.{AttributeType, Record}
use sigmod2012contest.Keys.{Sign, zero, short_value, int_value, little_endian, max_varchar_length}
use sigmod2012contest.Schema.{to_bytes}
use sigmod2012contest.Records.{
  create_record_basic, short_attribute, int_attribute, varchar_attribute, set_value, record_cmp,
}
use sigmod2012contest.Records.Storable.{IsStorable, AreStorable, Ends}
use sigmod2012contest.Records.Identity.{characters, SameValues, record_cmp_iff}

-- The integers of a width.
abbrev pub InRange : ℕ → ℤ → Type 0
InRange half (pos n) = n < half
InRange half (negsuc n) = n < half

-- Characters before the NUL.
abbrev pub IsString : List ℕ → Type 0
IsString s = All (λ c. c ≢ 0) s

-- The arguments of CreateRecordBasic.
pub record Arguments : Type 0 where
  pub attribute_1 : ℤ
  pub attribute_2 : ℤ
  pub attribute_3 : List ℕ
  pub payload : List ℕ

abbrev pub create : (ℕ → List ℕ) → Arguments → Option Record
create fresh x = create_record_basic fresh x.attribute_1 x.attribute_2 x.attribute_3 x.payload

-- An int32_t, an int64_t and two C strings, the first of which fits a varchar.
pub record AreAllowed (x : Arguments) : Type 0 where
  pub first : InRange 0x80000000 x.attribute_1
  pub second : InRange 0x8000000000000000 x.attribute_2
  pub third : IsString x.attribute_3
  pub third_fits : length x.attribute_3 ≤ max_varchar_length
  pub payload : IsString x.payload

pub short_value-short_attribute :
    (fresh : List ℕ) (v : ℤ)
    → InRange 0x80000000 v
    → short_value (short_attribute fresh v).bytes ≡ v
unfolding short_value short_attribute to_bytes little_endian
short_value-short_attribute fresh (pos n) h = ground arith
short_value-short_attribute fresh (negsuc n) h = ground arith

pub int_value-int_attribute :
    (fresh : List ℕ) (v : ℤ)
    → InRange 0x8000000000000000 v
    → int_value (int_attribute fresh v).bytes ≡ v
unfolding int_value int_attribute to_bytes little_endian
int_value-int_attribute fresh (pos n) h = ground arith
int_value-int_attribute fresh (negsuc n) h = ground arith

pub characters-append : (s r : List ℕ) → IsString s → characters (s ++ 0 ∷ r) ≡ s
unfolding characters
characters-append [] r h = refl
characters-append (c ∷ s) r h = ground (arith, characters-append s r h.1)

Ends-append : (n : ℕ) (s r : List ℕ) → length s ≤ n → Ends (suc n) (s ++ 0 ∷ r)
Ends-append n [] r h = inl refl
Ends-append ℕ.zero (c ∷ s) r h = absurd (omega arith)
Ends-append (suc n) (c ∷ s) r h = inr (Ends-append n s r (omega arith))

-- The record that CreateRecordBasic makes.
abbrev made : (ℕ → List ℕ) → Arguments → Record
made fresh x = record {
  key = record {
    value =
        some (short_attribute (fresh 0) x.attribute_1)
        ∷ some (int_attribute (fresh 1) x.attribute_2)
        ∷ some (record {
          type = AttributeType.varchar;
          bytes = x.attribute_3 ++ 0 ∷ drop (suc (length x.attribute_3)) (fresh 2);
        })
        ∷ [];
    attribute_count = 3;
  };
  payload = set_value x.payload;
}

create-made :
    (fresh : ℕ → List ℕ) (x : Arguments) → AreAllowed x → create fresh x ≡ some (made fresh x)
unfolding create_record_basic varchar_attribute
create-made fresh x ok = ground (arith, ok.third_fits)

abbrev basic_types : List AttributeType
basic_types = AttributeType.short ∷ AttributeType.int ∷ AttributeType.varchar ∷ []

-- Every attribute is allocated with its whole union.
abbrev pub HasRoom : (ℕ → List ℕ) → Type 0
HasRoom fresh = (i : ℕ) → max_varchar_length + 1 ≤ length (fresh i)

pub short_attribute-IsStorable :
    (fresh : List ℕ) (v : ℤ) → IsStorable AttributeType.short (short_attribute fresh v).bytes
unfolding short_attribute to_bytes
short_attribute-IsStorable fresh v = omega arith

pub int_attribute-IsStorable :
    (fresh : List ℕ) (v : ℤ) → IsStorable AttributeType.int (int_attribute fresh v).bytes
unfolding int_attribute to_bytes
int_attribute-IsStorable fresh v = omega arith

pub text-IsStorable :
    (fresh s : List ℕ)
    → max_varchar_length + 1 ≤ length fresh
    → length s ≤ max_varchar_length
    → IsStorable AttributeType.varchar (s ++ 0 ∷ drop (suc (length s)) fresh)
text-IsStorable fresh s room fits =
    let n = suc (length s) in
    let inside : n ≤ length fresh = omega arith in
    (
      omega (arith, length-append s (0 ∷ drop n fresh), length-drop n fresh inside),
      Ends-append max_varchar_length s (drop n fresh) fits,
    )

made-AreStorable :
    (fresh : ℕ → List ℕ) (x : Arguments)
    → HasRoom fresh
    → AreAllowed x
    → AreStorable basic_types (made fresh x).key.value
unfolding short_attribute int_attribute
made-AreStorable fresh x room ok = (
  refl,
  short_attribute-IsStorable (fresh 0) x.attribute_1,
  (
    refl,
    int_attribute-IsStorable (fresh 1) x.attribute_2,
    (refl, text-IsStorable (fresh 2) x.attribute_3 (room 2) ok.third_fits, tt),
  ),
)

set_value_injective :
    (s t : List ℕ) → IsString s → IsString t → (set_value s).bytes ≡ (set_value t).bytes → s ≡ t
unfolding set_value
set_value_injective s t h k e =
    sym (characters-append s [] h) ∙ ap characters e ∙ characters-append t [] k

SameValues-made :
    (fresh fresh' : ℕ → List ℕ) (x y : Arguments)
    → AreAllowed x
    → AreAllowed y
    → SameValues basic_types (made fresh x).key.value (made fresh' y).key.value
        × ((made fresh x).payload.bytes ≡ (made fresh' y).payload.bytes)
      ↔ (x ≡ y)
SameValues-made fresh fresh' x y h k =
    let r = drop (suc (length x.attribute_3)) (fresh 2) in
    let r' = drop (suc (length y.attribute_3)) (fresh' 2) in
    rw
      (
        short_value-short_attribute (fresh 0) x.attribute_1 h.first,
        short_value-short_attribute (fresh' 0) y.attribute_1 k.first,
        int_value-int_attribute (fresh 1) x.attribute_2 h.second,
        int_value-int_attribute (fresh' 1) y.attribute_2 k.second,
        characters-append x.attribute_3 r h.third,
        characters-append y.attribute_3 r' k.third,
      )
      (
        (λ e. ground (arith, set_value_injective x.payload y.payload h.payload k.payload e.1)),
        (λ e. (
          (
            ap (λ (a : Arguments). a.attribute_1) e,
            (
              ap (λ (a : Arguments). a.attribute_2) e,
              (ap (λ (a : Arguments). a.attribute_3) e, tt),
            ),
          ),
          ap (λ (a : Arguments). (set_value a.payload).bytes) e,
        )),
      )

-- RecordCmp of two records that CreateRecordBasic has made, of integers in their range and of C
-- strings of which the first fits a varchar, returns 0 exactly if both were made of the same
-- arguments, whatever the memory of their attributes held before.
pub record_cmp-create_record_basic :
    (fresh fresh' : ℕ → List ℕ) (x y : Arguments)
    → HasRoom fresh
    → HasRoom fresh'
    → AreAllowed x
    → AreAllowed y
    → (a : Record) × (b : Record) × (create fresh x ≡ some a)
      × (create fresh' y ≡ some b)
      × (s : Sign) × (record_cmp a b ≡ some s)
      × ((s ≡ zero) ↔ (x ≡ y))
record_cmp-create_record_basic fresh fresh' x y room room' h k =
    let a = made fresh x in
    let b = made fresh' y in
    let (s, e, (f, g)) =
      record_cmp_iff basic_types a b refl refl (made-AreStorable fresh x room h)
        (made-AreStorable fresh' y room' k) in
    let (p, q) = SameValues-made fresh fresh' x y h k in
    (
      a,
      b,
      create-made fresh x h,
      create-made fresh' y k,
      s,
      e,
      ((λ z. p (f z)), (λ same. g (q same))),
    )
