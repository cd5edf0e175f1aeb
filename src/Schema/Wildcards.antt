-- ===== src/Schema/Wildcards.antt =====
-- Keys with NULL attributes as the corners of a range: what GetBDBKey writes for NULL bounds every
-- value of its column, so the range test leaves that column free.
use sigmod2012contest.Base.{
  ℕ, ◌+◌, ◌≤◌, suc, ◌≡◌, refl, sym, ◌∙◌, ◌≢◌, ◌↔◌, ◌⊎◌, inl, inr, Bool, true, false, Option, none,
  some, List, [], ◌∷◌, ◌++◌, replicate, length, take_all, take_all-append, drop_all-append, arith,
}
use sigmod2012contest.Interface.{AttributeType, Attribute, Key}
use sigmod2012contest.Keys.{
  zero, positive, attribute_size, attribute_cmp, strcmp, short_value, int_value, little_endian,
  key_cmp,
}
use sigmod2012contest.Keys.Box.{AllAtMost, key_cmp_full}
use sigmod2012contest.Schema.{IndexSchema, to_bytes, wildcard, field, fields, get_bdb_key}
use sigmod2012contest.Schema.RoundTrip.{IsComplete, length-wildcard}

-- A NUL-terminated text of 7-bit characters.
abbrev pub IsAscii : List ℕ → Type 0
IsAscii [] = ⊥
IsAscii (b ∷ bs) = (b ≡ 0) ⊎ ((b ≤ 127) × IsAscii bs)

strcmp_local :
    (xs r ys s : List ℕ) → IsAscii xs → IsAscii ys → strcmp (xs ++ r) (ys ++ s) ≡ strcmp xs ys
unfolding strcmp
strcmp_local [] r ys s h k = absurd h
strcmp_local (x ∷ xs) r [] s h k = absurd k
strcmp_local (x ∷ xs) r (y ∷ ys) s h k = ground (arith, strcmp_local xs r ys s)

strcmp_max :
    (n : ℕ) (xs s : List ℕ)
    → IsAscii xs
    → length xs ≤ n + 1
    → strcmp xs (replicate n 127 ++ 0 ∷ s) ≢ positive
unfolding strcmp
strcmp_max n [] s h l = absurd h
strcmp_max ℕ.zero (x ∷ []) s (inl e) l = ground arith
strcmp_max ℕ.zero (x ∷ []) s (inr h) l = absurd h.1
strcmp_max ℕ.zero (x ∷ y ∷ xs) s h l = absurd (omega arith)
strcmp_max (suc n) (x ∷ xs) s h l = ground (arith, strcmp_max n xs s)

short_min :
    (r p : List ℕ) (fresh : ℕ)
    → attribute_cmp AttributeType.short (wildcard false fresh AttributeType.short ++ r) p ≢ positive
unfolding attribute_cmp wildcard short_value little_endian
short_min r p fresh = ground arith

short_max :
    (r p : List ℕ) (fresh : ℕ)
    → attribute_cmp AttributeType.short p (wildcard true fresh AttributeType.short ++ r) ≢ positive
unfolding attribute_cmp wildcard short_value little_endian
short_max r p fresh = ground arith

int_min :
    (r p : List ℕ) (fresh : ℕ)
    → attribute_cmp AttributeType.int (wildcard false fresh AttributeType.int ++ r) p ≢ positive
unfolding attribute_cmp wildcard int_value little_endian
int_min r p fresh = ground arith

int_max :
    (r p : List ℕ) (fresh : ℕ)
    → attribute_cmp AttributeType.int p (wildcard true fresh AttributeType.int ++ r) ≢ positive
unfolding attribute_cmp wildcard int_value little_endian
int_max r p fresh = ground arith

strcmp_min : (xs s : List ℕ) → IsAscii xs → strcmp (0 ∷ s) xs ≢ positive
unfolding strcmp
strcmp_min [] s h = absurd h
strcmp_min (x ∷ xs) s h = ground arith

-- A value of a column: its width, and for a text its form.
abbrev pub IsValue : AttributeType → List ℕ → Type 0
IsValue AttributeType.short bs = length bs ≡ 4
IsValue AttributeType.int bs = length bs ≡ 8
IsValue AttributeType.varchar bs = (length bs ≡ 513) × IsAscii bs

IsValue-length : (t : AttributeType) (bs : List ℕ) → IsValue t bs → length bs ≡ attribute_size t
IsValue-length AttributeType.short bs h = h
IsValue-length AttributeType.int bs h = h
IsValue-length AttributeType.varchar bs h = h.0

-- The comparison of one attribute reads nothing beyond it.
attribute_cmp_local :
    (t : AttributeType) (a b r s : List ℕ)
    → IsValue t a
    → IsValue t b
    → attribute_cmp t (a ++ r) (b ++ s) ≡ attribute_cmp t a b
unfolding attribute_cmp short_value int_value
attribute_cmp_local AttributeType.short a b r s h k =
    rw (take_all-append a r 4 h, take_all-append b s 4 k, take_all a 4 h, take_all b 4 k)
attribute_cmp_local AttributeType.int a b r s h k =
    rw (take_all-append a r 8 h, take_all-append b s 8 k, take_all a 8 h, take_all b 8 k)
attribute_cmp_local AttributeType.varchar a b r s h k = strcmp_local a r b s h.1 k.1

text_min :
    (fresh : ℕ) (a r s : List ℕ)
    → IsAscii a
    → attribute_cmp AttributeType.varchar (wildcard false fresh AttributeType.varchar ++ r) (a ++ s)
      ≢ positive
unfolding attribute_cmp wildcard
text_min fresh a r s h =
    let bytes = replicate 511 127 ++ fresh ∷ [] in
    rw (strcmp_local (0 ∷ bytes) r a s (inl refl) h) (strcmp_min a bytes h)

IsAscii-replicate : (n : ℕ) (s : List ℕ) → IsAscii (replicate n 127 ++ 0 ∷ s)
IsAscii-replicate ℕ.zero s = inl refl
IsAscii-replicate (suc n) s = inr (omega arith, IsAscii-replicate n s)

text_max :
    (fresh : ℕ) (a r s : List ℕ)
    → length a ≡ 513
    → IsAscii a
    → attribute_cmp AttributeType.varchar (a ++ s) (wildcard true fresh AttributeType.varchar ++ r)
      ≢ positive
unfolding attribute_cmp wildcard
text_max fresh a r s l h e =
    let top : List ℕ = replicate 512 127 ++ 0 ∷ [] in
    strcmp_max 512 a [] h (omega arith)
      (sym (strcmp_local a s top r h (IsAscii-replicate 512 [])) ∙ e)

wildcard_min :
    (t : AttributeType) (fresh : ℕ) (a r s : List ℕ)
    → IsValue t a
    → attribute_cmp t (wildcard false fresh t ++ r) (a ++ s) ≢ positive
wildcard_min AttributeType.short fresh a r s h = short_min r (a ++ s) fresh
wildcard_min AttributeType.int fresh a r s h = int_min r (a ++ s) fresh
wildcard_min AttributeType.varchar fresh a r s h = text_min fresh a r s h.1

wildcard_max :
    (t : AttributeType) (fresh : ℕ) (a r s : List ℕ)
    → IsValue t a
    → attribute_cmp t (a ++ s) (wildcard true fresh t ++ r) ≢ positive
wildcard_max AttributeType.short fresh a r s h = short_max r (a ++ s) fresh
wildcard_max AttributeType.int fresh a r s h = int_max r (a ++ s) fresh
wildcard_max AttributeType.varchar fresh a r s h = text_max fresh a r s h.0 h.1

-- What a range asks of one attribute: a bound that is NULL asks nothing.
abbrev pub LowerHolds : AttributeType → Option Attribute → Option Attribute → Type 0
LowerHolds t (some lo) (some a) = attribute_cmp t lo.bytes a.bytes ≢ positive
LowerHolds t _ _ = Unit {0}

abbrev pub UpperHolds : AttributeType → Option Attribute → Option Attribute → Type 0
UpperHolds t (some a) (some hi) = attribute_cmp t a.bytes hi.bytes ≢ positive
UpperHolds t _ _ = Unit {0}

-- Attribute by attribute, as the interface of GetRecords describes a range.
abbrev pub AboveLower :
    List AttributeType → List (Option Attribute) → List (Option Attribute) → Type 0
AboveLower (t ∷ ts) (lo ∷ los) (v ∷ vs) = LowerHolds t lo v × AboveLower ts los vs
AboveLower _ _ _ = Unit {0}

abbrev pub BelowUpper :
    List AttributeType → List (Option Attribute) → List (Option Attribute) → Type 0
BelowUpper (t ∷ ts) (v ∷ vs) (hi ∷ his) = UpperHolds t v hi × BelowUpper ts vs his
BelowUpper _ _ _ = Unit {0}

-- Values that fit the columns; texts are 7-bit and NUL-terminated. NULLs are allowed.
abbrev pub AreValues : List AttributeType → List (Option Attribute) → Type 0
AreValues [] [] = Unit {0}
AreValues [] (v ∷ vs) = ⊥
AreValues (t ∷ ts) [] = ⊥
AreValues (t ∷ ts) (none ∷ vs) = AreValues ts vs
AreValues (t ∷ ts) (some a ∷ vs) = IsValue t a.bytes × AreValues ts vs

field_value :
    (max : Bool) (fresh : ℕ) (t : AttributeType) (a : Attribute)
    → IsValue t a.bytes
    → field max fresh t (some a) ≡ a.bytes
unfolding field
field_value max fresh t a h = take_all a.bytes (attribute_size t) (IsValue-length t a.bytes h)

-- The fields of two keys, taken apart at their first attribute.
at_most_cons :
    (t : AttributeType) (ts : List AttributeType) (xs r ys s : List ℕ)
    → length xs ≡ attribute_size t
    → length ys ≡ attribute_size t
    → AllAtMost (t ∷ ts) (xs ++ r) (ys ++ s)
      ≡ ((attribute_cmp t (xs ++ r) (ys ++ s) ≢ positive) × AllAtMost ts r s)
at_most_cons t ts xs r ys s h k =
    rw (drop_all-append xs r (attribute_size t) h, drop_all-append ys s (attribute_size t) k)

lower_corner :
    (fresh fresh' : ℕ) (ts : List AttributeType) (los vs : List (Option Attribute))
    → AreValues ts los
    → AreValues ts vs
    → IsComplete vs
    → AllAtMost ts (fields false fresh ts los) (fields false fresh' ts vs) ↔ AboveLower ts los vs
unfolding fields
lower_corner fresh fresh' [] los vs hl hv c = (λ _. tt, λ _. tt)
lower_corner fresh fresh' (t ∷ ts) [] vs hl hv c = absurd hl
lower_corner fresh fresh' (t ∷ ts) (lo ∷ los) [] hl hv c = absurd hv
lower_corner fresh fresh' (t ∷ ts) (lo ∷ los) (none ∷ vs) hl hv c = absurd c
lower_corner fresh fresh' (t ∷ ts) (none ∷ los) (some a ∷ vs) hl hv c =
    let (f, g) = lower_corner fresh fresh' ts los vs hl hv.1 c in
    let bound =
      wildcard_min t fresh a.bytes (fields false fresh ts los) (fields false fresh' ts vs) hv.0 in
    rw
      (
        field_value false fresh' t a hv.0,
        at_most_cons t ts (wildcard false fresh t) (fields false fresh ts los) a.bytes
            (fields false fresh' ts vs) (length-wildcard false fresh t)
            (IsValue-length t a.bytes hv.0),
      )
      (λ h. (tt, f h.1), λ h. (bound, g h.1))
lower_corner fresh fresh' (t ∷ ts) (some lo ∷ los) (some a ∷ vs) hl hv c =
    let (f, g) = lower_corner fresh fresh' ts los vs hl.1 hv.1 c in
    rw
      (
        field_value false fresh' t a hv.0,
        field_value false fresh t lo hl.0,
        at_most_cons t ts lo.bytes (fields false fresh ts los) a.bytes (fields false fresh' ts vs)
            (IsValue-length t lo.bytes hl.0) (IsValue-length t a.bytes hv.0),
        attribute_cmp_local t lo.bytes a.bytes (fields false fresh ts los)
            (fields false fresh' ts vs) hl.0 hv.0,
      )
      (λ h. (h.0, f h.1), λ h. (h.0, g h.1))

upper_corner :
    (fresh fresh' : ℕ) (ts : List AttributeType) (vs his : List (Option Attribute))
    → AreValues ts his
    → AreValues ts vs
    → IsComplete vs
    → AllAtMost ts (fields false fresh' ts vs) (fields true fresh ts his) ↔ BelowUpper ts vs his
unfolding fields
upper_corner fresh fresh' [] vs his hh hv c = (λ _. tt, λ _. tt)
upper_corner fresh fresh' (t ∷ ts) vs [] hh hv c = absurd hh
upper_corner fresh fresh' (t ∷ ts) [] (hi ∷ his) hh hv c = absurd hv
upper_corner fresh fresh' (t ∷ ts) (none ∷ vs) (hi ∷ his) hh hv c = absurd c
upper_corner fresh fresh' (t ∷ ts) (some a ∷ vs) (none ∷ his) hh hv c =
    let (f, g) = upper_corner fresh fresh' ts vs his hh hv.1 c in
    let r = fields true fresh ts his in
    let s = fields false fresh' ts vs in
    let bound = wildcard_max t fresh a.bytes r s hv.0 in
    rw
      (
        field_value false fresh' t a hv.0,
        at_most_cons t ts a.bytes s (wildcard true fresh t) r (IsValue-length t a.bytes hv.0)
            (length-wildcard true fresh t),
      )
      (λ h. (tt, f h.1), λ h. (bound, g h.1))
upper_corner fresh fresh' (t ∷ ts) (some a ∷ vs) (some hi ∷ his) hh hv c =
    let (f, g) = upper_corner fresh fresh' ts vs his hh.1 hv.1 c in
    let r = fields true fresh ts his in
    let s = fields false fresh' ts vs in
    rw
      (
        field_value false fresh' t a hv.0,
        field_value true fresh t hi hh.0,
        at_most_cons t ts a.bytes s hi.bytes r (IsValue-length t a.bytes hv.0)
            (IsValue-length t hi.bytes hh.0),
        attribute_cmp_local t a.bytes hi.bytes s r hv.0 hh.0,
      )
      (λ h. (h.0, f h.1), λ h. (h.0, g h.1))

-- The test by which an iterator keeps a record, KeyCmp with `full` against both corners of the range,
-- is the range of the interface: each attribute of the record is at least the minimum and at most
-- the maximum, and a NULL bound asks nothing. The record's key is complete, all three keys fit the
-- columns of the index, and their texts are NUL-terminated and of 7-bit characters.
pub range_test_iff :
    (this fresh : ℕ) (is : IndexSchema) (min_key key max_key : Key)
    → AreValues is.type min_key.value
    → AreValues is.type key.value
    → AreValues is.type max_key.value
    → IsComplete key.value
    → let stored = get_bdb_key this fresh is key false in
      ((key_cmp is.type (get_bdb_key this fresh is min_key false) stored true ≡ zero)
        × (key_cmp is.type stored (get_bdb_key this fresh is max_key true) true ≡ zero))
      ↔ (AboveLower is.type min_key.value key.value × BelowUpper is.type key.value max_key.value)
unfolding get_bdb_key
range_test_iff this fresh is min_key key max_key hl hv hh c =
    let lo = fields false fresh is.type min_key.value in
    let v = fields false fresh is.type key.value in
    let hi = fields true fresh is.type max_key.value in
    let ts = is.type in
    let header = to_bytes 8 this in
    let (f, g) = (key_cmp_full ts (header ++ lo) (header ++ v)).0 in
    let (f', g') = (key_cmp_full ts (header ++ v) (header ++ hi)).0 in
    let (p, q) = lower_corner fresh fresh ts min_key.value key.value hl hv c in
    let (p', q') = upper_corner fresh fresh ts key.value max_key.value hh hv c in
    (λ h. (p (f h.0), p' (f' h.1)), λ h. (g (q h.0), g' (q' h.1)))
