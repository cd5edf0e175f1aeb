-- ===== src/Benchmark/Sizes.antt =====
-- GetSize of benchmark/workloads/sigmod_2012_properties.cc, with the units of
-- benchmark/core/utils/size.h.
pub mod Units
use sigmod2012contest.Base.{
  ℕ, ◌+◌, ◌-◌, ◌*◌, ◌^◌, Bool, true, false, ◌&&◌, List, [], ◌∷◌, ◌++◌, leb, ltb, ◌==◌,
  if◌then◌else◌,
}
use sigmod2012contest.Containers.Text.{Text}

-- What GetSize returns: -1, or a number of bytes; a product that does not fit an `int` is undefined.
pub data Size : Type 0 where
  invalid : Size
  bytes : ℕ → Size
  overflows : Size

-- The cases of the outer `switch`, and of the inner one.
pub data Character : Type 0 where
  space digit other : Character
  unit : ℕ → Character

abbrev pub classify : ℕ → Character
classify c =
    if c == 32
    then space
    else if leb 48 c && leb c 57
    then digit
    else if c == 75
    then unit 1024
    else if c == 77
    then unit (2 ^ 20)
    else if c == 71
    then unit (2 ^ 30)
    else other

-- std::atoi on digits.
abbrev pub atoi : ℕ → Text → ℕ
atoi n [] = n
atoi n (c ∷ cs) = atoi (10 * n + (c - 48)) cs

-- `std::atoi(str.str().c_str())*value`
abbrev pub product : ℕ → ℕ → Size
product n value =
    if ltb n 0x80000000 && ltb (n * value) 0x80000000 then bytes (n * value) else overflows

-- What the loop does with the character at the index i: pass over it, add it to the digits, give up,
-- or read a unit of two characters. `i != 'B'` compares the index with 66.
pub data Step : Type 0 where
  passes appends gives_up : Step
  reads_unit : ℕ → Step

unfoldable pub step : ℕ → ℕ → Text → Step
step i c digits = elim (classify c) [
  | space ↦ passes
  | digit ↦ appends
  | other ↦ elim digits [ [] ↦ gives_up | d ∷ ds ↦ if i == 66 then passes else gives_up ]
  | unit u ↦ elim digits [ [] ↦ gives_up | d ∷ ds ↦ if i == 66 then passes else reads_unit u ]
]

-- The loop of GetSize from the index i on, with the digits so far and the factor.
unfoldable pub scan : ℕ → Text → Text → ℕ → Size
scan i [] digits value = product (atoi 0 digits) value
scan i (c ∷ []) digits value = elim (step i c digits) [
  | passes ↦ product (atoi 0 digits) value
  | appends ↦ product (atoi 0 (digits ++ (c ∷ []))) value
  | gives_up ↦ invalid
  | reads_unit u ↦ invalid
]
scan i (c ∷ d ∷ cs) digits value =
    let next = scan (i + 1) (d ∷ cs) in
    let after_unit = scan (i + 2) cs in
    elim (step i c digits) [
      | passes ↦ next digits value
      | appends ↦ next (digits ++ (c ∷ [])) value
      | gives_up ↦ invalid
      | reads_unit u ↦ if d == 66 then after_unit digits u else invalid
    ]

-- GetSize
unfoldable pub get_size : Text → Size
get_size string = scan 0 string [] 1
