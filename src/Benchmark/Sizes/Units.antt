-- ===== src/Benchmark/Sizes/Units.antt =====
-- What GetSize makes of a number with a unit.
use sigmod2012contest.Base.{
  ℕ, zero, suc, ◌+◌, ◌^◌, ◌≡◌, refl, sym, ap, ◌∙◌, true, false, ◌&&◌, [], ◌∷◌, ◌++◌, leb, ◌==◌,
  length, replicate, All, arith,
}
use sigmod2012contest.Containers.Text.{Text}
use sigmod2012contest.Benchmark.Sizes.{
  invalid, product, atoi, get_size, scan, step, passes, appends, gives_up, reads_unit,
}

scan_passes :
    (i c : ℕ) (cs digits : Text) (v : ℕ)
    → step i c digits ≡ passes
    → scan i (c ∷ cs) digits v ≡ scan (i + 1) cs digits v
unfolding scan
scan_passes i c [] digits v h = rw (scan, h) refl
scan_passes i c (d ∷ cs) digits v h = rw (scan, h) refl

scan_appends :
    (i c : ℕ) (cs digits : Text) (v : ℕ)
    → step i c digits ≡ appends
    → scan i (c ∷ cs) digits v ≡ scan (i + 1) cs (digits ++ (c ∷ [])) v
unfolding scan
scan_appends i c [] digits v h = rw (scan, h) refl
scan_appends i c (d ∷ cs) digits v h = rw (scan, h) refl

scan_unit :
    (i c u : ℕ) (digits : Text) (v : ℕ)
    → step i c digits ≡ reads_unit u
    → scan i (c ∷ 66 ∷ []) digits v ≡ product (atoi 0 digits) u
unfolding scan
scan_unit i c u digits v h = rw (scan, h) refl

-- A digit of ASCII.
abbrev pub IsDigit : ℕ → Type 0
IsDigit c = (leb 48 c && leb c 57) ≡ true

step_digit : (i c : ℕ) (digits : Text) → IsDigit c → step i c digits ≡ appends
unfolding step
step_digit i c digits h = ground arith

append_one : (xs : Text) (y : ℕ) (ys : Text) → xs ++ (y ∷ []) ++ ys ≡ xs ++ (y ∷ ys)
append_one [] y ys = refl
append_one (x ∷ xs) y ys = ap (λ l. x ∷ l) (append_one xs y ys)

append_nil : (xs : Text) → xs ++ [] ≡ xs
append_nil [] = refl
append_nil (x ∷ xs) = ap (λ l. x ∷ l) (append_nil xs)

scan_digits :
    (i : ℕ) (ds rest digits : Text) (v : ℕ)
    → All IsDigit ds
    → scan i (ds ++ rest) digits v ≡ scan (i + length ds) rest (digits ++ ds) v
scan_digits i [] rest digits v h =
    ap (λ j. scan j rest digits v) (omega arith)
    ∙ ap (λ l. scan (i + 0) rest l v) (sym (append_nil digits))
scan_digits i (d ∷ ds) rest digits v h =
    scan_appends i d (ds ++ rest) digits v (step_digit i d digits h.0)
    ∙ scan_digits (i + 1) ds rest (digits ++ (d ∷ [])) v h.1
    ∙ ap (λ j. scan j rest (digits ++ (d ∷ []) ++ ds) v) (omega arith)
    ∙ ap (λ l. scan (i + suc (length ds)) rest l v) (append_one digits d ds)

step_space : (i : ℕ) (digits : Text) → step i 32 digits ≡ passes
unfolding step
step_space i digits = refl

scan_spaces :
    (i n : ℕ) (rest digits : Text) (v : ℕ)
    → scan i (replicate n 32 ++ rest) digits v ≡ scan (i + n) rest digits v
scan_spaces i zero rest digits v = ap (λ j. scan j rest digits v) (omega arith)
scan_spaces i (suc n) rest digits v =
    scan_passes i 32 (replicate n 32 ++ rest) digits v (step_space i digits)
    ∙ scan_spaces (i + 1) n rest digits v
    ∙ ap (λ j. scan j rest digits v) (omega arith)

-- The units that GetSize knows, by their first letter.
pub data Suffix : Type 0 where
  kilobytes megabytes gigabytes : Suffix

abbrev pub letter : Suffix → ℕ
letter kilobytes = 75
letter megabytes = 77
letter gigabytes = 71

abbrev pub factor : Suffix → ℕ
factor kilobytes = 1024
factor megabytes = 2 ^ 20
factor gigabytes = 2 ^ 30

step_letter :
    (i d : ℕ) (ds : Text) (u : Suffix)
    → (i == 66) ≡ false
    → step i (letter u) (d ∷ ds) ≡ reads_unit (factor u)
unfolding step
step_letter i d ds kilobytes h = rw h refl
step_letter i d ds megabytes h = rw h refl
step_letter i d ds gigabytes h = rw h refl

step_B : (i d : ℕ) (ds : Text) → (i == 66) ≡ false → step i 66 (d ∷ ds) ≡ gives_up
unfolding step
step_B i d ds h = rw h refl

scan_gives_up :
    (i c : ℕ) (digits : Text) (v : ℕ)
    → step i c digits ≡ gives_up
    → scan i (c ∷ []) digits v ≡ invalid
unfolding scan
scan_gives_up i c digits v h = rw (scan, h) refl

-- GetSize on at least one digit, then any number of spaces, then KB, MB or GB: the number times the
-- unit, computed as an `int`. With no unit it is the number itself. With the unit B the size is
-- refused. The unit must not stand at the index 66.
pub get_size_units :
    (d : ℕ) (ds : Text) (n : ℕ) (u : Suffix)
    → All IsDigit (d ∷ ds)
    → (suc (length ds) + n == 66) ≡ false
    → (get_size ((d ∷ ds) ++ (replicate n 32 ++ (letter u ∷ 66 ∷ [])))
        ≡ product (atoi 0 (d ∷ ds)) (factor u))
      × (get_size ((d ∷ ds) ++ (replicate n 32 ++ [])) ≡ product (atoi 0 (d ∷ ds)) 1)
      × (get_size ((d ∷ ds) ++ (replicate n 32 ++ (66 ∷ []))) ≡ invalid)
unfolding get_size scan
get_size_units d ds n u h ne =
    let number = λ (rest : Text).
      scan_digits 0 (d ∷ ds) (replicate n 32 ++ rest) [] 1 h
      ∙ scan_spaces (0 + suc (length ds)) n rest (d ∷ ds) 1 in
    let ne' : (0 + suc (length ds) + n == 66) ≡ false = ground arith in
    let i = 0 + suc (length ds) + n in
    (
      number (letter u ∷ 66 ∷ [])
          ∙ scan_unit i (letter u) (factor u) (d ∷ ds) 1 (step_letter i d ds u ne'),
      number [],
      number (66 ∷ []) ∙ scan_gives_up i 66 (d ∷ ds) 1 (step_B i d ds ne'),
    )
