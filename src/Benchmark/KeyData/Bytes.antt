-- ===== src/Benchmark/KeyData/Bytes.antt =====
-- Bytes that are copied into an array and out of it.
use sigmod2012contest.Base.{
  ℕ, zero, suc, ◌≤◌, ◌<◌, ◌≡◌, refl, sym, ap, ◌∙◌, Option, none, some, List, [], ◌∷◌, ◌++◌, take,
  drop, length, ◌==◌, inl, inr, Bool-cases, arith,
}
use sigmod2012contest.Interface.{AttributeType}
use sigmod2012contest.Benchmark.KeyData.{◌>>=◌, read, c_string, source_bytes, put}

pub put_lem : (bs p : List ℕ) → length bs ≤ length p → put bs p ≡ some (bs ++ drop (length bs) p)
unfolding put
put_lem [] p h = refl
put_lem (b ∷ bs) [] h = absurd (omega arith)
put_lem (b ∷ bs) (x ∷ p) h = rw (put_lem bs p (omega arith)) refl

pub put_beyond : (bs p : List ℕ) → length p < length bs → put bs p ≡ none
unfolding put
put_beyond [] p h = absurd (omega arith)
put_beyond (b ∷ bs) [] h = refl
put_beyond (b ∷ bs) (x ∷ p) h = rw (put_beyond bs p (omega arith)) refl

bind-some :
    {A B : Type 0} (o : Option A) (f : A → Option B) (b : B)
    → (o >>= f) ≡ some b
    → (a : A) × (o ≡ some a) × (f a ≡ some b)
bind-some none f b h = absurd (ground arith)
bind-some (some a) f b h = (a, refl, h)

cons_inversion :
    (o : Option (List ℕ)) (x : ℕ) (s : List ℕ)
    → (o >>= λ xs. some (x ∷ xs)) ≡ some s
    → (xs : List ℕ) × (o ≡ some xs) × (s ≡ x ∷ xs)
cons_inversion o x s h =
    let (xs, e, q) = bind-some o (λ xs. some (x ∷ xs)) s h in (xs, e, ground (arith, q))

-- A copy does not depend on what follows it.
read-append : (n : ℕ) (p s rest : List ℕ) → read n p ≡ some s → read n (s ++ rest) ≡ some s
unfolding read
read-append zero p s rest h = ground (arith, h)
read-append (suc n) [] s rest h = absurd (ground arith)
read-append (suc n) (x ∷ p) s rest h =
    let (xs, e, q) = cons_inversion (read n p) x s h in rw q (rw (read-append n p xs rest e) refl)

c_string-append : (p s rest : List ℕ) → c_string p ≡ some s → c_string (s ++ rest) ≡ some s
unfolding c_string
c_string-append [] s rest h = absurd (ground arith)
c_string-append (x ∷ p) s rest h = elim (Bool-cases (x == 0)) [
  | inl c ↦
      let e : c_string (x ∷ p) ≡ some (0 ∷ []) = rw c refl in
      let q : s ≡ 0 ∷ [] = ground (arith, sym e ∙ h) in rw q refl
  | inr c ↦
      let e : c_string (x ∷ p) ≡ (c_string p >>= λ xs. some (x ∷ xs)) = rw c refl in
      let (xs, e', q) = cons_inversion (c_string p) x s (sym e ∙ h) in
      rw q (rw (c, c_string-append p xs rest e') refl)
]

pub source_bytes-append :
    (t : AttributeType) (p s rest : List ℕ)
    → source_bytes t p ≡ some s
    → source_bytes t (s ++ rest) ≡ some s
unfolding source_bytes
source_bytes-append AttributeType.short p s rest h = read-append 4 p s rest h
source_bytes-append AttributeType.int p s rest h = read-append 8 p s rest h
source_bytes-append AttributeType.varchar p s rest h = c_string-append p s rest h

-- The place of an attribute begins with the bytes that were put there.
pub take-append :
    (s x rest : List ℕ) (n : ℕ) → length s ≤ n → (y : List ℕ) × (take n (s ++ x) ++ rest ≡ s ++ y)
take-append [] x rest n h = (take n x ++ rest, refl)
take-append (b ∷ s) x rest zero h = absurd (omega arith)
take-append (b ∷ s) x rest (suc n) h =
    let (y, e) = take-append s x rest n (omega arith) in (y, ap (◌∷◌ b) e)
