-- ===== src/Containers/Text.antt =====
-- std::string as the list of its bytes: equality and the order of `operator<`.
use Prim.Native.String.{String}
use Prim.Native.Char.{code}
use sigmod2012contest.Base.{
  ℕ, ◌≡◌, refl, ◌↔◌, Bool, true, false, ◌&&◌, List, [], ◌∷◌, arith, ltb, ◌==◌, if◌then◌else◌,
}

abbrev pub Text : Type 0
Text = List ℕ

-- The bytes of a literal in ASCII.
abbrev pub codes : String → Text
codes String.[] = []
codes (String.◌∷◌ c s) = code c ∷ codes s

unfoldable pub text_eq : Text → Text → Bool
text_eq [] [] = true
text_eq [] (y ∷ ys) = false
text_eq (x ∷ xs) [] = false
text_eq (x ∷ xs) (y ∷ ys) = x == y && text_eq xs ys

unfoldable pub text_lt : Text → Text → Bool
text_lt [] [] = false
text_lt [] (y ∷ ys) = true
text_lt (x ∷ xs) [] = false
text_lt (x ∷ xs) (y ∷ ys) = if x == y then text_lt xs ys else ltb x y

pub text_eq_refl : (xs : Text) → text_eq xs xs ≡ true
unfolding text_eq
text_eq_refl [] = refl
text_eq_refl (x ∷ xs) = ground (arith, text_eq_refl xs)

pub eq_of_text_eq : (xs ys : Text) → text_eq xs ys ≡ true → xs ≡ ys
unfolding text_eq
eq_of_text_eq [] [] h = refl
eq_of_text_eq [] (y ∷ ys) h = cc
eq_of_text_eq (x ∷ xs) [] h = cc
eq_of_text_eq (x ∷ xs) (y ∷ ys) h = ground (arith, eq_of_text_eq xs ys)

pub text_eq_of_eq : (xs ys : Text) → xs ≡ ys → text_eq xs ys ≡ true
text_eq_of_eq xs ys e = rw e (text_eq_refl ys)

pub text_eq_iff : (xs ys : Text) → (text_eq xs ys ≡ true) ↔ (xs ≡ ys)
text_eq_iff xs ys = (eq_of_text_eq xs ys, text_eq_of_eq xs ys)
