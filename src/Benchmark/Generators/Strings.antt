-- ===== src/Benchmark/Generators/Strings.antt =====
-- FixedLengthStringGenerator: the strings that it gives, and its reset.
use native.Mathlib.Nat.{mod-lt}
use sigmod2012contest.Base.{
  ℕ, zero, suc, ◌%◌, ◌^◌, ◌<◌, ◌≡◌, refl, ap, ◌∙◌, Bool, true, List, [], ◌∷◌, leb, ◌&&◌, arith,
  length, All,
}
use sigmod2012contest.Containers.Text.{Text}
use sigmod2012contest.Benchmark.Rngs.{Rng, fast_rand_next}
use sigmod2012contest.Benchmark.Generators.{
  FixedLengthStringGenerator, new_fixed_length, fixed_length_reset, fixed_length_next,
  random_characters, readable_characters, character_at,
}

-- Printable characters of ASCII other than the space.
abbrev pub IsReadable : ℕ → Type 0
IsReadable c = (leb 33 c && leb c 126) ≡ true

character_at-All :
    (P : ℕ → Type 0) (cs : Text) (i : ℕ) → All P cs → i < length cs → P (character_at cs i)
character_at-All P [] i h lt = absurd (omega arith)
character_at-All P (c ∷ cs) zero h lt = h.0
character_at-All P (c ∷ cs) (suc i) h lt = character_at-All P cs i h.1 (omega arith)

all_readable : Text → Bool
all_readable [] = true
all_readable (c ∷ cs) = leb 33 c && leb c 126 && all_readable cs

All-IsReadable : (cs : Text) → all_readable cs ≡ true → All IsReadable cs
unfolding all_readable
All-IsReadable [] h = tt
All-IsReadable (c ∷ cs) h = (ground arith, All-IsReadable cs (ground arith))

readable_characters-IsReadable : All IsReadable readable_characters
unfolding all_readable
readable_characters-IsReadable = All-IsReadable readable_characters refl

random_characters_lem :
    (n rng : ℕ)
    → (length (random_characters n rng).0 ≡ n) × All IsReadable (random_characters n rng).0
unfolding random_characters
random_characters_lem zero rng = (refl, tt)
random_characters_lem (suc n) rng =
    let (l, readable) = random_characters_lem n (fast_rand_next rng).1 in
    let r = (fast_rand_next rng).0 in
    (
      ap suc l,
      (
        character_at-All IsReadable readable_characters (r % length readable_characters)
            readable_characters-IsReadable (mod-lt r (omega arith)),
        readable,
      ),
    )

-- Each string that a FixedLengthStringGenerator gives has the length it was constructed with, and only
-- printable characters that are not a space. The generator keeps its length and its seed.
fixed_length_next_lem :
    (g : FixedLengthStringGenerator)
    → let (text, g') = fixed_length_next g in
      (length text ≡ g.length)
      × All IsReadable text
      × (g'.current ≡ text)
      × (g'.length ≡ g.length)
      × (g'.seed ≡ g.seed)
unfolding fixed_length_next
fixed_length_next_lem g =
    let (l, readable) = random_characters_lem g.length g.rng in (l, readable, refl, refl, refl)

-- The next n strings of a generator, and the generator after them.
abbrev pub strings : ℕ → FixedLengthStringGenerator → List Text × FixedLengthStringGenerator
strings zero g = ([], g)
strings (suc n) g =
    let (x, g') = fixed_length_next g in let (xs, g'') = strings n g' in (x ∷ xs, g'')

after_strings :
    (n : ℕ) (g : FixedLengthStringGenerator)
    → ((strings n g).1.length ≡ g.length) × ((strings n g).1.seed ≡ g.seed)
unfolding fixed_length_next
after_strings zero g = (refl, refl)
after_strings (suc n) g = after_strings n (fixed_length_next g).1

same_strings :
    (m : ℕ) (g h : FixedLengthStringGenerator)
    → g.length ≡ h.length
    → g.rng ≡ h.rng
    → (strings m g).0 ≡ (strings m h).0
unfolding fixed_length_next
same_strings zero g h l r = refl
same_strings (suc m) g h l r =
    let same : random_characters g.length g.rng ≡ random_characters h.length h.rng =
      rw (l, r) refl in
    let g' = (fixed_length_next g).1 in
    let h' = (fixed_length_next h).1 in
    ap (λ p. p.0 ∷ (strings m g').0) same
    ∙ ap (λ xs. (fixed_length_next h).0 ∷ xs) (same_strings m g' h' l (ap (λ p. p.1) same))

-- However many strings a generator has given since its construction, after a reset it gives the
-- strings again that it gave first.
fixed_length_reset_lem :
    (rng : Rng) (length n m : ℕ) (s : rng.State)
    → let g = (new_fixed_length rng length s).0 in
      (strings m (fixed_length_reset (strings n g).1)).0 ≡ (strings m g).0
unfolding fixed_length_reset new_fixed_length
fixed_length_reset_lem rng length n m s =
    let g = (new_fixed_length rng length s).0 in
    let (l, seed) = after_strings n g in
    same_strings m (fixed_length_reset (strings n g).1) g l (ap (λ x. x % 2 ^ 32) seed)
