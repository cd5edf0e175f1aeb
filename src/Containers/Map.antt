-- ===== src/Containers/Map.antt =====
-- std::map<std::string, V>: entries in ascending order of their keys, each key once.
use sigmod2012contest.Base.{◌≡◌, refl, Option, none, some, List, [], ◌∷◌, arith, if◌then◌else◌}
use sigmod2012contest.Containers.Text.{Text, text_eq, text_lt, text_eq_iff}

abbrev pub Map {ℓ} : Type ℓ → Type ℓ
Map V = List (Text × V)

module _ {ℓ} {V : Type ℓ} where
  unfoldable pub find : Text → Map V → Option V
  find k [] = none
  find k ((j, v) ∷ m) = if text_eq j k then some v else find k m

  -- `m[k] = v`
  unfoldable pub assign : Text → V → Map V → Map V
  assign k v [] = (k, v) ∷ []
  assign k v ((j, w) ∷ m) =
      if text_eq j k
      then (j, v) ∷ m
      else if text_lt k j
      then (k, v) ∷ (j, w) ∷ m
      else (j, w) ∷ assign k v m

  -- `m.erase(it)` at the entry of a key.
  unfoldable pub remove : Text → Map V → Map V
  remove k [] = []
  remove k ((j, v) ∷ m) = if text_eq j k then remove k m else (j, v) ∷ remove k m

  pub find_nil : (k : Text) → find k [] ≡ none
  unfolding find
  find_nil k = refl

  pub find-assign :
      (k j : Text) (v : V) (m : Map V)
      → find j (assign k v m) ≡ (if text_eq k j then some v else find j m)
  unfolding find assign
  find-assign k j v [] = refl
  find-assign k j v ((i, w) ∷ m) =
      ground (arith, text_eq_iff k j, text_eq_iff i k, text_eq_iff i j, find-assign k j v m)

  pub find-remove :
      (k j : Text) (m : Map V) → find j (remove k m) ≡ (if text_eq k j then none else find j m)
  unfolding find remove
  find-remove k j [] = ground arith
  find-remove k j ((i, w) ∷ m) =
      ground (arith, text_eq_iff k j, text_eq_iff i k, text_eq_iff i j, find-remove k j m)
