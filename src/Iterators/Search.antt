-- ===== src/Iterators/Search.antt =====
-- What one call of Iterator::Next does with the records that its cursor has before it.
use sigmod2012contest.Base.{
  ℕ, suc, ◌≤◌, ◌<◌, ◌≡◌, refl, sym, ap, ◌⊎◌, inl, inr, Bool, true, false, ◌&&◌, none, some, List,
  [], ◌∷◌, All, filter, length, Bool-cases, arith,
}
use mathlib.Core.Path.{subst}
use sigmod2012contest.Interface.{AttributeType}
use sigmod2012contest.Keys.{is_zero, is_positive, positive, key_cmp}
use sigmod2012contest.Keys.Box.{beyond_stays_beyond, key_cmp-ne_positive_of_full}
use sigmod2012contest.Bdb.{
  Bdb, Outcome, returns, throws, faults, out_of_fuel, resume, pure, Code, success, not_found,
  failure, Position, Entry, AreSorted, ReadsInOrder, Ends,
}
use sigmod2012contest.Objects.{Iterator}
use sigmod2012contest.Iterators.{
  Verdict, found, ended, failed, received, cursor_closed, current, set_ended, next_loop,
}

-- The test of Iterator::Next on a record: its key lies in the box between the two corners.
abbrev pub in_box : List AttributeType → Iterator → Entry → Bool
in_box ts it x =
    is_zero (key_cmp ts it.min_key x.key true) && is_zero (key_cmp ts x.key it.max_key true)

-- The records of a list that the iterator is to return.
abbrev pub wanted : List AttributeType → Iterator → List Entry → List Entry
wanted ts it = filter (in_box ts it)

-- No record beyond the last one is wanted once a record is beyond the upper corner.
none_wanted_beyond :
    (ts : List AttributeType) (it : Iterator) (x : Entry) (xs : List Entry)
    → key_cmp ts x.key it.max_key false ≡ positive
    → All (λ (y : Entry). key_cmp ts x.key y.key false ≡ positive → ⊥) xs
    → wanted ts it xs ≡ []
none_wanted_beyond ts it x [] beyond after = refl
none_wanted_beyond ts it x (y ∷ ys) beyond after = ground (
  arith,
  (beyond_stays_beyond ts x.key y.key it.max_key after.0 beyond).1,
  none_wanted_beyond ts it x ys beyond after.1,
)

none_wanted_from :
    (ts : List AttributeType) (it : Iterator) (x : Entry) (xs : List Entry)
    → is_positive (key_cmp ts x.key it.max_key false) ≡ true
    → All (λ (y : Entry). key_cmp ts x.key y.key false ≡ positive → ⊥) xs
    → wanted ts it (x ∷ xs) ≡ []
none_wanted_from ts it x xs beyond after =
    let p : key_cmp ts x.key it.max_key false ≡ positive = ground arith in
    ground (
      arith,
      none_wanted_beyond ts it x xs p after,
      key_cmp-ne_positive_of_full ts x.key it.max_key,
    )

-- What a search through the records `l` has done, by how it ended. `rest` is what the cursor has
-- before it afterwards.
abbrev pub Searched :
    {E : Type 0}
    → List AttributeType
    → (E → List Entry)
    → List Entry
    → Iterator
    → Outcome Verdict × (Iterator × E)
    → Type 0
Searched ts rest l it (returns found, (it', e')) =
    (wanted ts it l ≡ current it' ∷ wanted ts it (rest e'))
    × AreSorted ts (rest e')
    × (length (rest e') < length l)
    × (it'.min_key ≡ it.min_key)
    × (it'.max_key ≡ it.max_key)
    × (it'.cursor ≡ it.cursor)
    × (it'.end ≡ it.end)
    × (it'.initialized ≡ true)
    × (it'.index ≡ it.index)
Searched ts rest l it (returns ended, (it', e')) =
    (wanted ts it l ≡ []) × (it'.end ≡ true) × (it'.cursor ≡ none)
Searched ts rest l it (returns failed, (it', e')) =
    (it'.end ≡ true) × (it'.cursor ≡ none) × (it'.index ≡ it.index)
Searched ts rest l it (throws _, s) = Unit {0}
Searched ts rest l it (faults, s) = ⊥
Searched ts rest l it (out_of_fuel, s) = ⊥

module _ (b : Bdb) (ts : List AttributeType) (c : ℕ) (reads : ReadsInOrder b ts c) where
  open reads use {all, rest, sorted}

  close_cursor-Searched :
      (l : List Entry) (it it' : Iterator) (v : Verdict) (r : Outcome (Unit {0}) × b.Env)
      → Ends r.0
      → it'.end ≡ true
      → it'.index ≡ it.index
      → ((v ≡ failed) ⊎ ((v ≡ ended) × (wanted ts it l ≡ [])))
      → Searched ts rest l it (resume (cursor_closed it' r) (λ _. pure v))
  close_cursor-Searched l it it' found (r, e) h k j w = absurd (ground arith)
  close_cursor-Searched l it it' ended (returns _, e) h k j w = ground arith
  close_cursor-Searched l it it' ended (throws x, e) h k j w = tt
  close_cursor-Searched l it it' ended (faults, e) h k j w = absurd h
  close_cursor-Searched l it it' ended (out_of_fuel, e) h k j w = absurd h
  close_cursor-Searched l it it' failed (returns _, e) h k j w = ground arith
  close_cursor-Searched l it it' failed (throws x, e) h k j w = tt
  close_cursor-Searched l it it' failed (faults, e) h k j w = absurd h
  close_cursor-Searched l it it' failed (out_of_fuel, e) h k j w = absurd h

  set_ended_lem :
      (it : Iterator) (e : b.Env)
      → it.cursor ≡ some c
      → set_ended b (it, e) ≡ cursor_closed (record it { end = true }) (b.cursor_close c e)
  unfolding set_ended
  set_ended_lem it e h = ground arith

  finish-Searched :
      (l : List Entry) (it it' : Iterator) (v : Verdict) (e : b.Env)
      → it'.cursor ≡ some c
      → it'.index ≡ it.index
      → ((v ≡ failed) ⊎ ((v ≡ ended) × (wanted ts it l ≡ [])))
      → Searched ts rest l it (resume (set_ended b (it', e)) (λ _. pure v))
  finish-Searched l it it' v e h j w =
      subst (λ r. Searched ts rest l it (resume r (λ _. pure v))) (sym (set_ended_lem it' e h))
        (close_cursor-Searched l it (record it' { end = true }) v (b.cursor_close c e)
          (reads.close_ends e) refl j w)

  -- The loop from a `get` on, whose outcome is `r`.
  again-Searched :
      (fuel : ℕ) (it : Iterator) (l : List Entry) (r : Outcome (Code × Entry) × b.Env)
      → ((code : Code) (x : Entry) (e' : b.Env)
          → r ≡ (returns (code, x), e')
          → Searched ts rest l it
              (next_loop b fuel ts c code (record it { key = x.key; value = x.value }, e')))
      → Ends r.0
      → Searched ts rest l it (resume (received it r) (next_loop b fuel ts c))
  again-Searched fuel it l (returns (code, x), e') k h = k code x e' refl
  again-Searched fuel it l (throws x, e') k h = tt
  again-Searched fuel it l (faults, e') k h = absurd h
  again-Searched fuel it l (out_of_fuel, e') k h = absurd h

  -- What the cursor promises after a `get` of the given outcome: the records still to be looked at
  -- are `l`.
  abbrev pub Faces : Code → List Entry → Entry → b.Env → Type 0
  Faces success l x e = (l ≡ x ∷ rest e) × AreSorted ts l
  Faces not_found l x e = l ≡ []
  Faces failure l x e = Unit {0}

  pub Faces-next :
      (code : Code) (x y : Entry) (e e' : b.Env)
      → b.cursor_get c Position.next x e ≡ (returns (code, y), e')
      → AreSorted ts (rest e)
      → Faces code (rest e) y e'
  Faces-next success x y e e' q s = (reads.next_found e e' x y q, s)
  Faces-next not_found x y e e' q s = reads.next_missing e e' x y q
  Faces-next failure x y e e' q s = tt

  -- Past a record that is not wanted the search is a search through the others.
  pub Searched-skip :
      (l l' : List Entry) (it : Iterator) (r : Outcome Verdict × (Iterator × b.Env))
      → wanted ts it l ≡ wanted ts it l'
      → length l' ≤ length l
      → Searched ts rest l' it r
      → Searched ts rest l it r
  Searched-skip l l' it (returns found, s) q n h =
      (rw q h.0, h.1, omega arith, h.3, h.4, h.5, h.6, h.7, h.8)
  Searched-skip l l' it (returns ended, s) q n h = rw q h
  Searched-skip l l' it (returns failed, s) q n h = h
  Searched-skip l l' it (throws x, s) q n h = h
  Searched-skip l l' it (faults, s) q n h = h
  Searched-skip l l' it (out_of_fuel, s) q n h = h

  pub next_loop-Searched :
      (fuel : ℕ) (code : Code) (l : List Entry) (it : Iterator) (e : b.Env)
      → it.cursor ≡ some c
      → it.initialized ≡ true
      → length l < fuel
      → Faces code l (current it) e
      → Searched ts rest l it (next_loop b fuel ts c code (it, e))
  unfolding next_loop
  next_loop-Searched ℕ.zero code l it e h i f k = absurd (omega arith)
  next_loop-Searched (suc fuel) not_found l it e h i f k =
      finish-Searched l it (record it { key_set = false }) ended e h refl (inr (refl, rw k))
  next_loop-Searched (suc fuel) failure l it e h i f k =
      finish-Searched l it (record it { key_set = false }) failed e h refl (inl refl)
  next_loop-Searched (suc fuel) success l it e h i f k =
      let after : AreSorted ts (current it ∷ rest e) = subst (AreSorted ts) k.0 k.1 in
      elim (Bool-cases (is_positive (key_cmp ts it.key it.max_key false))) [
        | inl beyond ↦ rw beyond (
            finish-Searched l it it ended e h refl
              (inr (refl, rw k.0 (none_wanted_from ts it (current it) (rest e) beyond after.0))))
        | inr within ↦ rw within (elim (Bool-cases (in_box ts it (current it))) [
          | inl hit ↦ rw hit (
            rw k.0 (rw hit refl),
            after.1,
            omega (arith, ap length k.0),
            refl,
            refl,
            refl,
            refl,
            i,
            refl,
          )
          | inr miss ↦ rw miss (
              again-Searched fuel it l (b.cursor_get c Position.next (current it) e)
                (λ code x e' q.
                  Searched-skip l (rest e) it _ (rw k.0 (rw miss refl))
                    (omega (arith, ap length k.0))
                    (next_loop-Searched fuel code (rest e)
                      (record it { key = x.key; value = x.value }) e' h i
                      (omega (arith, ap length k.0))
                      (Faces-next code (current it) x e e' q after.1)))
                (reads.get_ends Position.next (current it) e))
        ])
      ]
