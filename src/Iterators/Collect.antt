-- ===== src/Iterators/Collect.antt =====
-- Whole traversals: Next called until it reports the end, as the clients of GetNext do.
use mathlib.Core.Path.{subst}
use sigmod2012contest.Base.{
  ℕ, suc, ◌<◌, ◌≡◌, sym, ap, ◌∙◌, true, false, ◌&&◌, some, List, [], ◌∷◌, filter, length,
  if◌then◌else◌, arith,
}
use sigmod2012contest.Interface.{AttributeType}
use sigmod2012contest.Keys.{is_zero, key_cmp}
use sigmod2012contest.Bdb.{
  Bdb, M, Outcome, returns, throws, faults, out_of_fuel, resume, pure, Entry, AreSorted,
  ReadsInOrder, Exception,
}
use sigmod2012contest.Objects.{Iterator}
use sigmod2012contest.Iterators.{Verdict, found, ended, failed, current, search_next}
use sigmod2012contest.Iterators.Search.{wanted, Searched}
use sigmod2012contest.Iterators.Traversal.{ahead, IsReady, search_next-Searched}

-- `Next` again and again, with the records that it reports, as a client of GetNext reads them until
-- kErrorNotFound. It stops at an error.
unfoldable pub traverse : (b : Bdb) → ℕ → ℕ → List AttributeType → M (Iterator × b.Env) (List Entry)
traverse b ℕ.zero fuel types s = (out_of_fuel, s)
traverse b (suc calls) fuel types s =
    resume (search_next b fuel types s) λ v (s' : Iterator × b.Env). elim v [
      | found ↦ resume (traverse b calls fuel types s') (λ xs. pure (current s'.0 ∷ xs))
      | ended ↦ (returns [], s')
      | failed ↦ (throws Exception.other, s')
    ]

-- What a traversal has returned, if it was not stopped by an error.
abbrev pub Collects : {S : Type 0} → List Entry → Outcome (List Entry) × S → Type 0
Collects xs (returns ys, s) = ys ≡ xs
Collects xs (throws _, s) = Unit {0}
Collects xs (faults, s) = ⊥
Collects xs (out_of_fuel, s) = ⊥

module _ (b : Bdb) (ts : List AttributeType) (c : ℕ) (reads : ReadsInOrder b ts c) where
  open reads use {all, rest}

  cons-Collects :
      (x : Entry) (xs : List Entry) (r : Outcome (List Entry) × (Iterator × b.Env))
      → Collects xs r
      → Collects (x ∷ xs) (resume r (λ ys. pure (x ∷ ys)))
  cons-Collects x xs (returns ys, s) h = ap (◌∷◌ x) h
  cons-Collects x xs (throws _, s) h = tt
  cons-Collects x xs (faults, s) h = absurd h
  cons-Collects x xs (out_of_fuel, s) h = absurd h

  wanted_after :
      (it it' : Iterator) (e' : b.Env)
      → it'.min_key ≡ it.min_key
      → it'.max_key ≡ it.max_key
      → it'.initialized ≡ true
      → wanted ts it' (ahead b ts c reads it' e') ≡ wanted ts it (rest e')
  wanted_after it it' e' m x i =
      ap (λ k. wanted ts it' (if k then rest e' else all e')) i
      ∙ ap
          (λ k.
            filter
              (λ y.
                is_zero (key_cmp ts k y.key true) && is_zero (key_cmp ts y.key it'.max_key true))
              (rest e'))
          m
      ∙ ap
          (λ k.
            filter
              (λ y. is_zero (key_cmp ts it.min_key y.key true) && is_zero (key_cmp ts y.key k true))
              (rest e'))
          x

  IsReady-after :
      (it it' : Iterator) (e' : b.Env)
      → it.cursor ≡ some c
      → it.end ≡ false
      → AreSorted ts (rest e')
      → it'.cursor ≡ it.cursor
      → it'.end ≡ it.end
      → it'.initialized ≡ true
      → IsReady b ts c reads it' e'
  IsReady-after it it' e' h g s p q i = record {
    open_cursor = p ∙ h;
    going = q ∙ g;
    in_order = subst (λ k. AreSorted ts (if k then rest e' else all e')) (sym i) s;
    from_min = λ f. absurd (ground arith);
  }

  after_search :
      (calls fuel : ℕ) (it : Iterator) (e : b.Env) (l : List Entry)
      (r : Outcome Verdict × (Iterator × b.Env))
      → it.cursor ≡ some c
      → it.end ≡ false
      → length l < fuel
      → length l < suc calls
      → ((it' : Iterator) (e' : b.Env)
          → IsReady b ts c reads it' e'
          → length (ahead b ts c reads it' e') < fuel
          → length (ahead b ts c reads it' e') < calls
          → Collects
              (wanted ts it' (ahead b ts c reads it' e'))
              (traverse b calls fuel ts (it', e')))
      → Searched ts rest l it r
      → Collects (wanted ts it l) (
          resume r λ v (s' : Iterator × b.Env). elim v [
            | found ↦ resume (traverse b calls fuel ts s') (λ xs. pure (current s'.0 ∷ xs))
            | ended ↦ (returns [], s')
            | failed ↦ (throws Exception.other, s')
          ])
  after_search calls fuel it e l (returns found, (it', e')) h g f n ih s =
      let before : ahead b ts c reads it' e' ≡ rest e' =
        ap (λ k. if k then rest e' else all e') s.7 in
      let later =
        ih it' e' (IsReady-after it it' e' h g s.1 s.5 s.6 s.7)
          (omega (arith, ap length before, s.2)) (omega (arith, ap length before, s.2)) in
      subst
        (λ xs.
          Collects xs (resume (traverse b calls fuel ts (it', e')) (λ xs. pure (current it' ∷ xs))))
        (ap (◌∷◌ (current it')) (wanted_after it it' e' s.3 s.4 s.7) ∙ sym s.0)
        (cons-Collects (current it') _ (traverse b calls fuel ts (it', e')) later)
  after_search calls fuel it e l (returns ended, s') h g f n ih s = sym s.0
  after_search calls fuel it e l (returns failed, s') h g f n ih s = tt
  after_search calls fuel it e l (throws x, s') h g f n ih s = tt
  after_search calls fuel it e l (faults, s') h g f n ih s = absurd s
  after_search calls fuel it e l (out_of_fuel, s') h g f n ih s = absurd s

  -- A whole traversal of an open iterator, given more calls and more rounds in each call than there
  -- are records before it, comes to an end. If no error stops it, it has reported exactly those
  -- records before it whose key lies in the range, each as often as it is stored and in the order of
  -- the b-tree.
  pub traverse-wanted :
      (calls fuel : ℕ) (it : Iterator) (e : b.Env)
      → IsReady b ts c reads it e
      → length (ahead b ts c reads it e) < fuel
      → length (ahead b ts c reads it e) < calls
      → Collects (wanted ts it (ahead b ts c reads it e)) (traverse b calls fuel ts (it, e))
  unfolding traverse
  traverse-wanted ℕ.zero fuel it e v f n = absurd (omega arith)
  traverse-wanted (suc calls) fuel it e v f n =
      after_search calls fuel it e (ahead b ts c reads it e) (search_next b fuel ts (it, e))
        v.open_cursor v.going f n (λ it' e' w g m. traverse-wanted calls fuel it' e' w g m)
        (search_next-Searched b ts c reads fuel it e v f)
