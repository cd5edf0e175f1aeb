-- ===== src/Singletons/Once.antt =====
-- An instance is made once.
use sigmod2012contest.Base.{ℕ, suc, ◌≡◌, refl, true, false, none, some, List, [], ◌∷◌, replicate}
use sigmod2012contest.Bdb.{M, returns, faults, ◌>>=◌, pure}
use sigmod2012contest.Singletons.{Singleton, get_instance, initialize, destroy}

module _ {S A : Type 0} where
  -- n calls of getInstance, and what they give.
  abbrev pub instances : M S A → ℕ → M (Singleton S A) (List A)
  instances construct ℕ.zero = pure []
  instances construct (suc n) = do
    a ← get_instance construct
    rest ← instances construct n
    pure (a ∷ rest)

  -- The class has not been used yet.
  abbrev pub unused : S → Singleton S A
  unused s = record { state = s; once = false; instance_ = none; registered = 0 }

  first_instance :
      (construct : M S A) (s s' : S) (a : A)
      → construct s ≡ (returns a, s')
      → get_instance construct (unused s)
        ≡ (returns a, record { state = s'; once = true; instance_ = some a; registered = 1 })
  unfolding get_instance initialize
  first_instance construct s s' a h = rw (◌>>=◌, h) refl

  later_instances :
      (construct : M S A) (n : ℕ) (s : S) (a : A)
      → let w : Singleton S A = record {
        state = s;
        once = true;
        instance_ = some a;
        registered = 1;
      } in
        instances construct n w ≡ (returns (replicate n a), w)
  unfolding get_instance
  later_instances construct ℕ.zero s a = refl
  later_instances construct (suc n) s a = rw (◌>>=◌, later_instances construct n s a) refl

  -- If the constructor returns, then all calls of getInstance, from the first one on, give the one
  -- instance that it has made, the state is as it has left it, and Destroy is registered once. Destroy
  -- deletes the instance, and a call of getInstance after it dereferences NULL.
  pub instances_lem :
      (construct : M S A) (destruct : A → M S (Unit {0})) (s s' s'' : S) (a : A) (n : ℕ)
      → construct s ≡ (returns a, s')
      → destruct a s' ≡ (returns tt, s'')
      → (w' : Singleton S A) × (instances construct (suc n) (unused s)
          ≡ (returns (replicate (suc n) a), w'))
        × (w'.state ≡ s')
        × (w'.registered ≡ 1)
        × (w'' : Singleton S A) × (destroy destruct w' ≡ (returns tt, w''))
        × (w''.state ≡ s'')
        × ((get_instance construct w'').0 ≡ faults)
  unfolding destroy get_instance
  instances_lem construct destruct s s' s'' a n h k =
      let w' : Singleton S A = record {
        state = s';
        once = true;
        instance_ = some a;
        registered = 1;
      } in
      (
        w',
        rw (first_instance construct s s' a h, ◌>>=◌, later_instances construct n s' a) refl,
        refl,
        refl,
        record w' { state = s''; instance_ = none },
        rw (k, ◌>>=◌) refl,
        refl,
        refl,
      )
