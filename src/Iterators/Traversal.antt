-- ===== src/Iterators/Traversal.antt =====
-- One call of Iterator::Next, from its first `get` on.
use mathlib.Core.Path.{subst}
use sigmod2012contest.Base.{
  ℕ, ◌<◌, ◌≡◌, refl, sym, ap, ◌∙◌, Bool, true, false, some, List, [], ◌∷◌, ◌++◌, All, length,
  length-append, if◌then◌else◌, arith,
}
use mathlib.Core.List.{append-nil}
use sigmod2012contest.Interface.{AttributeType}
use sigmod2012contest.Keys.{negative, key_cmp}
use sigmod2012contest.Keys.Order.{key_cmp_preorder}
use sigmod2012contest.Keys.Box.{key_cmp-ne_positive_of_full}
use sigmod2012contest.Bdb.{
  Bdb, M, Outcome, returns, throws, faults, out_of_fuel, resume, Code, success, not_found, failure,
  Position, Entry, AreSorted, ReadsInOrder, Ends,
}
use sigmod2012contest.Objects.{Iterator}
use sigmod2012contest.Iterators.{Verdict, received, current, next_loop, first_get, search_next}
use sigmod2012contest.Iterators.Search.{
  wanted, Searched, Faces-next, Searched-skip, next_loop-Searched,
}

-- A record below the lower corner is not wanted.
none_wanted_below :
    (ts : List AttributeType) (it : Iterator) (xs ys : List Entry)
    → All (λ (z : Entry). key_cmp ts z.key it.min_key false ≡ negative) xs
    → wanted ts it (xs ++ ys) ≡ wanted ts it ys
none_wanted_below ts it [] ys h = refl
none_wanted_below ts it (x ∷ xs) ys h = ground (
  arith,
  (key_cmp_preorder ts x.key it.min_key x.key).0,
  key_cmp-ne_positive_of_full ts it.min_key x.key,
  none_wanted_below ts it xs ys h.1,
)

AreSorted-suffix :
    (ts : List AttributeType) (xs ys : List Entry) → AreSorted ts (xs ++ ys) → AreSorted ts ys
AreSorted-suffix ts [] ys h = h
AreSorted-suffix ts (x ∷ xs) ys h = AreSorted-suffix ts xs ys h.1

module _ (b : Bdb) (ts : List AttributeType) (c : ℕ) (reads : ReadsInOrder b ts c) where
  open reads use {all, rest, sorted}

  -- The records that an iterator has before it: all of them until the first call of Next.
  abbrev pub ahead : Iterator → b.Env → List Entry
  ahead it e = if it.initialized then rest e else all e

  -- An iterator between two calls of Next: its cursor is open, the records before it are in order,
  -- and its search starts at the lower corner.
  pub record IsReady (it : Iterator) (e : b.Env) : Type 0 where
    pub open_cursor : it.cursor ≡ some c
    pub going : it.end ≡ false
    pub in_order : AreSorted ts (ahead it e)
    pub from_min : it.initialized ≡ false → it.key ≡ it.min_key

  search_next_open :
      (fuel : ℕ) (it : Iterator) (e : b.Env)
      → it.end ≡ false
      → it.cursor ≡ some c
      → search_next b fuel ts (it, e)
        ≡ resume (first_get b c (it, e)) (λ code (s : Iterator × b.Env).
          next_loop b fuel ts c code (record s.0 { key_set = false }, s.1))
  unfolding search_next
  search_next_open fuel it e h k = ground arith

  first_get_started :
      (it : Iterator) (e : b.Env)
      → it.initialized ≡ true
      → first_get b c (it, e) ≡ received it (b.cursor_get c Position.next (current it) e)
  unfolding first_get
  first_get_started it e h = ground arith

  abbrev started : Code → M (Iterator × b.Env) Code
  started code (it, e) = (returns code, (record it { initialized = true }, e))

  first_get_fresh :
      (it : Iterator) (e : b.Env)
      → it.initialized ≡ false
      → first_get b c (it, e)
        ≡ resume (received it (b.cursor_get c Position.set_range (current it) e)) started
  unfolding first_get
  first_get_fresh it e h = ground arith

  abbrev loop_from : ℕ → Code → M (Iterator × b.Env) Verdict
  loop_from fuel code (it, e) = next_loop b fuel ts c code (record it { key_set = false }, e)

  started-Searched :
      (fuel : ℕ) (it : Iterator) (l : List Entry) (r : Outcome (Code × Entry) × b.Env)
      → ((code : Code) (x : Entry) (e' : b.Env)
          → r ≡ (returns (code, x), e')
          → Searched ts rest l it
              (loop_from fuel code (record it { key = x.key; value = x.value }, e')))
      → Ends r.0
      → Searched ts rest l it (resume (received it r) (loop_from fuel))
  started-Searched fuel it l (returns (code, x), e') k h = k code x e' refl
  started-Searched fuel it l (throws x, e') k h = tt
  started-Searched fuel it l (faults, e') k h = absurd h
  started-Searched fuel it l (out_of_fuel, e') k h = absurd h

  fresh-Searched :
      (fuel : ℕ) (it : Iterator) (l : List Entry) (r : Outcome (Code × Entry) × b.Env)
      → ((code : Code) (x : Entry) (e' : b.Env)
          → r ≡ (returns (code, x), e')
          → Searched ts rest l it (
              loop_from fuel code
                (record it { key = x.key; value = x.value; initialized = true }, e')))
      → Ends r.0
      → Searched ts rest l it (resume (resume (received it r) started) (loop_from fuel))
  fresh-Searched fuel it l (returns (code, x), e') k h = k code x e' refl
  fresh-Searched fuel it l (throws x, e') k h = tt
  fresh-Searched fuel it l (faults, e') k h = absurd h
  fresh-Searched fuel it l (out_of_fuel, e') k h = absurd h

  -- After the first `get` of a fresh iterator: what is skipped is below the lower corner.
  fresh_get-Searched :
      (fuel : ℕ) (it : Iterator) (code : Code) (x : Entry) (e e' : b.Env)
      → it.cursor ≡ some c
      → it.key ≡ it.min_key
      → length (all e) < fuel
      → b.cursor_get c Position.set_range (current it) e ≡ (returns (code, x), e')
      → Searched ts rest
          (all e)
          it
          (loop_from fuel code (record it { key = x.key; value = x.value; initialized = true }, e'))
  fresh_get-Searched fuel it success x e e' h m f q =
      let (skipped, below, split) = reads.range_found e e' (current it) x q in
      let below' =
        subst (λ k. All (λ (z : Entry). key_cmp ts z.key k false ≡ negative) skipped) m below in
      let it' : Iterator = record it {
        key = x.key;
        value = x.value;
        initialized = true;
        key_set = false;
      } in
      Searched-skip b ts c reads (all e) (x ∷ rest e') it _
        (rw split (none_wanted_below ts it skipped _ below'))
        (omega (arith, ap length split, length-append skipped (x ∷ rest e')))
        (next_loop-Searched b ts c reads fuel success (x ∷ rest e') it' e' h refl
          (omega (arith, ap length split, length-append skipped (x ∷ rest e')))
          (refl, AreSorted-suffix ts skipped _ (subst (AreSorted ts) split (sorted e))))
  fresh_get-Searched fuel it not_found x e e' h m f q =
      let below = reads.range_missing e e' (current it) x q in
      let below' =
        subst (λ k. All (λ (z : Entry). key_cmp ts z.key k false ≡ negative) (all e)) m below in
      let it' : Iterator = record it {
        key = x.key;
        value = x.value;
        initialized = true;
        key_set = false;
      } in
      Searched-skip b ts c reads (all e) [] it _
        (sym (ap (wanted ts it) (append-nil (all e))) ∙ none_wanted_below ts it (all e) [] below')
        (omega arith)
        (next_loop-Searched b ts c reads fuel not_found [] it' e' h refl (omega arith) refl)
  fresh_get-Searched fuel it failure x e e' h m f q =
      next_loop-Searched b ts c reads fuel failure (all e)
        (record it { key = x.key; value = x.value; initialized = true; key_set = false }) e' h refl
        f tt

  started_get-Searched :
      (fuel : ℕ) (it : Iterator) (code : Code) (x : Entry) (e e' : b.Env)
      → it.cursor ≡ some c
      → it.initialized ≡ true
      → AreSorted ts (rest e)
      → length (rest e) < fuel
      → b.cursor_get c Position.next (current it) e ≡ (returns (code, x), e')
      → Searched ts rest
          (rest e)
          it
          (loop_from fuel code (record it { key = x.key; value = x.value }, e'))
  started_get-Searched fuel it code x e e' h i s f q =
      next_loop-Searched b ts c reads fuel code (rest e)
        (record it { key = x.key; value = x.value; key_set = false }) e' h i f
        (Faces-next b ts c reads code (current it) x e e' q s)

  ready_cases :
      (fuel : ℕ) (it : Iterator) (e : b.Env) (i : Bool)
      → it.initialized ≡ i
      → IsReady it e
      → length (ahead it e) < fuel
      → Searched ts rest (ahead it e) it (resume (first_get b c (it, e)) (loop_from fuel))
  ready_cases fuel it e true i v f =
      let before : ahead it e ≡ rest e = ap (λ k. if k then rest e else all e) i in
      subst (λ l. Searched ts rest l it (resume (first_get b c (it, e)) (loop_from fuel)))
        (sym before)
        (subst (λ r. Searched ts rest (rest e) it (resume r (loop_from fuel)))
          (sym (first_get_started it e i))
          (started-Searched fuel it (rest e) (b.cursor_get c Position.next (current it) e)
            (λ code x e' q.
              started_get-Searched fuel it code x e e' v.open_cursor i
                (subst (AreSorted ts) before v.in_order) (omega (arith, ap length before)) q)
            (reads.get_ends Position.next (current it) e)))
  ready_cases fuel it e false i v f =
      let before : ahead it e ≡ all e = ap (λ k. if k then rest e else all e) i in
      subst (λ l. Searched ts rest l it (resume (first_get b c (it, e)) (loop_from fuel)))
        (sym before)
        (subst (λ r. Searched ts rest (all e) it (resume r (loop_from fuel)))
          (sym (first_get_fresh it e i))
          (fresh-Searched fuel it (all e) (b.cursor_get c Position.set_range (current it) e)
            (λ code x e' q.
              fresh_get-Searched fuel it code x e e' v.open_cursor (v.from_min i)
                (omega (arith, ap length before)) q)
            (reads.get_ends Position.set_range (current it) e)))

  -- One call of Next on an open iterator, with more rounds than there are records before it: the
  -- call ends. If it reports a record, then that is the first of the records before it that lie in
  -- the range, and those after it are still to come; if it reports the end, then no record before it
  -- lies in the range, and the iterator is marked as ended and its cursor closed; an error also marks
  -- it as ended.
  pub search_next-Searched :
      (fuel : ℕ) (it : Iterator) (e : b.Env)
      → IsReady it e
      → length (ahead it e) < fuel
      → Searched ts rest (ahead it e) it (search_next b fuel ts (it, e))
  search_next-Searched fuel it e v f =
      rw (search_next_open fuel it e v.going v.open_cursor)
        (ready_cases fuel it e it.initialized refl v f)
