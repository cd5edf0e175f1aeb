-- ===== src/Api/Delivery.antt =====
-- GetNext of example/BDBImpl.cc: the records that a client gets.
use sigmod2012contest.Base.{
  ℕ, ◌<◌, ◌≡◌, refl, ◌∙◌, true, false, Option, none, some, List, [], ◌∷◌, length,
}
use sigmod2012contest.Interface.{
  ErrorCode, ok, error_not_found, error_deadlock, error_generic_failure, Record,
}
use sigmod2012contest.Bdb.{
  Bdb, Outcome, returns, throws, faults, out_of_fuel, resume, ◌>>=◌, pure, Exception, deadlock,
  memory, exists, no_entry, invalid, other, Entry, ReadsInOrder,
}
use sigmod2012contest.Schema.{IndexSchema}
use sigmod2012contest.Objects.{World, Index, Iterator, stored}
use sigmod2012contest.Iterators.{Verdict, found, ended, failed, current, search_next}
use sigmod2012contest.Iterators.Search.{wanted, Searched}
use sigmod2012contest.Iterators.Traversal.{ahead, IsReady, search_next-Searched}
use sigmod2012contest.Indexes.{after_search}
use sigmod2012contest.Api.{deadlock_or_failure, handled, deliver, fetch, get_next}
use sigmod2012contest.Api.Fetching.{
  next_lem, deliver_found, deliver_ended, deliver_failed, close_without_cursor, there,
  searched_world, decoded,
}

module _ {b : Bdb} where
  -- What a call of GetNext gives a client whose iterator at p has the records `l` before it, by its
  -- status: the next wanted record, the end of the range, or an error, which leaves `*record` as it was.
  abbrev pub Delivers :
      (b.Env → List Entry)
      → ℕ
      → IndexSchema
      → Iterator
      → List Entry
      → Option Record
      → Outcome (ErrorCode × Option Record) × World b
      → Type 0
  Delivers rest p is it l old (returns (ok, r), w') =
      (x : Entry) × (r ≡ some (decoded is x))
      × (wanted is.type it l ≡ x ∷ wanted is.type it (rest w'.env))
  Delivers rest p is it l old (returns (error_not_found, r), w') =
      (r ≡ none) × (wanted is.type it l ≡ [])
  Delivers rest p is it l old (returns (error_deadlock, r), w') = r ≡ old
  Delivers rest p is it l old (returns (error_generic_failure, r), w') = r ≡ old
  Delivers rest p is it l old (returns _, w') = ⊥
  Delivers rest p is it l old (throws _, w') = ⊥
  Delivers rest p is it l old (faults, w') = ⊥
  Delivers rest p is it l old (out_of_fuel, w') = ⊥

  thrown-Delivers :
      (rest : b.Env → List Entry) (p : ℕ) (is : IndexSchema) (it : Iterator) (l : List Entry)
      (old : Option Record) (x : Exception) (w' : World b)
      → Delivers rest p is it l old (returns (deadlock_or_failure x, old), w')
  thrown-Delivers rest p is it l old deadlock w' = refl
  thrown-Delivers rest p is it l old memory w' = refl
  thrown-Delivers rest p is it l old exists w' = refl
  thrown-Delivers rest p is it l old no_entry w' = refl
  thrown-Delivers rest p is it l old invalid w' = refl
  thrown-Delivers rest p is it l old other w' = refl

  abbrev delivery :
      ℕ
      → Option Record
      → World b
      → Outcome Verdict × (Iterator × b.Env)
      → Outcome (ErrorCode × Option Record) × World b
  delivery p old w r =
      handled (resume (resume (stored p w r) (after_search p)) (deliver p old))
        (λ e. pure (deadlock_or_failure e, old))

  delivery-Delivers :
      (rest : b.Env → List Entry) (p i s : ℕ) (it : Iterator) (ix : Index) (is : IndexSchema)
      (w : World b) (l : List Entry) (old : Option Record)
      (r : Outcome Verdict × (Iterator × b.Env))
      → it.end ≡ false
      → it.index ≡ some i
      → w.handles i ≡ some ix
      → ix.schema ≡ some s
      → w.schemas s ≡ some is
      → Searched is.type rest l it r
      → Delivers rest p is it l old (delivery p old w r)
  unfolding after_search
  delivery-Delivers rest p i s it ix is w l old (returns found, (it', e')) g k hi sc alive h =
      rw
        (deliver_found p i s it' ix is (searched_world w p it' e') old (there w p it' e') (h.6 ∙ g)
          (h.8 ∙ k) hi sc alive)
        (current it', refl, h.0)
  delivery-Delivers rest p i s it ix is w l old (returns ended, (it', e')) g k hi sc alive h =
      rw (deliver_ended p it' (searched_world w p it' e') old (there w p it' e') h.1) (refl, h.0)
  delivery-Delivers rest p i s it ix is w l old (returns failed, (it', e')) g k hi sc alive h =
      let (w', it'', closes, at) =
        close_without_cursor p i it' ix (searched_world w p it' e') (there w p it' e') h.1 (h.2 ∙ k)
          hi in
      rw (◌>>=◌, closes, deliver_failed p it'' w' old at) refl
  delivery-Delivers rest p i s it ix is w l old (throws x, (it', e')) g k hi sc alive h =
      thrown-Delivers rest p is it l old x (searched_world w p it' e')
  delivery-Delivers rest p i s it ix is w l old (faults, s') g k hi sc alive h = absurd h
  delivery-Delivers rest p i s it ix is w l old (out_of_fuel, s') g k hi sc alive h = absurd h

module _ (b : Bdb) (is : IndexSchema) (c : ℕ) (reads : ReadsInOrder b is.type c) where
  open reads use {rest}

  -- GetNext on an open iterator between two calls, whose handle and schema are there, with more rounds
  -- than there are records before it: it comes to an end without an exception or undefined behaviour.
  -- If it returns kOk, then `*record` is the first record before the iterator whose key lies in the
  -- range, decoded; if it returns kErrorNotFound, then there is no such record, and `*record` is NULL;
  -- and otherwise it returns kErrorDeadlock or kErrorGenericFailure and leaves `*record` as it was.
  pub get_next-Delivers :
      (fuel p i s : ℕ) (it : Iterator) (ix : Index) (w : World b) (old : Option Record)
      → w.iterators p ≡ some it
      → it.closed ≡ false
      → it.is ≡ some s
      → it.index ≡ some i
      → w.handles i ≡ some ix
      → ix.schema ≡ some s
      → w.schemas s ≡ some is
      → IsReady b is.type c reads it w.env
      → length (ahead b is.type c reads it w.env) < fuel
      → Delivers rest p is it
          (ahead b is.type c reads it w.env)
          old
          (get_next fuel (some p) true old w)
  unfolding get_next fetch
  get_next-Delivers fuel p i s it ix w old h o q k hi sc alive ready f =
      rw (h, ◌>>=◌, o, next_lem fuel p s it is w h q alive)
        (delivery-Delivers rest p i s it ix is w (ahead b is.type c reads it w.env) old
          (search_next b fuel is.type (it, w.env)) ready.going k hi sc alive
          (search_next-Searched b is.type c reads fuel it w.env ready f))
