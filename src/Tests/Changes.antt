-- ===== src/Tests/Changes.antt =====
-- DeleteRecord and UpdateRecord on a list of entries with a cursor, as in the files Api/Erasure and
-- Api/Replacement.
use mathlib.Core.List.{Perm, not-mem-nil, mem-cons}
use mathlib.Core.List.Perm
use mathlib.Core.Logic.Or
use mathlib.Core.HLevel.{⊥_prop}
use sigmod2012contest.Base.{
  ℕ, ◌≡◌, ◌≢◌, ◌⊎◌, refl, sym, ap, inl, inr, arith, Bool, true, false, ◌&&◌, Option, some, none,
  List, [], ◌∷◌, Bool-cases, if◌then◌else◌,
}
use sigmod2012contest.Containers.Text.{text_eq, text_eq_iff, text_eq_refl}
use sigmod2012contest.Interface.{match_duplicates, ignore_payload}
use sigmod2012contest.Bdb.{
  Bdb, M, Outcome, returns, success, not_found, failure, Entry, Code, Position, get_both, set_range,
  next, next_dup,
}
use sigmod2012contest.Schema.{get_bdb_key, schema_compatible, types_match}
use sigmod2012contest.Keys.{key_cmp, is_zero}
use sigmod2012contest.Objects.{World}
use sigmod2012contest.Api.{delete_record, update_record}
use sigmod2012contest.Api.Putting.{IsReady}
use sigmod2012contest.Api.Changing.{Matches, HasNoMatch, Searches}
use sigmod2012contest.Api.Replacement.{Replaces, Replaced, WithValue, update_record-Replaced}
use sigmod2012contest.Api.Erasure.{Erases, Erased, delete_record-Erased}
use sigmod2012contest.Tests.Objects.{world, schema_with, handle}
use sigmod2012contest.Tests.Interface.{a_record, a_block}
use sigmod2012contest.Tests.Shelf.{columns, entry}

abbrev is_entry : Entry → Entry → Bool
is_entry x y = text_eq x.key y.key && text_eq x.value y.value

abbrev holds : Entry → List Entry → Bool
holds x [] = false
holds x (y ∷ ys) = if is_entry x y then true else holds x ys

-- What the b-tree takes for the entry x.
abbrev matches : Entry → Entry → Bool
matches x z = is_zero (key_cmp columns x.key z.key false) && text_eq z.value x.value

abbrev find : Entry → List Entry → Option Entry
find x [] = none
find x (y ∷ ys) = let rest = find x ys in if matches x y then some y else rest

abbrev without : Entry → List Entry → List Entry
without x [] = []
without x (y ∷ ys) = let rest = without x ys in if is_entry x y then ys else y ∷ rest

-- The entries and the one that the cursor is at.
abbrev Held : Type 0
Held = List Entry × Option Entry

abbrev got : Entry → List Entry → Option Entry → Outcome (Code × Entry) × Held
got x l none = (returns (not_found, x), (l, none))
got x l (some z) = (returns (success, z), (l, some z))

abbrev get : ℕ → Position → Entry → M Held (Code × Entry)
get c get_both x e = got x e.0 (find x e.0)
get c set_range x e = (returns (failure, x), e)
get c next x e = (returns (failure, x), e)
get c next_dup x e = (returns (failure, x), e)

abbrev del : ℕ → M Held Code
del c (l, none) = (returns failure, (l, none))
del c (l, some x) = (returns success, (without x l, none))

-- The entry with its new value is the first one.
abbrev put : ℕ → List ℕ → M Held Code
put c value (l, none) = (returns failure, (l, none))
put c value (l, some x) =
    (returns success, (record { key = x.key; value = value } ∷ without x l, none))

abbrev at : ℕ → Held → Option Entry
at c (l, none) = none
at c (l, some x) = if holds x l then some x else none

abbrev holding : Bdb
holding = record {
  Env = Held;
  txn_begin = λ parent e. (returns 7, e);
  txn_abort = λ tid e. (returns tt, e);
  txn_commit = λ tid e. (returns tt, e);
  db_create = λ name e. (returns tt, e);
  db_open = λ name e. (returns 6, e);
  db_close = λ db e. (returns tt, e);
  db_remove = λ name e. (returns tt, e);
  db_put = λ db tid x e. (returns success, (x ∷ e.0, e.1));
  db_cursor = λ db tid e. (returns 3, e);
  cursor_get = get;
  cursor_put = put;
  cursor_del = del;
  cursor_close = λ c e. (returns tt, e);
}

same_entry : (x y : Entry) → is_entry x y ≡ true → x ≡ y
same_entry x y h = ground (arith, text_eq_iff x.key y.key, text_eq_iff x.value y.value)

other_entry : (x y : Entry) → is_entry x y ≡ false → x ≢ y
other_entry x y h e = ground (arith, text_eq_refl x.key, text_eq_refl x.value)

holds-Perm : (x : Entry) (l : List Entry) → holds x l ≡ true → Perm l (x ∷ without x l)
holds-Perm x [] h = absurd (ground arith)
holds-Perm x (y ∷ ys) h = elim (Bool-cases (is_entry x y)) [
  | inl e ↦ rw (e, same_entry x y e) (Perm.refl (y ∷ ys))
  | inr e ↦
      let later = holds-Perm x ys (ground arith) in
      rw e (Perm.trans (Perm.cons y later) (Perm.swap x y (without x ys)))
]

found :
    (x z : Entry) (l : List Entry) → find x l ≡ some z → (holds z l ≡ true) × Matches columns x z
found x z [] h = absurd (ground arith)
found x z (y ∷ ys) h = elim (Bool-cases (matches x y)) [
  | inl e ↦
      let same : y ≡ z = ground arith in
      rw (sym same) (
        ground (arith, text_eq_refl y.key, text_eq_refl y.value),
        (ground arith, ground (arith, text_eq_iff y.value x.value)),
      )
  | inr e ↦ let (there, fits) = found x z ys (ground arith) in (ground (arith, there), fits)
]

matches_lem : (x z : Entry) → Matches columns x z → matches x z ≡ true
matches_lem x z (k, v) = rw (k, v) (text_eq_refl x.value)

missing : (x : Entry) (l : List Entry) → find x l ≡ none → HasNoMatch columns x l
missing x [] h z m fits = not-mem-nil m
missing x (y ∷ ys) h z m fits = elim (Bool-cases (matches x y)) [
  | inl e ↦ ground arith
  | inr e ↦
      Or.elim ⊥_prop (mem-cons.0 m) (λ q. ground (arith, matches_lem x z fits, ap (matches x) q, e))
        (λ k. missing x ys (ground arith) z k fits)
]

deletes :
    (c : ℕ) (x : Entry) (e : Held)
    → at c e ≡ some x
    → (e' : Held) × (del c e ≡ (returns success, e')) × Perm e.0 (x ∷ e'.0)
deletes c x (l, none) h = absurd (ground arith)
deletes c x (l, some y) h = elim (Bool-cases (holds y l)) [
  | inl e ↦
      let same : x ≡ y = ground arith in ((without y l, none), refl, rw same (holds-Perm y l e))
  | inr e ↦ absurd (ground arith)
]

finds :
    (x : Entry) (e : Held) (o : Option Entry)
    → find x e.0 ≡ o
    → ((y : Entry) × (z : Entry) × (e' : Held) × (get 3 get_both x e ≡ (returns (success, y), e'))
        × (e'.0 ≡ e.0)
        × (at 3 e' ≡ some z)
        × Matches columns x z)
      ⊎ ((y : Entry) × (e' : Held) × (get 3 get_both x e ≡ (returns (not_found, y), e'))
          × (e'.0 ≡ e.0)
          × HasNoMatch columns x e.0)
finds x e none h = inr (x, (e.0, none), rw h refl, refl, missing x e.0 h)
finds x e (some z) h =
    let (there, fits) = found x z e.0 h in
    inl (z, z, (e.0, some z), rw h refl, refl, rw there refl, fits)

holding-Searches : Searches holding 6 columns
holding-Searches = record {
  contents = λ e. e.0;
  current = at;
  begins = λ parent e. (7, e, refl, refl);
  opens = λ tid e. (3, e, refl, refl);
  finds = λ c x e. finds x e (find x e.0) refl;
  commits = λ tid e. (e, refl, refl);
}

holding-Erases : Erases holding 6 columns
unfolding holding-Searches
holding-Erases = record { searches = holding-Searches; erases = deletes }

replaces :
    (value : List ℕ) (c : ℕ) (x : Entry) (e : Held)
    → at c e ≡ some x
    → (e' : Held) × (put c value e ≡ (returns success, e')) × WithValue value x e.0 e'.0
replaces value c x (l, none) h = absurd (ground arith)
replaces value c x (l, some y) h = elim (Bool-cases (holds y l)) [
  | inl e ↦
      let same : x ≡ y = ground arith in
      let changed : Entry = record { key = y.key; value = value } in
      rw same ((changed ∷ without y l, none), refl, (without y l, holds-Perm y l e, Perm.refl _))
  | inr e ↦ absurd (ground arith)
]

holding-Replaces : Replaces holding 6 columns
unfolding holding-Searches
holding-Replaces = record { searches = holding-Searches; replaces = replaces }

-- The entry of the record is the second one.
abbrev stored : Entry
stored = record {
  key = get_bdb_key 10 1 (schema_with false (20 ∷ []) []) a_record.key false;
  value = a_record.payload.bytes;
}

abbrev held : World holding
held = world holding (entry 9 9 ∷ stored ∷ [], none) (schema_with false (20 ∷ []) []) handle

held-IsReady : IsReady held 20 10 6 handle (schema_with false (20 ∷ []) []) none
held-IsReady = record {
  handle = refl;
  opened = refl;
  schema = refl;
  database = refl;
  alive = refl;
  transaction = λ t e. absurd (ground arith);
}

delete_record-Erased_example :
    Erased
      (schema_with false (20 ∷ []) [])
      holding-Erases
      10
      a_record
      held
      (delete_record 1 none (some 20) (some a_record) 0 held)
unfolding schema_compatible types_match match_duplicates ignore_payload
delete_record-Erased_example =
    delete_record-Erased (schema_with false (20 ∷ []) []) holding-Erases held 1 20 10 0 handle
      a_record held-IsReady refl refl refl refl

update_record-Replaced_example :
    Replaced
      (schema_with false (20 ∷ []) [])
      holding-Replaces
      10
      a_record
      a_block
      held
      (update_record 1 none (some 20) (some a_record) (some a_block) 0 held)
unfolding schema_compatible types_match match_duplicates ignore_payload
update_record-Replaced_example =
    update_record-Replaced (schema_with false (20 ∷ []) []) holding-Replaces held 1 20 10 0 handle
      a_record a_block held-IsReady refl refl refl refl
