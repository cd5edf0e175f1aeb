-- ===== src/Tests/Shelf.antt =====
-- A small database for the tests: its environment is the list of the entries that its cursor still has
-- before it, out of a shelf of four.
use sigmod2012contest.Base.{
  ℕ, ◌≡◌, refl, ap, Bool, true, false, inl, inr, Bool-cases, List, [], ◌∷◌, ◌++◌, All, replicate,
  arith, if◌then◌else◌,
}
use sigmod2012contest.Containers.Text.{Text}
use sigmod2012contest.Interface.{AttributeType}
use sigmod2012contest.Keys.{
  Sign, negative, zero, positive, key_cmp, key_cmp_loop, attribute_cmp, short_value, little_endian,
}
use sigmod2012contest.Bdb.{
  Bdb, M, returns, throws, Code, success, not_found, failure, Exception, deadlock, Entry, Position,
  set_range, get_both, next, next_dup, AreSorted, ReadsInOrder, Ends,
}

abbrev pub columns : List AttributeType
columns = AttributeType.short ∷ AttributeType.short ∷ []

abbrev pub number : ℕ → Text
number n = n ∷ 0 ∷ 0 ∷ 0 ∷ []

abbrev pub pair : ℕ → ℕ → Text
pair m n = replicate 8 0 ++ (number m ++ number n)

abbrev pub entry : ℕ → ℕ → Entry
entry m n = record { key = pair m n; value = number m }

abbrev pub shelf : List Entry
shelf = entry 1 5 ∷ entry 2 3 ∷ entry 2 9 ∷ entry 3 4 ∷ []

abbrev is_negative : Sign → Bool
is_negative negative = true
is_negative zero = false
is_negative positive = false

abbrev seek : Entry → List Entry → M (List Entry) (Code × Entry)
seek x [] e = (returns (not_found, x), [])
seek x (y ∷ ys) e =
    let later = seek x ys e in
    if is_negative (key_cmp columns y.key x.key false) then later else (returns (success, y), ys)

abbrev pub read : ℕ → Position → Entry → M (List Entry) (Code × Entry)
read c set_range x e = seek x shelf e
read c next x [] = (returns (not_found, x), [])
read c next x (y ∷ ys) = (returns (success, y), ys)
read c get_both x e = (returns (failure, x), e)
read c next_dup x e = (returns (failure, x), e)

-- The shelf behind an interface of which some calls can be replaced.
abbrev pub database :
    (ℕ → Position → Entry → M (List Entry) (Code × Entry))
    → M (List Entry) ℕ
    → M (List Entry) (Unit {0})
    → Bdb
database get begin commit = record {
  Env = List Entry;
  txn_begin = λ parent. begin;
  txn_abort = λ tid e. (returns tt, e);
  txn_commit = λ tid. commit;
  db_create = λ name e. (returns tt, e);
  db_open = λ name e. (returns 6, e);
  db_close = λ db e. (returns tt, e);
  db_remove = λ name e. (returns tt, e);
  db_put = λ db tid x e. (returns success, e);
  db_cursor = λ db tid e. (returns 3, e);
  cursor_get = get;
  cursor_put = λ c value e. (returns success, e);
  cursor_del = λ c e. (returns success, e);
  cursor_close = λ c e. (returns tt, e);
}

abbrev pub working : Bdb
working = database read (λ e. (returns 7, e)) (λ e. (returns tt, e))

-- A database whose reads end in a deadlock, and one that can neither begin nor commit.
abbrev pub jammed : Bdb
jammed = database (λ c p x e. (throws deadlock, e)) (λ e. (returns 7, e)) (λ e. (returns tt, e))

abbrev pub broken : Bdb
broken = database read (λ e. (throws Exception.memory, e)) (λ e. (throws deadlock, e))

pub seek_found :
    (x y : Entry) (l e e' : List Entry)
    → seek x l e ≡ (returns (success, y), e')
    → (skipped : List Entry) × All
        (λ (z : Entry). key_cmp columns z.key x.key false ≡ negative)
        skipped
      × (l ≡ skipped ++ (y ∷ e'))
seek_found x y [] e e' h = absurd (ground arith)
seek_found x y (z ∷ l) e e' h =
    elim (Bool-cases (is_negative (key_cmp columns z.key x.key false))) [
      | inl b ↦
          let (skipped, below, split) = seek_found x y l e e' (ground arith) in
          (z ∷ skipped, (ground arith, below), ap (λ k. z ∷ k) split)
      | inr b ↦ ([], tt, ground arith)
    ]

pub seek_missing :
    (x y : Entry) (l e e' : List Entry)
    → seek x l e ≡ (returns (not_found, y), e')
    → All (λ (z : Entry). key_cmp columns z.key x.key false ≡ negative) l
seek_missing x y [] e e' h = tt
seek_missing x y (z ∷ l) e e' h =
    elim (Bool-cases (is_negative (key_cmp columns z.key x.key false))) [
      | inl b ↦ (ground arith, seek_missing x y l e e' (ground arith))
      | inr b ↦ absurd (ground arith)
    ]

below_or_equal : {s : Sign} → s ≡ negative → s ≡ positive → ⊥
below_or_equal h e = ground arith

pub shelf-AreSorted : AreSorted columns shelf
unfolding key_cmp key_cmp_loop attribute_cmp short_value little_endian
shelf-AreSorted =
    let le = below_or_equal refl in ((le, (le, (le, tt))), ((le, (le, tt)), ((le, tt), (tt, tt))))

pub next_found_lem :
    (e e' : List Entry) (x y : Entry) → read 3 next x e ≡ (returns (success, y), e') → e ≡ y ∷ e'
next_found_lem [] e' x y h = absurd (ground arith)
next_found_lem (z ∷ e) e' x y h = ground arith

pub next_missing_lem :
    (e e' : List Entry) (x y : Entry) → read 3 next x e ≡ (returns (not_found, y), e') → e ≡ []
next_missing_lem [] e' x y h = refl
next_missing_lem (z ∷ e) e' x y h = absurd (ground arith)

pub seek-Ends : (x : Entry) (l e : List Entry) → Ends (seek x l e).0
seek-Ends x [] e = tt
seek-Ends x (z ∷ l) e = elim (Bool-cases (is_negative (key_cmp columns z.key x.key false))) [
  | inl b ↦ rw b (seek-Ends x l e)
  | inr b ↦ rw b tt
]

pub read-Ends : (p : Position) (x : Entry) (e : List Entry) → Ends (read 3 p x e).0
read-Ends set_range x e = seek-Ends x shelf e
read-Ends get_both x e = tt
read-Ends next x [] = tt
read-Ends next x (y ∷ ys) = tt
read-Ends next_dup x e = tt

unfoldable pub working-ReadsInOrder : ReadsInOrder working columns 3
working-ReadsInOrder = record {
  all = λ e. shelf;
  rest = λ e. e;
  get_ends = read-Ends;
  close_ends = λ e. tt;
  sorted = λ e. shelf-AreSorted;
  next_found = next_found_lem;
  next_missing = next_missing_lem;
  range_found = λ e e' x y h. seek_found x y shelf e e' h;
  range_missing = λ e e' x y h. seek_missing x y shelf e e' h;
}
