-- ===== src/Tests/Insertion.antt =====
-- InsertRecord on a database that keeps what is put into it, as in the file Api/Insertion.
use mathlib.Core.List.{Perm}
use mathlib.Core.List.Perm
use sigmod2012contest.Base.{refl, sym, ap, arith, subst, false, some, List, [], ◌∷◌}
use sigmod2012contest.Bdb.{Bdb, returns, success, Entry}
use sigmod2012contest.Schema.{schema_compatible, types_match}
use sigmod2012contest.Objects.{World}
use sigmod2012contest.Api.{insert_record}
use sigmod2012contest.Api.Putting.{IsReady}
use sigmod2012contest.Api.Insertion.{Puts, Inserted, insert_record-Inserted}
use sigmod2012contest.Tests.Shelf.{working, entry}
use sigmod2012contest.Tests.Objects.{world, schema_with, handle, transaction}
use sigmod2012contest.Tests.Interface.{a_record}

abbrev keeping : Bdb
keeping = record working { db_put = λ db tid x (e : List Entry). (returns success, x ∷ e) }

keeping-Puts : Puts keeping 6
keeping-Puts = record {
  contents = λ e. e;
  ends = λ tid x e. tt;
  adds = λ tid x e e' h. subst (λ l. Perm l (x ∷ e)) (ap (λ r. r.1) h) (Perm.refl (x ∷ e));
  refuses = λ tid x e e' o h bad. absurd (bad (sym (ap (λ r. r.0) h)));
}

abbrev filled : World keeping
filled = world keeping (entry 1 5 ∷ []) (schema_with false (20 ∷ []) []) handle

filled-IsReady : IsReady filled 20 10 6 handle (schema_with false (20 ∷ []) []) (some 40)
filled-IsReady = record {
  handle = refl;
  opened = refl;
  schema = refl;
  database = refl;
  alive = refl;
  transaction = λ t e. (transaction, ground arith);
}

insert_record-Inserted_example :
    Inserted keeping-Puts 10
      (schema_with false (20 ∷ []) [])
      (some 40)
      a_record
      filled
      (insert_record (some 40) (some 20) (some a_record) filled)
unfolding schema_compatible types_match
insert_record-Inserted_example =
    insert_record-Inserted keeping-Puts filled 20 10 handle (schema_with false (20 ∷ []) [])
      (some 40) a_record refl filled-IsReady refl refl (refl, refl, (refl, refl, tt)) tt
