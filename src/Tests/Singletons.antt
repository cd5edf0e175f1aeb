-- ===== src/Tests/Singletons.antt =====
-- The connection of a Berkeley DB whose state counts the environments, as in the file Singletons.
use sigmod2012contest.Base.{ℕ, ◌+◌, ◌-◌, ◌≡◌, refl, replicate}
use sigmod2012contest.Bdb.{returns, faults}
use sigmod2012contest.Singletons.{
  DbEnv, Singleton, connection_manager, new_connection_manager, delete_connection_manager, destroy,
}
use sigmod2012contest.Singletons.Once.{instances, unused, instances_lem}

abbrev counting : DbEnv
counting = record {
  State = ℕ;
  new_env = λ n. (returns (n + 100), n + 1);
  log_in_memory = λ env n. (returns tt, n);
  set_lg_bsize = λ env size n. (returns tt, n);
  set_cachesize = λ env gbytes bytes parts n. (returns tt, n);
  set_lk_detect_minwrite = λ env n. (returns tt, n);
  set_errfile = λ env name n. (returns tt, n);
  open_env = λ env flags n. (returns tt, n);
  close_env = λ env n. (returns tt, n - 1);
}

instances_lem_example :
    (w' : Singleton ℕ ℕ) × (instances (new_connection_manager counting) 3 (unused 0)
      ≡ (returns (replicate 3 100), w'))
    × (w'.state ≡ 1)
    × (w'.registered ≡ 1)
    × (w'' : Singleton ℕ ℕ) × (destroy (delete_connection_manager counting) w' ≡ (returns tt, w''))
    × (w''.state ≡ 0)
    × ((connection_manager counting w'').0 ≡ faults)
unfolding new_connection_manager delete_connection_manager
instances_lem_example =
    instances_lem (new_connection_manager counting) (delete_connection_manager counting) 0 1 0 100 2
      refl refl
