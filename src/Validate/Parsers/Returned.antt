-- ===== src/Validate/Parsers/Returned.antt =====
-- The parsers of a directory, where they return.
use schedcore.Prelude.{◌≡◌, sym, ap, ◌∙◌, ℕ, String, ◌<>◌, Option, none, List, [], ◌∷◌}
use schedcore.Prelude.Text.{show}
use schedcore.Prelude.Split.{Unicode}
use schedcore.Prelude.Result.{Result, raise, ok, ◌>>=◌, >>=-eq-ok, ok-injective}
use schedcore.Prelude.Float.{Float}
use schedcore.Validate.{
  RocksdbRun, NginxRun, add_run, collect_runs, run_numbers, parse_rocksdb, parse_nginx, Outcome,
  outcome, average_rocksdb, average_nginx,
}
use schedcore.Validate.Parsers.{
  parse_runs, parse_rocksdb_text, parse_wrk2_text, parse_rocksdb_files, parse_nginx_files,
}

-- What a parser returns for a file.
abbrev pub returned {ℓ} : {R : Type ℓ} → Result (Option R) → Option R
returned (ok r) = r
returned (raise e) = none

module _ {R : Type 0} (parse : String → Result (Option R)) where
  pub parse_runs-collect_runs :
      (cfs custom ending : String) (is : List ℕ) (runs : List R × List R)
      → parse_runs parse cfs custom ending is ≡ ok runs
      → ◌≡◌ {A = List R × List R}
          (
            collect_runs (λ path. returned (parse path)) cfs ending is,
            collect_runs (λ path. returned (parse path)) custom ending is,
          )
          runs
  unfolding parse_runs collect_runs
  parse_runs-collect_runs cfs custom ending [] runs h = ok-injective ([], []) runs h
  parse_runs-collect_runs cfs custom ending (i ∷ is) runs h =
      let first = parse (cfs <> (show i <> ending)) in
      let second = parse (custom <> (show i <> ending)) in
      let others = parse_runs parse cfs custom ending is in
      let (r, r_read, later) =
        >>=-eq-ok first
          (λ r. second >>= λ q. others >>= λ rest. ok (add_run r rest.0, add_run q rest.1)) h in
      let (q, q_read, last) =
        >>=-eq-ok second (λ q. others >>= λ rest. ok (add_run r rest.0, add_run q rest.1)) later in
      let (rest, rest_read, same) =
        >>=-eq-ok others (λ rest. ok (add_run r rest.0, add_run q rest.1)) last in
      rw (r_read, q_read)
        (ap (λ runs. (add_run r runs.0, add_run q runs.1))
            (parse_runs-collect_runs cfs custom ending is rest rest_read)
          ∙ ok-injective (add_run r rest.0, add_run q rest.1) runs same)

module _ (u : Unicode) (float : Float) (int : String → ℕ) (parse_float : String → Option float.F)
    (read : String → Option String) where
  -- If no file of the RocksDB and the Nginx benchmark raises an error, then the results are those of
  -- the averages over the runs that the files hold.
  pub parse_files-returned :
      (rocksdb nginx : Option (Outcome float))
      → parse_rocksdb_files u float int parse_float read ≡ ok rocksdb
      → parse_nginx_files u float int parse_float read ≡ ok nginx
      → (rocksdb
          ≡ parse_rocksdb float
              (λ path. returned (parse_rocksdb_text u float int parse_float (read path))))
        × (nginx
            ≡ parse_nginx float
                (λ path. returned (parse_wrk2_text u float int parse_float (read path))))
  unfolding parse_rocksdb_files parse_nginx_files parse_rocksdb parse_nginx
  parse_files-returned rocksdb nginx h k =
      let db = λ (path : String). parse_rocksdb_text u float int parse_float (read path) in
      let web = λ (path : String). parse_wrk2_text u float int parse_float (read path) in
      let of_db = λ (runs : List (RocksdbRun float) × List (RocksdbRun float)).
        outcome float "rocksdb" "rocksdb_v7" (average_rocksdb float) runs.0 runs.1 in
      let of_web = λ (runs : List (NginxRun float) × List (NginxRun float)).
        outcome float "nginx" "nginx_aware" (average_nginx float) runs.0 runs.1 in
      let (runs, read_db, same) =
        >>=-eq-ok (parse_runs db "cfs_run" "v7_run" ".txt" run_numbers) (λ runs. ok (of_db runs))
          h in
      let (pages, read_web, equal) =
        >>=-eq-ok (parse_runs web "cfs_run" "nginx_aware_run" ".txt" run_numbers)
          (λ runs. ok (of_web runs)) k in
      (
        sym (ok-injective (of_db runs) rocksdb same)
            ∙ ap of_db (
                sym
                  (parse_runs-collect_runs db "cfs_run" "v7_run" ".txt" run_numbers runs read_db)),
        sym (ok-injective (of_web pages) nginx equal)
            ∙ ap of_web (
                sym (
                  parse_runs-collect_runs web "cfs_run" "nginx_aware_run" ".txt" run_numbers pages
                    read_web)),
      )
