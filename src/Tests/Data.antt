-- ===== src/Tests/Data.antt =====
-- A small manifest, its ground truth, and what the tests put in for the parameters.
use schedcore.Prelude.{
  String, none, some, [], ◌∷◌, List, ℕ, Option, Char, Bool, leb, code, ◌==◌, char_eq, ◌||◌, ◌&&◌,
}
use schedcore.Prelude.Split.{Unicode}
use schedcore.Manifest.{Manifest, Thread, absent, value}

abbrev pub thread : String → String → String → Option ℕ → Thread
thread pattern role prefix length = record {
  name_pattern = pattern;
  role = role;
  purpose = "";
  identification = some (record {
    type = value "comm_prefix";
    comm_prefix = value prefix;
    comm_length = elim length [ none ↦ absent | some n ↦ value n ];
  });
}

abbrev pub manifest : List Thread → Manifest
manifest threads = record {
  application = value "rocksdb";
  source_path = value "/src/rocksdb";
  language = value "c++";
  identification_method = value "comm";
  default_role = value "foreground";
  rationale = value "compaction and flush threads run in the background";
  threads = threads;
}

-- The ground truth: compaction and flush threads, and the threads of the benchmark.
abbrev pub rocksdb : Manifest
rocksdb = manifest (
    thread "rocksdb:low*" "background" "rocksdb:low" (some 11)
    ∷ thread "rocksdb:high*" "background" "rocksdb:high" (some 12)
    ∷ thread "db_bench*" "foreground" "db_bench" (some 8)
    ∷ [])

-- A generated manifest that found one background thread under a shorter prefix.
abbrev pub generated : Manifest
generated = manifest (
    thread "rocksdb:low*" "background" "rocksdb:low" (some 11)
    ∷ thread "db_bench*" "foreground" "db_bench" (some 8)
    ∷ [])

-- the tables for ASCII
abbrev between : Char → Char → Char → Bool
between a b c = leb (code a) (code c) && leb (code c) (code b)

abbrev pub ascii : Unicode
ascii = record {
  is_space = λ c. c == " " || c == "\n" || c == "\t";
  is_word = λ c. between "a" "z" c || between "A" "Z" c || between "0" "9" c || c == "_";
  is_digit = λ c. between "0" "9" c;
  lower = λ c. String.◌∷◌ c "";
}
