-- ===== src/Bench/Redis/Config.antt =====
-- workloads/redis/archive/utils.py: the lines of `generate_config_file`. A value is a natural number
-- or a text; to compare a text with a number raises a `TypeError`.
use Prim.Native.String.{[], ◌∷◌}
use text.Mathlib.TextLemmas.{append_assoc}
use mathlib.Core.List.{List, ◌++◌}
use schedcore.Prelude.{
  ℕ, String, ◌<>◌, Bool, ◌≡◌, arith, ◌==◌, string_eq, nat_eq, char_eq, ltb, if◌then◌else◌,
}
use schedcore.Prelude.Dict.{Dict}
use schedcore.Prelude.Text.{show}
use schedcore.Prelude.Result.{Result, ok, raise, type_error, ◌>>=◌}

pub data Value : Type 0 where
  number : ℕ → Value
  word : String → Value

abbrev shown : Value → String
shown (number n) = show n
shown (word s) = s

-- `value > n`
abbrev above : Value → ℕ → Result Bool
above (number m) n = ok (ltb n m)
above (word s) n = raise type_error

-- `key.replace('_', '-')`
unfoldable pub dashed : String → String
dashed [] = []
dashed (c ∷ s) = (if c == "_" then "-" else c) ∷ dashed s

-- `value = 128` above that, `value = 1` below 1
abbrev capped : Value → Result Value
capped value = do
  high ← above value 128
  if high
      then ok (number 128)
      else (do positive ← above value 0; ok (if positive then value else number 1))

abbrev threads_line : Value → Result String
threads_line value = do n ← capped value; ok ("io-threads " <> shown n)

abbrev hz_line : Value → Result String
hz_line value = do _ ← above value 500; ok ("hz " <> shown value)

-- The branches behind the first one.
abbrev other_line : String → Value → Result String
other_line key value =
    if key == "io_threads_do_reads"
    then ok ("io-threads-do-reads " <> shown value)
    else if key == "threads"
    then ok ("threads " <> shown value)
    else if key == "maxmemory"
    then ok ("maxmemory " <> shown value)
    else if key == "maxmemory_policy"
    then ok ("maxmemory-policy " <> shown value)
    else if key == "hz"
    then hz_line value
    else if key == "client_output_buffer_limit"
    then ok ("client-output-buffer-limit normal " <> shown value)
    else ok (dashed key <> (" " <> shown value))

-- `if key == "io_threads" and value > 1: … elif …`
unfoldable pub option_line : String → Value → Result String
unfolding dashed
option_line key value =
    if key == "io_threads"
    then (do several ← above value 1; if several then threads_line value else other_line key value)
    else other_line key value

unfoldable pub option_lines : Dict String Value → Result (List String)
unfolding option_line
option_lines List.[] = ok List.[]
option_lines (List.◌∷◌ (key, value) options) = do
  line ← option_line key value
  lines ← option_lines options
  ok (List.◌∷◌ line lines)

abbrev fixed_lines : List String
fixed_lines = List.◌∷◌ "# Dynamically generated Redis configuration" (
    List.◌∷◌ "port 6379" (
      List.◌∷◌ "bind 127.0.0.1" (
        List.◌∷◌ "daemonize no" (
          List.◌∷◌ "loglevel warning" (
            List.◌∷◌ "maxclients 10000" (
              List.◌∷◌ "timeout 0" (
                List.◌∷◌ "tcp-keepalive 300"
                  (List.◌∷◌ "tcp-backlog 511" (List.◌∷◌ "" List.[])))))))))

unfoldable pub config_lines : Dict String Value → Result (List String)
unfolding option_lines
config_lines config_options = do lines ← option_lines config_options; ok (fixed_lines ++ lines)

-- The line for a number of I/O threads names that number up to 128, and 128 above. In particular 0 threads are written as they are.
pub option_line-io_threads :
    (n : ℕ)
    → option_line "io_threads" (number n)
      ≡ ok ("io-threads " <> show (if ltb 128 n then 128 else n))
unfolding option_line dashed string_eq char_eq
option_line-io_threads n = ground (arith, append_assoc "io-threads" " " (show n), ltb)
