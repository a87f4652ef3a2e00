-- ===== src/Bench/Os/Model.antt =====
-- A value of the interface: processes that run until they are signalled. `permitted` says whether
-- they may be, and `answer` is what a program prints. It shows that the laws can hold.
use schedcore.Prelude.{
  ℕ, suc, String, Bool, true, false, List, refl, arith, ◌==◌, nat_eq, if◌then◌else◌,
}
use schedcore.Prelude.Result.{ok, raise, os_error, process_lookup_error, timeout_expired}
use schedcore.Bench.Io.{Io, return}
use schedcore.Bench.Os.{Completed, Os, IsOs, IsObeyed}

pub record Host : Type 0 where
  pub alive : ℕ → Bool
  pub next : ℕ

abbrev pub quiet_host : Host
quiet_host = record { alive = λ q. false; next = 0 }

abbrev ended : ℕ → Host → Host
ended p s = record s { alive = λ q. if q == p then false else s.alive q }

abbrev started : Host → Host
started s = record { alive = λ q. if q == s.next then true else s.alive q; next = suc s.next }

abbrev signal : Bool → ℕ → Io Host (Unit {0})
signal permitted p s =
    if permitted
    then if s.alive p then (ok tt, ended p s) else (raise process_lookup_error, s)
    else (raise os_error, s)

abbrev pub host : Bool → (List String → Completed) → Os
host permitted answer = record {
  State = Host;
  running = λ p s. s.alive p;
  path_exists = λ path. return true;
  remove_tree = λ path. return tt;
  make_dirs = λ path. return tt;
  popen = λ args s. (ok s.next, started s);
  poll_is_none = λ p s. (ok (s.alive p), s);
  read_stderr = λ p. return "";
  killpg = λ p sig. signal permitted p;
  wait = λ p timeout s. if s.alive p then (raise timeout_expired, s) else (ok tt, s);
  sleep = λ seconds. return tt;
  run = λ args timeout. return (answer args);
  write_file = λ path text. return tt;
  message = λ e. "";
}

pub host-IsOs : (permitted : Bool) (answer : List String → Completed) → IsOs (host permitted answer)
host-IsOs permitted answer = record {
  path_exists_none = λ path q s h. h;
  remove_tree_none = λ path q s h. h;
  make_dirs_none = λ path q s h. h;
  poll_none = λ p q s h. h;
  read_stderr_none = λ p q s h. h;
  killpg_none = λ p sig q s h. ground arith;
  wait_none = λ p timeout q s h. ground arith;
  sleep_none = λ seconds q s h. h;
  run_none = λ args timeout q s h. h;
  write_none = λ path text q s h. h;
  popen_one = λ args p q s e h. ground arith;
  popen_raise = λ args e q s h k. absurd cc;
  poll_ended = λ p s h. ground arith;
  wait_ended = λ p timeout s h. ground arith;
}

pub host-IsObeyed : (answer : List String → Completed) → IsObeyed (host true answer)
host-IsObeyed answer = record {
  sleep_ok = λ seconds s. refl;
  poll_ok = λ p s. ground arith;
  killpg_ok = λ p sig s. ground arith;
  wait_ok = λ p timeout s. ground arith;
  sigkill_ends = λ p s h. ground arith;
}
