-- ===== src/Bench/Os.antt =====
-- What the benchmarks call of Python's `os`, `subprocess`, `shutil` and `time`, as an interface. A
-- process is known by its number.
pub mod Model
use schedcore.Prelude.{ℕ, zero, suc, String, Bool, true, false, List, ◌≡◌, ◌⊎◌}
use schedcore.Prelude.Result.{Exception, Result, ok, raise, process_lookup_error, timeout_expired}
use schedcore.Bench.Io.{Io}

pub data Signal : Type 0 where
  sigterm sigkill : Signal

-- A negative return code `-n` is a signal `n` that ended the process.
pub data ReturnCode : Type 0 where
  exited signalled : ℕ → ReturnCode

pub record Completed : Type 0 where
  pub returncode : ReturnCode
  pub stdout : String
  pub stderr : String

-- `proc.returncode == 0`
abbrev pub succeeded : ReturnCode → Bool
succeeded (exited zero) = true
succeeded (exited (suc n)) = false
succeeded (signalled n) = false

pub record Os : Type 1 where
  pub State : Type 0
  -- Whether a process runs.
  pub running : ℕ → State → Bool
  -- `os.path.exists(path)`
  pub path_exists : String → Io State Bool
  -- `shutil.rmtree(path)`
  pub remove_tree : String → Io State (Unit {0})
  -- `os.makedirs(path, exist_ok=True)`
  pub make_dirs : String → Io State (Unit {0})
  -- `subprocess.Popen(args, …, preexec_fn=os.setsid)`
  pub popen : List String → Io State ℕ
  -- `proc.poll() is None`
  pub poll_is_none : ℕ → Io State Bool
  -- `proc.stderr.read().decode()`
  pub read_stderr : ℕ → Io State String
  -- `os.killpg(os.getpgid(proc.pid), signal)`
  pub killpg : ℕ → Signal → Io State (Unit {0})
  -- `proc.wait(timeout=…)`
  pub wait : ℕ → ℕ → Io State (Unit {0})
  -- `time.sleep(seconds)`
  pub sleep : ℕ → Io State (Unit {0})
  -- `subprocess.run(args, capture_output=True, text=True, timeout=…)`
  pub run : List String → ℕ → Io State Completed
  -- `with open(path, "w") as f: …`, with the text that is written
  pub write_file : String → String → Io State (Unit {0})
  -- `str(e)`
  pub message : Exception → String

module _ (os : Os) where
  open os use {
    State, running, path_exists, remove_tree, make_dirs, popen, poll_is_none, read_stderr, killpg,
    wait, sleep, run, write_file,
  }

  -- Whatever runs after an action ran before it.
  abbrev pub StartsNone {ℓ} : {A : Type ℓ} → Io State A → Type 0
  StartsNone action = (q : ℕ) (s : State) → running q (action s).1 ≡ true → running q s ≡ true

  -- The documented behaviour: only `Popen` leaves a process behind, the one that it returns, and
  -- `poll` and `wait` report the end of a process only once it ended.
  pub record IsOs : Type 0 where
    pub path_exists_none : (path : String) → StartsNone (path_exists path)
    pub remove_tree_none : (path : String) → StartsNone (remove_tree path)
    pub make_dirs_none : (path : String) → StartsNone (make_dirs path)
    pub poll_none : (p : ℕ) → StartsNone (poll_is_none p)
    pub read_stderr_none : (p : ℕ) → StartsNone (read_stderr p)
    pub killpg_none : (p : ℕ) (sig : Signal) → StartsNone (killpg p sig)
    pub wait_none : (p timeout : ℕ) → StartsNone (wait p timeout)
    pub sleep_none : (seconds : ℕ) → StartsNone (sleep seconds)
    pub run_none : (args : List String) (timeout : ℕ) → StartsNone (run args timeout)
    pub write_none : (path text : String) → StartsNone (write_file path text)
    pub popen_one :
        (args : List String) (p q : ℕ) (s : State)
        → (popen args s).0 ≡ ok p
        → running q (popen args s).1 ≡ true
        → (q ≡ p) ⊎ (running q s ≡ true)
    pub popen_raise :
        (args : List String) (e : Exception) (q : ℕ) (s : State)
        → (popen args s).0 ≡ raise e
        → running q (popen args s).1 ≡ true
        → running q s ≡ true
    pub poll_ended :
        (p : ℕ) (s : State)
        → (poll_is_none p s).0 ≡ ok false
        → running p (poll_is_none p s).1 ≡ false
    pub wait_ended :
        (p timeout : ℕ) (s : State)
        → (wait p timeout s).0 ≡ ok tt
        → running p (wait p timeout s).1 ≡ false

  -- A user who may signal the schedulers, and does not interrupt the waits: a group is signalled
  -- unless it has ended, and a process ends within three seconds of SIGKILL.
  pub record IsObeyed : Type 0 where
    pub sleep_ok : (seconds : ℕ) (s : State) → (sleep seconds s).0 ≡ ok tt
    pub poll_ok :
        (p : ℕ) (s : State) → ((poll_is_none p s).0 ≡ ok true) ⊎ ((poll_is_none p s).0 ≡ ok false)
    pub killpg_ok :
        (p : ℕ) (sig : Signal) (s : State)
        → ((killpg p sig s).0 ≡ ok tt)
          ⊎ (((killpg p sig s).0 ≡ raise process_lookup_error)
              × (running p (killpg p sig s).1 ≡ false))
    pub wait_ok :
        (p timeout : ℕ) (s : State)
        → ((wait p timeout s).0 ≡ ok tt) ⊎ ((wait p timeout s).0 ≡ raise timeout_expired)
    pub sigkill_ends :
        (p : ℕ) (s : State)
        → (killpg p sigkill s).0 ≡ ok tt
        → (wait p 3 (killpg p sigkill s).1).0 ≡ ok tt
