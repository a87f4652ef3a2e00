-- ===== src/Profiler/Main.antt =====
-- pipeline/stage1c_dynamic_profiler.py: `main`, from the arguments to the manifest. The events of the
-- kernel during the profiling are a parameter.
use schedcore.Prelude.{
  ℕ, String, ◌<>◌, Bool, not, ◌&&◌, List, [], is_empty, ltb, ◌==◌, string_eq, nat_eq, if◌then◌else◌,
}
use schedcore.Prelude.Text.{show}
use schedcore.Prelude.Float.{Float}
use schedcore.Prelude.Result.{Result, ok, raise, exit_one}
use schedcore.Manifest.{Manifest}
use schedcore.Profiler.Kernel.{Event, Tracer, trace}
use schedcore.Profiler.Build.{ThreadData, build_manifest, profile_threads}

-- The arguments that the manifest depends on; a pid is not negative.
pub record Args : Type 0 where
  pub pid : ℕ
  pub comm : String
  pub app_name : String
  pub source_path : String

-- `args.app_name or args.comm or f"pid_{args.pid}"`
abbrev pub shown_app_name : Args → String
shown_app_name args =
    if not (args.app_name == "")
    then args.app_name
    else if not (args.comm == "")
    then args.comm
    else "pid_" <> show args.pid

-- The BPF program as it is loaded: its filter is 0 until `main` sets it.
abbrev loaded : ℕ → Tracer
loaded pid = record { filter_pid = if ltb 0 pid then pid else 0; metrics = [] }

module _ (float : Float) where
  unfoldable pub collected : Args → List Event → List ThreadData
  unfolding trace profile_threads
  collected args events =
      profile_threads float args.pid args.comm (trace events (loaded args.pid)).metrics

  -- `is_root`: the effective user is root; `has_bcc`: the package BCC can be imported.
  unfoldable pub profile : Args → Bool → Bool → List Event → Result Manifest
  unfolding collected build_manifest
  profile args is_root has_bcc events =
      let thread_data = collected args events in
      if args.pid == 0 && args.comm == ""
      then raise exit_one
      else if not is_root
      then raise exit_one
      else if not has_bcc
      then raise exit_one
      else if is_empty thread_data
      then raise exit_one
      else ok (build_manifest thread_data (shown_app_name args) args.source_path)
