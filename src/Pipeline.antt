-- ===== src/Pipeline.antt =====
-- From the profiler to the generated classifier: pipeline/stage1c_dynamic_profiler.py writes the
-- manifest that pipeline/stage3_generate_scheduler.py reads.
use schedcore.Prelude.{string_eq, option_eq}
