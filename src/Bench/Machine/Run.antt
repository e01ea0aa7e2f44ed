-- ===== src/Bench/Machine/Run.antt =====
-- Running a job's gate as a child, and waiting for it
-- (crates/metralectl-agent/src/bench/machine.rs, the third part of `run`).
use metralectl.Prelude.{List, [], ◌∷◌, ◌++◌, Option, none, some, String, if◌then◌else◌, ◌<>◌}
use metralectl.Prelude.{decimal}
use metralectl.Protocol.{ℤ}
use metralectl.Bench.Job.{
  JobRecord, JobState, EventKind, FilePath, Outcome, failed, cancelled, Verdict,
}
use metralectl.Bench.Ports.{Ports, Ctx, Disk, M, ◌>>=◌, give, ask, value, Fallible, success, error}
use metralectl.Bench.Ports.{CachedBinary, RunPlan, RunEnd, ChildHandle, append}
use metralectl.Bench.Machine.{transition, emit, finish, or_fail}

abbrev checkpoint_args : Option String → List String
checkpoint_args none = []
checkpoint_args (some c) = "--checkpoint" ∷ c ∷ []

abbrev param_args : List (String × String) → List String
param_args [] = []
param_args ((k, v) ∷ rest) = "--param" ∷ (k <> "=" <> v) ∷ param_args rest

-- The node's own command line for the gate.
unfoldable pub argv_for : Ctx → JobRecord → CachedBinary → List String
argv_for ctx job binary =
    (binary.path ∷ "benchmark" ∷ "run" ∷ job.spec.gate ∷ "--pull-request-gate" ∷ "--hardware"
      ∷ ctx.hardware ∷ "--yes" ∷ [])
    ++ ((if ctx.serve_reuse
          then "--serve-reuse" ∷ "--serve-lease-owner" ∷ decimal ctx.agent_pid ∷ []
          else [])
        ++ (checkpoint_args job.spec.checkpoint ++ param_args job.spec.params))

module _ {W : Type 0} (p : Ports W) (ctx : Ctx) where
  abbrev pub plan_for : JobRecord → FilePath → List String → RunPlan
  plan_for job tree argv = record {
    argv = argv;
    cwd = tree;
    env = ctx.child_env;
    log_path = p.log_path job.id;
    stall_timeout = ctx.stall_timeout;
    max_run = job.spec.max_run_s;
  }

  -- The closure that `wait` is handed: append, and drop an error.
  append_all : List EventKind → Disk W → Disk W
  unfolding append
  append_all [] s = s
  append_all (kind ∷ kinds) s =
      let (now, w) = p.now_ms s.world in
      append_all kinds (append p kind now (record s { world = w })).1

  -- A wait, with the events that it emitted in the journal.
  unfoldable pub waited : ChildHandle → RunPlan → M W (Fallible RunEnd)
  unfolding append_all
  waited child plan s =
      let (answer, w) = p.wait child plan s.world in
      (value answer.0, append_all answer.1 (record s { world = w }))

  -- The child's exit code and verdict, or the job's end.
  unfoldable pub exit_of : JobRecord → Fallible RunEnd → M W (ℤ × Option Verdict)
  unfolding finish
  exit_of job (success (RunEnd.exited code verdict)) = give (code, verdict)
  exit_of job (success (RunEnd.stalled after_s)) =
      finish p job (Outcome.timed_out JobState.running after_s)
  exit_of job (success (RunEnd.timed_out after_s)) =
      finish p job (Outcome.timed_out JobState.running after_s)
  exit_of job (success RunEnd.cancelled) = finish p job (cancelled ctx.local)
  exit_of job (error why) = finish p job (failed JobState.running why)

  unfoldable pub at_mark : JobRecord → M W JobRecord
  at_mark job s = (value (record job { seq_high = s.journal.seq }), s)

  unfoldable pub emit_verdict : JobRecord → Option Verdict → M W JobRecord
  emit_verdict job none = give job
  emit_verdict job (some v) = emit p job (EventKind.verdict v)

  -- From the wait to the verdict in the journal, for a fresh run and a resumed one.
  unfoldable pub await_child :
      JobRecord → ChildHandle → RunPlan → M W (JobRecord × (ℤ × Option Verdict))
  unfolding waited exit_of emit
  await_child job₀ child plan = do
    answer ← waited child plan
    job₁ ← at_mark job₀
    ended ← exit_of job₁ answer
    job ← emit_verdict job₁ ended.1
    give (job, ended)

  unfoldable pub run_child :
      JobRecord → FilePath → CachedBinary → M W (JobRecord × (ℤ × Option Verdict))
  unfolding argv_for transition emit or_fail await_child
  run_child job₀ tree binary = do
    let plan = plan_for job₀ tree (argv_for ctx job₀ binary)
    read ← ask (p.record_state tree job₀.spec.gate)
    before ← or_fail p job₀ JobState.running (λ why. "reading the record dir: " <> why) read
    let job₁ = record job₀ { records_before = before }
    spawned ← ask (p.spawn plan)
    child ← or_fail p job₁ JobState.running (λ why. "spawn: " <> why) spawned
    job₂ ←
        transition p
          (record job₁ { child_pid = some child.pid; child_start_ticks = some child.start_ticks })
          JobState.running
    job₃ ← emit p job₂ (EventKind.running child.pid plan.argv)
    await_child job₃ child plan
