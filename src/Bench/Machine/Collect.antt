-- ===== src/Bench/Machine/Collect.antt =====
-- Collecting what a job's child wrote, and a restart's two ways on
-- (crates/metralectl-agent/src/bench/machine.rs, the last part of `run`; machine/resume.rs).
use metralectl.Prelude.{
  ℕ, Bool, true, false, List, [], ◌∷◌, Option, none, some, String, if◌then◌else◌, ◌<>◌, find, ◌==◌,
}
use metralectl.Protocol.{ℤ, pos, negsuc}
use metralectl.Bench.Job.{
  JobRecord, JobState, EventKind, FilePath, failed, completed, orphaned, Verdict,
}
use metralectl.Bench.Job.{ArtifactMeta, ArtifactKind}
use metralectl.Bench.Ports.{Ports, Ctx, M, ◌>>=◌, give, ask, Fallible, success, error, ChildHandle}
use metralectl.Bench.Machine.{transition, emit, finish, or_fail, same}
use metralectl.Bench.Machine.Prepare.{prepare}
use metralectl.Bench.Machine.Build.{build}
use metralectl.Bench.Machine.Run.{run_child, await_child, plan_for}

abbrev pub is_record : ArtifactMeta → Bool
is_record a = elim a.kind [ ArtifactKind.gate_record ↦ true | _ ↦ false ]

abbrev pub is_signature : ArtifactMeta → Bool
is_signature a = elim a.kind [ ArtifactKind.signature ↦ true | _ ↦ false ]

-- `find` of the first artifact of a kind, by where it belongs.
abbrev pub first_path : (ArtifactMeta → Bool) → List ArtifactMeta → Option String
first_path is artifacts = elim (find is artifacts) [ none ↦ none | some a ↦ some a.relative_path ]

abbrev pub is_zero : ℤ → Bool
is_zero (pos n) = n == 0
is_zero (negsuc n) = false

module _ {W : Type 0} (p : Ports W) (ctx : Ctx) where
  unfoldable pub emit_artifacts : JobRecord → List ArtifactMeta → M W JobRecord
  unfolding emit
  emit_artifacts job [] = give job
  emit_artifacts job (a ∷ rest) = do
    job' ← emit p job (EventKind.artifact a)
    emit_artifacts job' rest

  unfoldable pub collect : JobRecord → FilePath → M W (JobRecord × List ArtifactMeta)
  unfolding transition or_fail emit_artifacts
  collect job₀ tree = do
    job₁ ← transition p job₀ JobState.collecting
    taken ← ask (p.collect tree job₁.spec.gate job₁.records_before (p.artifacts_dir job₁.id))
    artifacts ← or_fail p job₁ JobState.collecting same taken
    job ← emit_artifacts job₁ artifacts
    give (job, artifacts)

  -- The outcome of a child that ended, from what it wrote.
  abbrev pub complete : {A : Type 0} → JobRecord → ℤ × Option Verdict → List ArtifactMeta → M W A
  complete job ended artifacts = finish p job (
      completed ended.0 ended.1 (first_path is_record artifacts)
        (first_path is_signature artifacts))

  abbrev pub wrote_nothing : ℤ → List ArtifactMeta → Bool
  wrote_nothing code artifacts = elim (first_path is_record artifacts) [
    | none ↦ is_zero code
    | some r ↦ false
  ]

  -- A fresh run's end: success with no record is a failure.
  unfoldable pub conclude :
      {A : Type 0} → JobRecord → ℤ × Option Verdict → List ArtifactMeta → M W A
  unfolding finish
  conclude job ended artifacts =
      if wrote_nothing ended.0 artifacts
      then finish p job (failed JobState.collecting "the child exited 0 but wrote no gate record")
      else complete job ended artifacts

  -- Run a queued job to its end.
  unfoldable pub run : JobRecord → M W ⊥
  unfolding prepare build run_child collect conclude
  run job = do
    prepared ← prepare p ctx job
    ready ← build p ctx prepared.0 prepared.1
    ran ← run_child p ctx ready.0 prepared.1 ready.1
    kept ← collect ran.0 prepared.1
    conclude kept.0 ran.1 kept.1

  unfoldable pub tree_of : JobRecord → Fallible FilePath → M W FilePath
  unfolding finish
  tree_of job (success tree) = give tree
  tree_of job (error why) = finish p job (orphaned ("worktree: " <> why))

  unfoldable pub resume_child : JobRecord → ChildHandle → M W ⊥
  unfolding finish tree_of await_child collect
  resume_child job child = do
    made ← ask (p.worktree job.spec.sha)
    tree ← tree_of job made
    ran ← await_child p ctx job child (plan_for p ctx job tree [])
    kept ← collect ran.0 tree
    complete kept.0 ran.1 kept.1

  unfoldable pub resume_recorded : JobRecord → Option ℕ → Option ℕ → M W ⊥
  unfolding finish resume_child
  resume_recorded job (some pid) (some ticks) =
      resume_child job (record { pid = pid; start_ticks = ticks })
  resume_recorded job (some pid) none = finish p job (orphaned "no child recorded")
  resume_recorded job none ticks = finish p job (orphaned "no child recorded")

  -- Resume a job whose child survived a restart of the agent.
  unfoldable pub resume_running : JobRecord → M W ⊥
  unfolding resume_recorded
  resume_running job = resume_recorded job job.child_pid job.child_start_ticks

  -- Mark a job that the agent could not recover after a restart.
  unfoldable pub orphan : JobRecord → String → M W ⊥
  unfolding finish
  orphan job reason = finish p job (orphaned reason)
