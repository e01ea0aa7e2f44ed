-- ===== src/Bench/Machine/Prepare.antt =====
-- Preparing a job: the commit is here, and published
-- (crates/metralectl-agent/src/bench/machine.rs, the first part of `run`).
use metralectl.Prelude.{Bool, true, false, if◌then◌else◌, ◌<>◌}
use metralectl.Bench.Job.{JobRecord, JobState, EventKind, FilePath, failed}
use metralectl.Bench.Ports.{Ports, Ctx, M, ◌>>=◌, give, ask}
use metralectl.Bench.Machine.{transition, emit, finish, or_fail, unless_cancelled, same}

module _ {W : Type 0} (p : Ports W) (ctx : Ctx) where
  -- The second look at a commit, after the fetch.
  unfoldable pub found_after_fetch : JobRecord → Bool → M W Bool
  unfolding finish
  found_after_fetch job true = give true
  found_after_fetch job false =
      finish p job
        (failed JobState.preparing ("commit " <> job.spec.sha <> " is not on the remote"))

  -- Whether a fetch was needed to have the commit.
  unfoldable pub found : JobRecord → Bool → M W Bool
  unfolding or_fail found_after_fetch
  found job true = give false
  found job false = do
    fetching ← ask p.fetch
    u ← or_fail p job JobState.preparing (λ why. "fetch failed: " <> why) fetching
    again ← ask (p.has_commit job.spec.sha)
    here ← or_fail p job JobState.preparing same again
    found_after_fetch job here

  unfoldable pub reachable : JobRecord → Bool → M W (Unit {0})
  unfolding finish
  reachable job true = give tt
  reachable job false = finish p job (
      failed JobState.preparing (
        "commit " <> job.spec.sha
        <> " is not reachable from the trusted remote; push it first (or set allow_unpublished_shas on this node)"))

  unfoldable pub check_published : JobRecord → M W (Unit {0})
  unfolding or_fail reachable
  check_published job = do
    asked ← ask (p.published job.spec.sha)
    known ← or_fail p job JobState.preparing same asked
    reachable job known

  unfoldable pub prepare : JobRecord → M W (JobRecord × FilePath)
  unfolding transition or_fail found check_published emit unless_cancelled
  prepare job₀ = do
    job ← transition p job₀ JobState.preparing
    asked ← ask (p.has_commit job.spec.sha)
    here ← or_fail p job JobState.preparing same asked
    fetched ← found job here
    u ← if ctx.allow_unpublished then give tt else check_published job
    job' ← emit p job (EventKind.preparing job.spec.sha fetched)
    made ← ask (p.worktree job.spec.sha)
    tree ← or_fail p job' JobState.preparing (λ why. "worktree: " <> why) made
    v ← unless_cancelled p ctx job'
    give (job', tree)
