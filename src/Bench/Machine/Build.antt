-- ===== src/Bench/Machine/Build.antt =====
-- Building a job: a cached binary for this exact commit or a fresh build, and the gate checked
-- against it (crates/metralectl-agent/src/bench/machine.rs, the second part of `run`).
use metralectl.Prelude.{true, false, List, [], ◌∷◌, some, String, if◌then◌else◌, ◌<>◌}
use metralectl.Prelude.{◌⊎◌, inl, inr, str_eq, any, map}
use metralectl.Bench.Job.{JobRecord, JobState, EventKind, FilePath, failed, cancelled, short_sha}
use metralectl.Bench.Ports.{Ports, Ctx, M, ◌>>=◌, give, ask, Fallible, success, error, CachedBinary}
use metralectl.Bench.Ports.{
  CacheMiss, BuildResult, no_build, no_provenance, wrong_sha, hash_mismatch,
}
use metralectl.Bench.Machine.{save, transition, emit, finish, or_fail, unless_cancelled, same}

-- `join(", ")`.
abbrev pub comma_joined : List String → String
comma_joined [] = ""
comma_joined (x ∷ []) = x
comma_joined (x ∷ y ∷ xs) = x <> ", " <> comma_joined (y ∷ xs)

-- Why a build is needed.
unfoldable pub miss_reason : JobRecord → CacheMiss → String
miss_reason job no_build = "no build for this commit"
miss_reason job no_provenance = "a build directory with no provenance"
miss_reason job (wrong_sha s) = "provenance names " <> s <> ", not " <> short_sha job.spec.sha
miss_reason job hash_mismatch = "binary hash does not match its provenance"

module _ {W : Type 0} (p : Ports W) (ctx : Ctx) where
  -- A build's answer: a failed one is a cancelled one if the job was cancelled.
  unfoldable pub built : JobRecord → Fallible BuildResult → M W (JobRecord × CachedBinary)
  unfolding emit finish
  built job (success r) = do
    job' ← emit p job (EventKind.built r.binary.sha256 false r.secs)
    give (job', r.binary)
  built job (error why) = do
    stop ← ask p.cancel
    finish p job (if stop then cancelled ctx.local else failed JobState.building why)

  unfoldable pub obtain :
      JobRecord → FilePath → CachedBinary ⊎ CacheMiss → M W (JobRecord × CachedBinary)
  unfolding emit built miss_reason
  obtain job tree (inl b) = do
    job₁ ← emit p job (EventKind.build true ("cache hit for " <> short_sha job.spec.sha))
    job₂ ← emit p job₁ (EventKind.built b.sha256 true 0)
    give (job₂, b)
  obtain job tree (inr miss) = do
    job₁ ← emit p job (EventKind.build false (miss_reason job miss))
    answer ← ask (p.build job.spec.sha tree)
    built job₁ answer

  unfoldable pub check_gate : JobRecord → List String → M W (Unit {0})
  unfolding finish
  check_gate job known =
      if any (λ k. str_eq k job.spec.gate) known
      then give tt
      else finish p job (
          failed JobState.building (
            "gate "
            <> job.spec.gate
            <> " is unknown to the binary at "
            <> short_sha job.spec.sha
            <> "; it knows: "
            <> comma_joined known))

  unfoldable pub check_params : JobRecord → List String → M W (Unit {0})
  unfolding finish
  check_params job [] = give tt
  check_params job (b ∷ bad) = finish p job (
      failed JobState.building
        ("params not accepted by " <> job.spec.gate <> ": " <> comma_joined (b ∷ bad)))

  unfoldable pub build : JobRecord → FilePath → M W (JobRecord × CachedBinary)
  unfolding save transition or_fail obtain check_gate check_params unless_cancelled
  build job₀ tree = do
    job₁ ← transition p job₀ JobState.building
    looked ← ask (p.cached_binary job₁.spec.sha)
    found ← or_fail p job₁ JobState.building same looked
    got ← obtain job₁ tree found
    let binary = got.1
    let job = record got.0 { binary_sha256 = some binary.sha256 }
    u ← save p job
    v ← unless_cancelled p ctx job
    synced ← ask (p.ensure_recipes binary.path)
    w ← or_fail p job JobState.building (λ why. "recipes: " <> why) synced
    listed ← ask (p.known_gates binary.path)
    known ← or_fail p job JobState.building same listed
    x ← check_gate job known
    checked ← ask (p.bad_params binary.path job.spec.gate (map (λ kv. kv.0) job.spec.params))
    bad ← or_fail p job JobState.building same checked
    y ← check_params job bad
    give (job, binary)
