-- ===== src/Bench/Machine/Stages.antt =====
-- Each stage of a job ends with a value, an I/O error or a recorded outcome
-- (crates/metralectl-agent/src/bench/machine.rs, machine/resume.rs).
use metralectl.Prelude.{
  refl, ℕ, Bool, true, false, List, [], ◌∷◌, Option, none, some, String, if◌then◌else◌, any, str_eq,
}
use metralectl.Prelude.{◌⊎◌, inl, inr}
use metralectl.Bench.Job.{JobRecord, JobState, Outcome, EventKind, FilePath, Verdict, ArtifactMeta}
use metralectl.Bench.Job.{failed, cancelled, timed_out}
use metralectl.Bench.Ports.{Ports, Ctx}
use metralectl.Bench.Ports.{
  Fallible, success, error, CachedBinary, CacheMiss, BuildResult, RunEnd, RunPlan, ChildHandle,
}
use metralectl.Bench.Machine.{finish, or_fail}
use metralectl.Bench.Machine.Prepare.{found_after_fetch, found, reachable, check_published, prepare}
use metralectl.Bench.Machine.Build.{built, obtain, check_gate, check_params, build}
use metralectl.Bench.Machine.Run.{
  waited, exit_of, at_mark, emit_verdict, await_child, run_child, plan_for, argv_for,
}
use metralectl.Bench.Machine.Collect.{emit_artifacts, collect}
use metralectl.Bench.Machine.Post.{
  Always, bind-Always, give-Always, ask-Always, if-Always, emit-Always,
}
use metralectl.Bench.Machine.Post.{save-Always, transition-Always, finish-Always, or_fail-Always}
use metralectl.Bench.Machine.Post.{unless_cancelled-Always, with_value}

module _ {W : Type 0} (p : Ports W) (ctx : Ctx) (Good : Outcome → Type 0)
    (fails : (stage : JobState) (why : String) → Good (failed stage why))
    (times_out : (stage : JobState) (after_s : ℕ) → Good (timed_out stage after_s))
    (cancels : Good (cancelled ctx.local)) where
  finish-fails :
      {A : Type 0} (job : JobRecord) (stage : JobState) (why : String)
      → Always p Good {A = A} (finish p job (failed stage why))
  finish-fails job stage why = finish-Always p Good job _ (fails stage why)

  or_fail-fails :
      {A : Type 0} (job : JobRecord) (stage : JobState) (f : String → String) (x : Fallible A)
      → Always p Good (or_fail p job stage f x)
  or_fail-fails job stage f x = or_fail-Always p Good job stage f x (fails stage)

  found_after_fetch-Always :
      (job : JobRecord) (here : Bool) → Always p Good (found_after_fetch p ctx job here)
  unfolding found_after_fetch
  found_after_fetch-Always job true = give-Always p Good true
  found_after_fetch-Always job false = finish-fails job _ _

  found-Always : (job : JobRecord) (here : Bool) → Always p Good (found p ctx job here)
  unfolding found
  found-Always job true = give-Always p Good false
  found-Always job false = bind-Always p Good (ask-Always p Good p.fetch) λ x.
      bind-Always p Good (or_fail-fails job _ _ x) λ u.
        bind-Always p Good (ask-Always p Good _) λ y.
          bind-Always p Good (or_fail-fails job _ _ y) λ here. found_after_fetch-Always job here

  check_published-Always : (job : JobRecord) → Always p Good (check_published p ctx job)
  unfolding check_published reachable
  check_published-Always job =
      bind-Always p Good (ask-Always p Good _)
        λ x. bind-Always p Good (or_fail-fails job _ _ x) λ known. reachable-Always known
    where
      reachable-Always : (known : Bool) → Always p Good (reachable p ctx job known)
      reachable-Always true = give-Always p Good tt
      reachable-Always false = finish-fails job _ _

  pub prepare-Always : (job : JobRecord) → Always p Good (prepare p ctx job)
  unfolding prepare
  prepare-Always job₀ = bind-Always p Good (transition-Always p Good job₀ _) λ job.
      bind-Always p Good (ask-Always p Good _) λ x.
        bind-Always p Good (or_fail-fails job _ _ x) λ here.
          bind-Always p Good (found-Always job here) λ fetched.
            bind-Always p Good
              (if-Always p Good ctx.allow_unpublished (give-Always p Good tt)
                (check_published-Always job))
              λ u. bind-Always p Good (emit-Always p Good job _ refl) λ job'.
                bind-Always p Good (ask-Always p Good _) λ y.
                  bind-Always p Good (or_fail-fails job' _ _ y) λ tree.
                    bind-Always p Good (unless_cancelled-Always p Good ctx job' cancels)
                      λ v. give-Always p Good (job', tree)

  built-Always : (job : JobRecord) (x : Fallible BuildResult) → Always p Good (built p ctx job x)
  unfolding built
  built-Always job (success r) =
      bind-Always p Good (emit-Always p Good job _ refl) λ job'. give-Always p Good _
  built-Always job (error why) =
      bind-Always p Good (ask-Always p Good p.cancel) λ stop. stopped stop
    where
      stopped :
          (stop : Bool)
          → Always p Good {A = JobRecord × CachedBinary}
              (finish p job (if stop then cancelled ctx.local else failed JobState.building why))
      stopped true = finish-Always p Good job _ cancels
      stopped false = finish-fails job _ _

  obtain-Always :
      (job : JobRecord) (tree : FilePath) (x : CachedBinary ⊎ CacheMiss)
      → Always p Good (obtain p ctx job tree x)
  unfolding obtain
  obtain-Always job tree (inl b) =
      bind-Always p Good (emit-Always p Good job _ refl)
        λ job₁. bind-Always p Good (emit-Always p Good job₁ _ refl) λ job₂. give-Always p Good _
  obtain-Always job tree (inr miss) =
      bind-Always p Good (emit-Always p Good job _ refl)
        λ job₁. bind-Always p Good (ask-Always p Good _) λ answer. built-Always job₁ answer

  check_gate-Always :
      (job : JobRecord) (known : List String) → Always p Good (check_gate p ctx job known)
  unfolding check_gate
  check_gate-Always job known =
      if-Always p Good (any (λ k. str_eq k job.spec.gate) known) (give-Always p Good tt)
        (finish-fails job _ _)

  check_params-Always :
      (job : JobRecord) (bad : List String) → Always p Good (check_params p ctx job bad)
  unfolding check_params
  check_params-Always job [] = give-Always p Good tt
  check_params-Always job (b ∷ bad) = finish-fails job _ _

  pub build-Always : (job : JobRecord) (tree : FilePath) → Always p Good (build p ctx job tree)
  unfolding build
  build-Always job₀ tree = bind-Always p Good (transition-Always p Good job₀ _) λ job₁.
      bind-Always p Good (ask-Always p Good _) λ looked.
        bind-Always p Good (or_fail-fails job₁ _ _ looked) λ found.
          bind-Always p Good (obtain-Always job₁ tree found) λ got.
            let job = record got.0 { binary_sha256 = some got.1.sha256 } in
            bind-Always p Good (save-Always p Good job) λ u.
              bind-Always p Good (unless_cancelled-Always p Good ctx job cancels) λ v.
                bind-Always p Good (ask-Always p Good _) λ synced.
                  bind-Always p Good (or_fail-fails job _ _ synced) λ w.
                    bind-Always p Good (ask-Always p Good _) λ listed.
                      bind-Always p Good (or_fail-fails job _ _ listed) λ known.
                        bind-Always p Good (check_gate-Always job known) λ x.
                          bind-Always p Good (ask-Always p Good _) λ checked.
                            bind-Always p Good (or_fail-fails job _ _ checked) λ bad.
                              bind-Always p Good (check_params-Always job bad)
                                λ y. give-Always p Good _

  waited-Always : (child : ChildHandle) (plan : RunPlan) → Always p Good (waited p ctx child plan)
  unfolding waited
  waited-Always child plan = record { at = λ s. with_value _ _ }

  exit_of-Always : (job : JobRecord) (x : Fallible RunEnd) → Always p Good (exit_of p ctx job x)
  unfolding exit_of
  exit_of-Always job (success (RunEnd.exited code verdict)) = give-Always p Good _
  exit_of-Always job (success (RunEnd.stalled after_s)) =
      finish-Always p Good job _ (times_out _ after_s)
  exit_of-Always job (success (RunEnd.timed_out after_s)) =
      finish-Always p Good job _ (times_out _ after_s)
  exit_of-Always job (success RunEnd.cancelled) = finish-Always p Good job _ cancels
  exit_of-Always job (error why) = finish-fails job _ why

  at_mark-Always : (job : JobRecord) → Always p Good (at_mark p ctx job)
  unfolding at_mark
  at_mark-Always job = record { at = λ s. with_value _ _ }

  emit_verdict-Always :
      (job : JobRecord) (v : Option Verdict) → Always p Good (emit_verdict p ctx job v)
  unfolding emit_verdict
  emit_verdict-Always job none = give-Always p Good job
  emit_verdict-Always job (some v) = emit-Always p Good job _ refl

  pub await_child-Always :
      (job : JobRecord) (child : ChildHandle) (plan : RunPlan)
      → Always p Good (await_child p ctx job child plan)
  unfolding await_child
  await_child-Always job₀ child plan = bind-Always p Good (waited-Always child plan) λ answer.
      bind-Always p Good (at_mark-Always job₀) λ job₁.
        bind-Always p Good (exit_of-Always job₁ answer)
          λ ended. bind-Always p Good (emit_verdict-Always job₁ ended.1) λ job. give-Always p Good _

  pub run_child-Always :
      (job : JobRecord) (tree : FilePath) (binary : CachedBinary)
      → Always p Good (run_child p ctx job tree binary)
  unfolding run_child
  run_child-Always job₀ tree binary = bind-Always p Good (ask-Always p Good _) λ read.
      bind-Always p Good (or_fail-fails job₀ _ _ read) λ before.
        bind-Always p Good (ask-Always p Good _) λ spawned.
          let job₁ = record job₀ { records_before = before } in
          bind-Always p Good (or_fail-fails job₁ _ _ spawned) λ child.
            let held = record job₁ {
              child_pid = some child.pid;
              child_start_ticks = some child.start_ticks;
            } in
            bind-Always p Good (transition-Always p Good held JobState.running) λ job₂.
              let argv = argv_for ctx job₀ binary in
              bind-Always p Good (emit-Always p Good job₂ (EventKind.running child.pid argv) refl)
                λ job₃. await_child-Always job₃ child (plan_for p ctx job₀ tree argv)

  emit_artifacts-Always :
      (job : JobRecord) (artifacts : List ArtifactMeta)
      → Always p Good (emit_artifacts p ctx job artifacts)
  unfolding emit_artifacts
  emit_artifacts-Always job [] = give-Always p Good job
  emit_artifacts-Always job (a ∷ rest) =
      bind-Always p Good (emit-Always p Good job _ refl) λ job'. emit_artifacts-Always job' rest

  pub collect-Always : (job : JobRecord) (tree : FilePath) → Always p Good (collect p ctx job tree)
  unfolding collect
  collect-Always job₀ tree = bind-Always p Good (transition-Always p Good job₀ _) λ job₁.
      bind-Always p Good (ask-Always p Good _) λ taken.
        bind-Always p Good (or_fail-fails job₁ _ _ taken) λ artifacts.
          bind-Always p Good (emit_artifacts-Always job₁ artifacts) λ job. give-Always p Good _
