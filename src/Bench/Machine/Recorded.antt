-- ===== src/Bench/Machine/Recorded.antt =====
-- Every end of a benchmark job is on disk, a fresh run's and a resumed one's
-- (crates/metralectl-agent/src/bench/machine.rs, machine/resume.rs).
use metralectl.Prelude.{ℕ, false, ◌≡◌, List, Option, none, some, String}
use metralectl.Prelude.{inl, inr, Bool-cases}
use metralectl.Protocol.{ℤ}
use metralectl.Bench.Job.{JobRecord, Outcome, FilePath, Verdict, ArtifactMeta}
use metralectl.Bench.Job.{completed}
use metralectl.Bench.Ports.{Ports, Ctx, Disk}
use metralectl.Bench.Ports.{Fallible, success, error, ChildHandle}
use metralectl.Bench.Machine.Collect.{
  conclude, run, resume_child, resume_running, resume_recorded, tree_of,
}
use metralectl.Bench.Machine.Collect.{wrote_nothing, is_record, is_zero, first_path}
use metralectl.Bench.Machine.Post.{Always, bind-Always, give-Always, ask-Always}
use metralectl.Bench.Machine.Post.{finish-Always}
use metralectl.Bench.Machine.Post.{Ends}
use metralectl.Bench.Machine.Stages.{
  prepare-Always, build-Always, run_child-Always, await_child-Always,
}
use metralectl.Bench.Machine.Stages.{collect-Always}

-- A child that exited with 0 is credited with success only with a record that it wrote.
abbrev pub IsCredited : Outcome → Type 0
IsCredited (completed code verdict none signature) = is_zero code ≡ false
IsCredited o = Unit

abbrev pub AnyOutcome : Outcome → Type 0
AnyOutcome o = Unit

module _ {W : Type 0} (p : Ports W) (ctx : Ctx) where
  credited :
      (code : ℤ) (verdict : Option Verdict) (r signature : Option String)
      → elim r [ none ↦ is_zero code | some x ↦ false ] ≡ false
      → IsCredited (completed code verdict r signature)
  credited code verdict none signature e = e
  credited code verdict (some r) signature e = tt

  conclude-Always :
      (job : JobRecord) (ended : ℤ × Option Verdict) (artifacts : List ArtifactMeta)
      → Always p IsCredited {A = ⊥} (conclude p ctx job ended artifacts)
  unfolding conclude
  conclude-Always job (code, verdict) artifacts =
      elim (Bool-cases (wrote_nothing p ctx code artifacts)) [
        | inl empty ↦ rw empty (finish-Always p IsCredited job _ tt)
        | inr wrote ↦ rw wrote (
            finish-Always p IsCredited job _
              (credited code verdict (first_path is_record artifacts) _ wrote))
      ]

  -- A run ends with the error of a write to the journal or the store that failed, or returns an
  -- outcome that is on disk: the last event of the journal is that outcome's `Done`, the last
  -- record saved is in state `Done` with that outcome and no child, and no `Completed` with exit
  -- code 0 is without a record that was collected.
  pub run-IsRecorded : (job : JobRecord) (s : Disk W) → Ends p IsCredited (run p ctx job s)
  unfolding run
  run-IsRecorded job =
      (bind-Always p IsCredited (prepare-Always p ctx IsCredited (λ a b. tt) (λ a b. tt) tt job)
        λ prepared.
          bind-Always p IsCredited
            (build-Always p ctx IsCredited (λ a b. tt) (λ a b. tt) tt prepared.0 prepared.1)
            λ ready.
              bind-Always p IsCredited
                (run_child-Always p ctx IsCredited (λ a b. tt) (λ a b. tt) tt ready.0 prepared.1
                  ready.1)
                λ ran.
                  bind-Always p IsCredited
                    (collect-Always p ctx IsCredited (λ a b. tt) (λ a b. tt) tt ran.0 prepared.1)
                    λ kept. conclude-Always kept.0 ran.1 kept.1).at

  resume_child-Always :
      (job : JobRecord) (child : ChildHandle) → Always p AnyOutcome (resume_child p ctx job child)
  unfolding resume_child tree_of
  resume_child-Always job child = bind-Always p AnyOutcome (ask-Always p AnyOutcome _) λ made.
      bind-Always p AnyOutcome (tree_of-Always made) λ tree.
        bind-Always p AnyOutcome
          (await_child-Always p ctx AnyOutcome (λ a b. tt) (λ a b. tt) tt job child _)
          λ ran.
            bind-Always p AnyOutcome
              (collect-Always p ctx AnyOutcome (λ a b. tt) (λ a b. tt) tt ran.0 tree)
              λ kept. finish-Always p AnyOutcome kept.0 _ tt
    where
      tree_of-Always : (x : Fallible FilePath) → Always p AnyOutcome (tree_of p ctx job x)
      tree_of-Always (success tree) = give-Always p AnyOutcome tree
      tree_of-Always (error why) = finish-Always p AnyOutcome job _ tt

  resume_recorded-Always :
      (job : JobRecord) (pid ticks : Option ℕ)
      → Always p AnyOutcome (resume_recorded p ctx job pid ticks)
  unfolding resume_recorded
  resume_recorded-Always job (some pid) (some ticks) = resume_child-Always job _
  resume_recorded-Always job (some pid) none = finish-Always p AnyOutcome job _ tt
  resume_recorded-Always job none ticks = finish-Always p AnyOutcome job _ tt

  -- A resumed run, too, ends with the error of a write that failed, or returns an outcome that is
  -- on disk: the last event of the journal and the last record saved tell it, and the record has no
  -- child.
  pub resume_running-IsRecorded :
      (job : JobRecord) (s : Disk W) → Ends p AnyOutcome (resume_running p ctx job s)
  unfolding resume_running
  resume_running-IsRecorded job =
      (resume_recorded-Always job job.child_pid job.child_start_ticks).at
