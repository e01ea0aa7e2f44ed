-- ===== src/Bench/Machine.antt =====
-- How a job's life is recorded, and how it ends
-- (crates/metralectl-agent/src/bench/machine.rs, `transition`, `emit`, `finish`).
mod Prepare
mod Build
pub mod Run
pub mod Post
mod Stages
pub mod Recorded
pub mod Unpublished
pub mod Collect
use metralectl.Prelude.{
  ℕ, ◌/◌, Bool, true, false, List, [], ◌∷◌, Option, none, some, String, if◌then◌else◌, ◌<>◌,
}
use metralectl.Prelude.{◌⊎◌, inl, inr, str_eq, not, any}
use metralectl.Bench.Job.{JobRecord, JobState, Outcome, EventKind, BenchEvent, failed, cancelled}
use metralectl.Bench.Ports.{
  Ports, Ctx, Disk, M, ◌>>=◌, give, ask, Exit, value, returned, io_error, append,
}
use metralectl.Bench.Ports.{Fallible, success, error}

module _ {W : Type 0} (p : Ports W) where
  -- What a save leaves, once the record was written or not.
  abbrev pub saved_as : Disk W → JobRecord → Option String × W → Exit (Unit {0}) × Disk W
  saved_as s job (some why, w) = (io_error why, record s { world = w })
  saved_as s job (none, w) = (value tt, record s { world = w; saved = job ∷ s.saved })

  -- `JobStore::save`.
  unfoldable pub save : JobRecord → M W (Unit {0})
  save job s = saved_as s job (p.write_record job s.world)

  unfoldable pub transition : JobRecord → JobState → M W JobRecord
  unfolding save
  transition job state = do
    now ← ask p.now_ms
    λ s.
        let job' = record job {
          state = state;
          updated_at_s = now / 1000;
          seq_high = s.journal.seq;
        } in
        (save job' >>= λ u. give job') s

  -- `?` of an append, and the job's high mark.
  abbrev pub marked : JobRecord → Fallible BenchEvent × Disk W → Exit JobRecord × Disk W
  marked job (error why, s) = (io_error why, s)
  marked job (success event, s) = (value (record job { seq_high = s.journal.seq }), s)

  unfoldable pub emit : JobRecord → EventKind → M W JobRecord
  emit job kind = do now ← ask p.now_ms; λ s. marked job (append p kind now s)

  unfoldable pub leave : {A : Type 0} → Outcome → M W A
  leave outcome s = (returned outcome, s)

  -- Record how the job ended, and return it.
  unfoldable pub finish : {A : Type 0} → JobRecord → Outcome → M W A
  unfolding emit transition
  finish job outcome = do
    job' ←
        emit (record job { child_pid = none; child_start_ticks = none; outcome = some outcome })
          (EventKind.done outcome)
    ended ← transition job' JobState.done
    leave outcome

  -- A port's answer, or its error as the job's outcome; `f` writes the reason.
  unfoldable pub or_fail :
      {A : Type 0} → JobRecord → JobState → (String → String) → Fallible A → M W A
  unfolding finish
  or_fail job stage f (success a) = give a
  or_fail job stage f (error why) = finish job (failed stage (f why))

  -- `if cancelled() { return finish(.. Cancelled ..) }`.
  unfoldable pub unless_cancelled : Ctx → JobRecord → M W (Unit {0})
  unfolding finish
  unless_cancelled ctx job = do
    stop ← ask p.cancel
    if stop then finish job (cancelled ctx.local) else give tt

abbrev pub same : String → String
same why = why
