-- ===== src/Bench/Ports.antt =====
-- What a job's life asks of the machine (crates/metralectl-agent/src/bench/ports.rs), its journal
-- (crates/metralectl-agent/src/bench/journal.rs), and the program that the life is written in.
use metralectl.Prelude.{ℕ, ◌+◌, ◌%◌, ◌^◌, Bool, true, false, List, ◌∷◌, Option, none, some, String}
use metralectl.Prelude.{◌⊎◌, if◌then◌else◌}
pub use metralectl.Prelude.{Fallible, success, error}
use metralectl.Protocol.{NodeId, ℤ}
use metralectl.Bench.Job.{
  Sha, FilePath, JobId, JobRecord, BenchEvent, EventKind, Verdict, ArtifactMeta,
}
use metralectl.Bench.Job.{RecordState, Outcome}

pub record CachedBinary : Type 0 where
  pub path : FilePath
  pub sha256 : String

pub data CacheMiss : Type 0 where
  no_build no_provenance : CacheMiss
  wrong_sha : String → CacheMiss
  hash_mismatch : CacheMiss

pub record BuildResult : Type 0 where
  pub binary : CachedBinary
  pub secs : ℕ

pub record ChildHandle : Type 0 where
  pub pid : ℕ
  pub start_ticks : ℕ

pub data RunEnd : Type 0 where
  exited : (code : ℤ) (verdict : Option Verdict) → RunEnd
  stalled : (after_s : ℕ) → RunEnd
  timed_out : (after_s : ℕ) → RunEnd
  cancelled : RunEnd

-- The durations in seconds.
pub record RunPlan : Type 0 where
  pub argv : List String
  pub cwd : FilePath
  pub env : List (String × String)
  pub log_path : FilePath
  pub stall_timeout : ℕ
  pub max_run : ℕ

-- The machine over a world `W` that every call may change. `some` of a write is its error. A wait
-- hands back the events that it emitted, the first one first. `log_path` and `artifacts_dir` are
-- the store's paths.
pub record Ports (W : Type 0) : Type 0 where
  pub now_ms : W → ℕ × W
  pub cancel : W → Bool × W
  pub write_event : BenchEvent → W → Option String × W
  pub write_record : JobRecord → W → Option String × W
  pub has_commit : Sha → W → Fallible Bool × W
  pub fetch : W → Fallible (Unit {0}) × W
  pub published : Sha → W → Fallible Bool × W
  pub worktree : Sha → W → Fallible FilePath × W
  pub cached_binary : Sha → W → Fallible (CachedBinary ⊎ CacheMiss) × W
  pub build : Sha → FilePath → W → Fallible BuildResult × W
  pub ensure_recipes : FilePath → W → Fallible Bool × W
  pub known_gates : FilePath → W → Fallible (List String) × W
  pub bad_params : FilePath → String → List String → W → Fallible (List String) × W
  pub spawn : RunPlan → W → Fallible ChildHandle × W
  pub wait : ChildHandle → RunPlan → W → (Fallible RunEnd × List EventKind) × W
  pub record_state : FilePath → String → W → Fallible RecordState × W
  pub collect : FilePath → String → RecordState → FilePath → W → Fallible (List ArtifactMeta) × W
  pub log_path : JobId → FilePath
  pub artifacts_dir : JobId → FilePath

-- The node that runs the job: what `Ctx` holds beside the ports, the store and the journal.
pub record Ctx : Type 0 where
  pub local : NodeId
  pub hardware : String
  pub child_env : List (String × String)
  pub stall_timeout : ℕ
  pub build_timeout : ℕ
  pub allow_unpublished : Bool
  pub serve_reuse : Bool
  pub agent_pid : ℕ

-- One job's journal: its counter, and the events whose append succeeded, the newest first.
pub record Journal : Type 0 where
  pub job : JobId
  pub seq : ℕ
  pub events : List BenchEvent

-- The world, the journal, and every record that was written for the job, the newest first.
pub record Disk (W : Type 0) : Type 0 where
  pub world : W
  pub journal : Journal
  pub saved : List JobRecord

-- How a stretch of the code ends: with a value, by returning the job's outcome, or by an I/O error
-- of the store or the journal.
pub data Exit (A : Type 0) : Type 0 where
  value : A → Exit A
  returned : Outcome → Exit A
  io_error : String → Exit A

abbrev pub M : Type 0 → Type 0 → Type 0
M W A = Disk W → Exit A × Disk W

abbrev pub then_do : {W A B : Type 0} → Exit A × Disk W → (A → M W B) → Exit B × Disk W
then_do (value a, s) f = f a s
then_do (returned o, s) f = (returned o, s)
then_do (io_error why, s) f = (io_error why, s)

infixl 5 ◌>>=◌
unfoldable pub ◌>>=◌ : {W A B : Type 0} → M W A → (A → M W B) → M W B
◌>>=◌ m f s = then_do (m s) f

unfoldable pub give : {W A : Type 0} → A → M W A
give a s = (value a, s)

-- A call of the machine.
abbrev pub on_world : {W A : Type 0} → Disk W → A × W → Exit A × Disk W
on_world s (a, w) = (value a, record s { world = w })

unfoldable pub ask : {W A : Type 0} → (W → A × W) → M W A
ask f s = on_world s (f s.world)

abbrev pub is_heartbeat : EventKind → Bool
is_heartbeat (EventKind.heartbeat state seq_high) = true
is_heartbeat kind = false

abbrev pub u64 : ℕ → ℕ
u64 n = n % 2 ^ 64

-- What the append of an event leaves, once the file was written or not.
abbrev pub written_event :
    {W : Type 0} → Disk W → BenchEvent → Option String × W → Fallible BenchEvent × Disk W
written_event s event (some why, w) = (error why, record s { world = w })
written_event s event (none, w) = (
  success event,
  record s {
    world = w;
    journal = record { job = s.journal.job; seq = event.seq; events = event ∷ s.journal.events };
  },
)

-- Append one event, with the next number.
unfoldable pub append :
    {W : Type 0} → Ports W → EventKind → ℕ → Disk W → Fallible BenchEvent × Disk W
append p kind at_ms s =
    if is_heartbeat kind
    then (error "heartbeats are never journaled", s)
    else (let event : BenchEvent = record {
      job = s.journal.job;
      seq = u64 (s.journal.seq + 1);
      at_ms = at_ms;
      kind = kind;
    } in
        written_event s event (p.write_event event s.world))
