-- ===== src/Bench/Job.antt =====
-- A benchmark job and its events (crates/metralectl-agent/src/bench/job.rs, ports.rs;
-- crates/metralectl-protocol/src/msg/bench.rs, bench_event.rs).
use metralectl.Prelude.{ℕ, Bool, List, Option, String, take_chars}
use metralectl.Protocol.{NodeId, ℤ}

-- A commit, a gate, a job and a job's key, by their text; a path by its display.
abbrev pub Sha : Type 0
Sha = String

abbrev pub GateId : Type 0
GateId = String

abbrev pub JobId : Type 0
JobId = String

abbrev pub JobKey : Type 0
JobKey = String

abbrev pub FilePath : Type 0
FilePath = String

-- The first ten digits of a commit.
abbrev pub short_sha : Sha → String
short_sha sha = take_chars 10 sha

pub data JobState : Type 0 where
  queued preparing building running collecting done : JobState

pub data VerdictKind : Type 0 where
  pass fail info : VerdictKind

pub record Verdict : Type 0 where
  pub kind : VerdictKind
  pub text : String

pub data ArtifactKind : Type 0 where
  gate_record signature run_log extra : ArtifactKind

pub record ArtifactMeta : Type 0 where
  pub name : String
  pub relative_path : String
  pub bytes : ℕ
  pub sha256 : String
  pub kind : ArtifactKind

-- How a job ended.
pub data Outcome : Type 0 where
  completed :
      (exit_code : ℤ) (verdict : Option Verdict) (written : Option String)
      (signature : Option String)
      → Outcome
  failed : (stage : JobState) (reason : String) → Outcome
  timed_out : (stage : JobState) (after_s : ℕ) → Outcome
  cancelled : (by : NodeId) → Outcome
  orphaned : (reason : String) → Outcome

pub data LogStream : Type 0 where
  build run : LogStream

-- What happened.
pub data EventKind : Type 0 where
  queued : (position : ℕ) → EventKind
  preparing : (sha : Sha) (fetched : Bool) → EventKind
  build : (cached : Bool) (reason : String) → EventKind
  built : (binary_sha256 : String) (cached : Bool) (secs : ℕ) → EventKind
  running : (pid : ℕ) (argv : List String) → EventKind
  progress : (phase detail : String) → EventKind
  log : (stream : LogStream) (lines : List String) → EventKind
  log_truncated : (dropped_bytes : ℕ) → EventKind
  verdict : Verdict → EventKind
  artifact : ArtifactMeta → EventKind
  done : Outcome → EventKind
  heartbeat : (state : JobState) (seq_high : ℕ) → EventKind

pub record BenchEvent : Type 0 where
  pub job : JobId
  pub seq : ℕ
  pub at_ms : ℕ
  pub kind : EventKind

-- A map from a record file's name to its last write, in key order.
abbrev pub RecordState : Type 0
RecordState = List (String × ℕ)

-- What a submission asked for; the parameters in key order.
pub record JobSpec : Type 0 where
  pub sha : Sha
  pub gate : GateId
  pub params : List (String × String)
  pub checkpoint : Option String
  pub max_run_s : ℕ

pub record JobRecord : Type 0 where
  pub id : JobId
  pub key : JobKey
  pub sender : NodeId
  pub spec : JobSpec
  pub note : Option String
  pub state : JobState
  pub created_at_s : ℕ
  pub updated_at_s : ℕ
  pub child_pid : Option ℕ
  pub child_start_ticks : Option ℕ
  pub binary_sha256 : Option String
  pub records_before : RecordState
  pub seq_high : ℕ
  pub outcome : Option Outcome
