-- ===== src/Bench/Tests.antt =====
-- A job's life on a concrete machine, and the theorems at it.
use metralectl.Prelude.{ℕ, suc, ◌≡◌, refl, none, some, List, [], ◌∷◌, Bool, true, false}
use metralectl.Prelude.{inl}
use metralectl.Protocol.{pos}
use metralectl.Bench.Job.{JobRecord, JobState, Outcome, completed, ArtifactMeta, ArtifactKind}
use metralectl.Bench.Ports.{Ports, Ctx, Disk, returned, success, error, RunEnd, append}
use metralectl.Bench.Ports.{give, ask, ◌>>=◌}
use metralectl.Bench.Machine.Collect.{run, resume_running}
use metralectl.Bench.Machine.{leave}
use metralectl.Bench.Machine.Run.{at_mark, emit_verdict}
use metralectl.Bench.Machine.Post.{Ends}
use metralectl.Bench.Machine.Recorded.{
  IsCredited, AnyOutcome, run-IsRecorded, resume_running-IsRecorded,
}
use metralectl.Bench.Machine.Unpublished.{IsKept, run-unpublished}

-- The world: a clock, and whether a commit was checked out, built or run.
record Machine : Type 0 where
  clock : ℕ
  touched : Bool

abbrev later : Machine → Machine
later w = record w { clock = suc w.clock }

abbrev touch : Machine → Machine
touch w = record w { touched = true }

-- A machine whose trusted remote has no commit, and whose gate exits 0 and writes `artifacts`.
abbrev machine : List ArtifactMeta → Ports Machine
machine artifacts = record {
  now_ms = λ w. (w.clock, later w);
  cancel = λ w. (false, w);
  write_event = λ e w. (none, later w);
  write_record = λ j w. (none, later w);
  has_commit = λ sha w. (success true, w);
  fetch = λ w. (success tt, later w);
  published = λ sha w. (success false, w);
  worktree = λ sha w. (success "tree", touch w);
  cached_binary = λ sha w. (success (inl (record { path = "bin"; sha256 = "00" })), w);
  build = λ sha tree w. (error "no compiler", touch w);
  ensure_recipes = λ path w. (success false, w);
  known_gates = λ path w. (success ("g" ∷ []), w);
  bad_params = λ path gate keys w. (success [], w);
  spawn = λ plan w. (success (record { pid = 7; start_ticks = 8 }), touch w);
  wait = λ child plan w. ((success (RunEnd.exited (pos 0) none), []), w);
  record_state = λ tree gate w. (success [], w);
  collect = λ tree gate before dest w. (success artifacts, w);
  log_path = λ id. "log";
  artifacts_dir = λ id. "artifacts";
}

abbrev node : Bool → Ctx
node lenient = record {
  local = "n";
  hardware = "gb10";
  child_env = [];
  stall_timeout = 5;
  build_timeout = 60;
  allow_unpublished = lenient;
  serve_reuse = false;
  agent_pid = 3;
}

abbrev job : JobRecord
job = record {
  id = "jb-1-00";
  key = "k";
  sender = "m";
  spec = record { sha = "0123456789ab"; gate = "g"; params = []; checkpoint = none; max_run_s = 9 };
  note = none;
  state = JobState.queued;
  created_at_s = 1;
  updated_at_s = 1;
  child_pid = some 7;
  child_start_ticks = some 8;
  binary_sha256 = none;
  records_before = [];
  seq_high = 0;
  outcome = none;
}

abbrev disk : Disk Machine
disk = record {
  world = record { clock = 5; touched = false };
  journal = record { job = "jb-1-00"; seq = 0; events = [] };
  saved = [];
}

abbrev result : ArtifactMeta
result = record {
  name = "r.json";
  relative_path = ".benchmarks/g/r.json";
  bytes = 2;
  sha256 = "01";
  kind = ArtifactKind.gate_record;
}

-- A fresh run of a gate that exits 0 and writes no record has failed.
fresh_unrecorded :
    (run (machine []) (node true) job disk).0
    ≡ returned (Outcome.failed JobState.collecting "the child exited 0 but wrote no gate record")
unfolding run leave give ask ◌>>=◌ append at_mark emit_verdict
fresh_unrecorded = refl

-- The same run, resumed after a restart, is completed.
resumed_unrecorded :
    (resume_running (machine []) (node true) job disk).0
    ≡ returned (completed (pos 0) none none none)
unfolding resume_running leave give ask ◌>>=◌ append at_mark emit_verdict
resumed_unrecorded = refl

run-IsRecorded_example :
    Ends (machine (result ∷ [])) IsCredited (run (machine (result ∷ [])) (node true) job disk)
run-IsRecorded_example = run-IsRecorded (machine (result ∷ [])) (node true) job disk

resume_running-IsRecorded_example :
    Ends (machine []) AnyOutcome (resume_running (machine []) (node true) job disk)
resume_running-IsRecorded_example = resume_running-IsRecorded (machine []) (node true) job disk

abbrev Untouched : Machine → Type 0
Untouched w = w.touched ≡ false

machine-IsKept : IsKept (machine []) Untouched
machine-IsKept = record {
  now_ms = λ w q. q;
  write_event = λ e w q. q;
  write_record = λ j w q. q;
  has_commit = λ sha w q. q;
  fetch = λ w q. q;
  published = λ sha w q. q;
}

run-unpublished_example : (run (machine []) (node false) job disk).1.world.touched ≡ false
run-unpublished_example =
    run-unpublished (machine []) (node false) Untouched machine-IsKept (λ sha w e. cc) refl job disk
      refl
