-- ===== src/Bench/Machine/Post.antt =====
-- What holds after a stretch of a job's life, by how it ends.
use metralectl.Prelude.{
  ◌/◌, ℕ, Bool, true, false, ◌≡◌, refl, List, ◌∷◌, Option, none, some, String, if◌then◌else◌,
}
use metralectl.Bench.Job.{JobRecord, JobState, Outcome, EventKind, BenchEvent}
use metralectl.Bench.Ports.{
  Ports, Ctx, Disk, M, ◌>>=◌, then_do, give, ask, Exit, value, returned, io_error, append,
  written_event,
}
use metralectl.Bench.Ports.{Fallible, success, error, is_heartbeat}
use metralectl.Bench.Machine.{
  marked, leave, saved_as, save, transition, emit, finish, or_fail, unless_cancelled,
}

module _ {W : Type 0} (p : Ports W) where
  -- The job's end is on disk: the last event and the last record written tell it.
  pub record IsRecorded (o : Outcome) (s : Disk W) : Type 0 where
    pub event : BenchEvent
    pub earlier : List BenchEvent
    pub journaled : s.journal.events ≡ event ∷ earlier
    pub tells : event.kind ≡ EventKind.done o
    pub numbered : event.seq ≡ s.journal.seq
    pub job : JobRecord
    pub older : List JobRecord
    pub stored : s.saved ≡ job ∷ older
    pub ended : job.state ≡ JobState.done
    pub ended_as : job.outcome ≡ some o
    pub no_child : job.child_pid ≡ none
    pub up_to : job.seq_high ≡ s.journal.seq

  -- The error of a write to the journal or to the store that failed.
  pub data IsWriteError (why : String) : Type 0 where
    of_event : (e : BenchEvent) (w : W) → (p.write_event e w).0 ≡ some why → IsWriteError why
    of_record : (j : JobRecord) (w : W) → (p.write_record j w).0 ≡ some why → IsWriteError why

  -- The last event tells how the job ended.
  pub record Journaled (o : Outcome) (s : Disk W) : Type 0 where
    pub event : BenchEvent
    pub earlier : List BenchEvent
    pub journaled : s.journal.events ≡ event ∷ earlier
    pub tells : event.kind ≡ EventKind.done o
    pub numbered : event.seq ≡ s.journal.seq

  Ended : Outcome → Fallible BenchEvent × Disk W → Type 0
  Ended o (success event, s) = Journaled o s
  Ended o (error why, s) = IsWriteError why

  written_event-Ended :
      (s : Disk W) (event : BenchEvent) (o : Outcome) (x : Option String × W)
      → event.kind ≡ EventKind.done o
      → ((why : String) → x.0 ≡ some why → IsWriteError why)
      → Ended o (written_event s event x)
  unfolding Ended
  written_event-Ended s event o (some why, w) e f = f why refl
  written_event-Ended s event o (none, w) e f = record {
    event = event;
    earlier = _;
    journaled = refl;
    tells = e;
    numbered = refl;
  }

  append-Ended : (o : Outcome) (now : ℕ) (s : Disk W) → Ended o (append p (EventKind.done o) now s)
  unfolding append
  append-Ended o now s =
      written_event-Ended s _ o (p.write_event _ s.world) refl
        (λ why failed. of_event _ s.world failed)

  module _ (Good : Outcome → Type 0) where
    -- A stretch ends with a value, with an I/O error, or with a good outcome that is recorded.
    pub data Ends {A : Type 0} : Exit A × Disk W → Type 0 where
      with_value : (a : A) (s : Disk W) → Ends (value a, s)
      with_io_error : (why : String) (s : Disk W) → IsWriteError why → Ends (io_error why, s)
      with_outcome : {o : Outcome} {s : Disk W} → Good o → IsRecorded o s → Ends (returned o, s)

    pub then-Ends :
        {A B : Type 0} {f : A → M W B} {x : Exit A × Disk W}
        → Ends x
        → ((a : A) (s : Disk W) → Ends (f a s))
        → Ends (then_do x f)
    then-Ends (with_value a s) k = k a s
    then-Ends (with_io_error why s failed) k = with_io_error why s failed
    then-Ends (with_outcome good there) k = with_outcome good there

    -- So it does from every disk.
    pub record Always {A : Type 0} (m : M W A) : Type 0 where
      pub at : (s : Disk W) → Ends (m s)

    pub bind-Always :
        {A B : Type 0} {m : M W A} {f : A → M W B}
        → Always m
        → ((a : A) → Always (f a))
        → Always (m >>= f)
    unfolding ◌>>=◌
    bind-Always h k = record { at = λ s. then-Ends (h.at s) (λ a s'. (k a).at s') }

    pub if-Always :
        {A : Type 0} (b : Bool) {m n : M W A} → Always m → Always n → Always (if b then m else n)
    if-Always true h k = h
    if-Always false h k = k

    pub give-Always : {A : Type 0} (a : A) → Always (give a)
    unfolding give
    give-Always a = record { at = λ s. with_value a s }

    pub ask-Always : {A : Type 0} (f : W → A × W) → Always (ask f)
    unfolding ask
    ask-Always f = record { at = λ s. with_value _ _ }

    marked-Ends :
        (job : JobRecord) (s : Disk W) (e : BenchEvent) (x : Option String × W)
        → ((why : String) → x.0 ≡ some why → IsWriteError why)
        → Ends (marked p job (written_event s e x))
    marked-Ends job s e (none, w) f = with_value _ _
    marked-Ends job s e (some why, w) f = with_io_error why _ (f why refl)

    append-Ends :
        (job : JobRecord) (kind : EventKind) (now : ℕ) (s : Disk W)
        → is_heartbeat kind ≡ false
        → Ends (marked p job (append p kind now s))
    unfolding append
    append-Ends job kind now s e =
        rw e
          (marked-Ends job s _ (p.write_event _ s.world) (λ why failed. of_event _ s.world failed))

    -- No event of a job's life is a heartbeat.
    pub emit-Always :
        (job : JobRecord) (kind : EventKind) → is_heartbeat kind ≡ false → Always (emit p job kind)
    unfolding emit
    emit-Always job kind e =
        bind-Always (ask-Always p.now_ms) (λ now. record { at = λ s. append-Ends job kind now s e })

    saved_as-Ends :
        (s : Disk W) (job : JobRecord) (x : Option String × W)
        → ((why : String) → x.0 ≡ some why → IsWriteError why)
        → Ends (saved_as p s job x)
    saved_as-Ends s job (none, w) f = with_value _ _
    saved_as-Ends s job (some why, w) f = with_io_error why _ (f why refl)

    pub save-Always : (job : JobRecord) → Always (save p job)
    unfolding save
    save-Always job = record {
      at = λ s.
          saved_as-Ends s job (p.write_record job s.world)
            (λ why failed. of_record job s.world failed);
    }

    pub transition-Always : (job : JobRecord) (state : JobState) → Always (transition p job state)
    unfolding transition
    transition-Always job state = bind-Always (ask-Always p.now_ms) (λ now. record {
      at = λ s.
          (bind-Always
              (save-Always
                (record job { state = state; updated_at_s = now / 1000; seq_high = s.journal.seq }))
              (λ u. give-Always _)).at
            s;
    })

    -- The last save of a job: with the end of it journaled, the end is on disk.
    stored-Ends :
        (s : Disk W) (job : JobRecord) (o : Outcome) (x : Option String × W)
        → Good o
        → Journaled o s
        → job.state ≡ JobState.done
        → job.outcome ≡ some o
        → job.child_pid ≡ none
        → job.seq_high ≡ s.journal.seq
        → ((why : String) → x.0 ≡ some why → IsWriteError why)
        → {A : Type 0}
        → Ends {A = A} (then_do (then_do (saved_as p s job x) (λ u. give job)) (λ e. leave p o))
    unfolding leave give
    stored-Ends s job o (some why, w) good j state told none_left mark f =
        with_io_error why _ (f why refl)
    stored-Ends s job o (none, w) good j state told none_left mark f = with_outcome good (record {
      event = j.event;
      earlier = j.earlier;
      journaled = j.journaled;
      tells = j.tells;
      numbered = j.numbered;
      job = job;
      older = s.saved;
      stored = refl;
      ended = state;
      ended_as = told;
      no_child = none_left;
      up_to = mark;
    })

    journaled-Ends :
        {A : Type 0} (job : JobRecord) (o : Outcome) (x : Fallible BenchEvent × Disk W)
        → Good o
        → job.outcome ≡ some o
        → job.child_pid ≡ none
        → Ended o x
        → Ends {A = A}
            (then_do (marked p job x) (λ job'. transition p job' JobState.done >>= λ e. leave p o))
    unfolding transition save ◌>>=◌ ask Ended
    journaled-Ends job o (error why, s) good told none_left h = with_io_error why s h
    journaled-Ends job o (success event, s) good told none_left h =
        let (now, w) = p.now_ms s.world in
        stored-Ends (record s { world = w })
          (record job {
            state = JobState.done;
            updated_at_s = now / 1000;
            seq_high = s.journal.seq;
          })
          o _ good
          (record {
            event = h.event;
            earlier = h.earlier;
            journaled = h.journaled;
            tells = h.tells;
            numbered = h.numbered;
          })
          refl told none_left refl (λ why failed. of_record _ w failed)

    pub finish-Always :
        {A : Type 0} (job : JobRecord) (o : Outcome) → Good o → Always {A = A} (finish p job o)
    unfolding finish emit ◌>>=◌ ask
    finish-Always job o good = record {
      at = λ s.
          let (now, w) = p.now_ms s.world in
          journaled-Ends
            (record job { child_pid = none; child_start_ticks = none; outcome = some o }) o _ good
            refl refl (append-Ended o now (record s { world = w }));
    }

    pub or_fail-Always :
        {A : Type 0} (job : JobRecord) (stage : JobState) (f : String → String) (x : Fallible A)
        → ((why : String) → Good (Outcome.failed stage why))
        → Always (or_fail p job stage f x)
    unfolding or_fail
    or_fail-Always job stage f (success a) good = give-Always a
    or_fail-Always job stage f (error why) good = finish-Always job _ (good _)

    pub unless_cancelled-Always :
        (ctx : Ctx) (job : JobRecord)
        → Good (Outcome.cancelled ctx.local)
        → Always (unless_cancelled p ctx job)
    unfolding unless_cancelled
    unless_cancelled-Always ctx job good =
        bind-Always (ask-Always p.cancel)
          (λ stop. if-Always stop (finish-Always job _ good) (give-Always tt))
