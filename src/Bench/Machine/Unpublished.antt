-- ===== src/Bench/Machine/Unpublished.antt =====
-- What a commit that is not on the trusted remote gets to do on a node
-- (crates/metralectl-agent/src/bench/machine.rs).
use metralectl.Prelude.{
  ℕ, ◌/◌, Bool, true, false, ◌≡◌, ◌≢◌, refl, sym, Option, none, some, String, if◌then◌else◌,
}
use metralectl.Prelude.{false≢true}
use metralectl.Bench.Job.{JobRecord, JobState, Outcome, EventKind, BenchEvent, Sha}
use metralectl.Bench.Ports.{
  Ports, Ctx, Disk, M, ◌>>=◌, then_do, give, ask, Exit, value, returned, io_error,
}
use metralectl.Bench.Ports.{append, written_event, Fallible, success, error}
use metralectl.Bench.Machine.{save, saved_as, transition, emit, marked, finish, leave, or_fail}
use metralectl.Bench.Machine.Prepare.{found_after_fetch, found, reachable, check_published, prepare}
use metralectl.Bench.Machine.Collect.{run}

-- What the calls of bookkeeping, and of looking a commit up, leave as it is.
pub record IsKept {W : Type 0} (p : Ports W) (Q : W → Type 0) : Type 0 where
  pub now_ms : (w : W) → Q w → Q (p.now_ms w).1
  pub write_event : (e : BenchEvent) (w : W) → Q w → Q (p.write_event e w).1
  pub write_record : (j : JobRecord) (w : W) → Q w → Q (p.write_record j w).1
  pub has_commit : (sha : Sha) (w : W) → Q w → Q (p.has_commit sha w).1
  pub fetch : (w : W) → Q w → Q (p.fetch w).1
  pub published : (sha : Sha) (w : W) → Q w → Q (p.published sha w).1

module _ {W : Type 0} (p : Ports W) (ctx : Ctx) (Q : W → Type 0) (kept : IsKept p Q) where
  -- `V` is false of a stretch that never ends with a value.
  data Kept {A : Type 0} (V : A → Type 0) : Exit A × Disk W → Type 0 where
    with_value : (a : A) (s : Disk W) → V a → Q s.world → Kept V (value a, s)
    with_outcome : (o : Outcome) (s : Disk W) → Q s.world → Kept V (returned o, s)
    with_io_error : (why : String) (s : Disk W) → Q s.world → Kept V (io_error why, s)

  Kept-world : {A : Type 0} {V : A → Type 0} {x : Exit A × Disk W} → Kept V x → Q x.1.world
  Kept-world (with_value a s v q) = q
  Kept-world (with_outcome o s q) = q
  Kept-world (with_io_error why s q) = q

  record Keeps {A : Type 0} (V : A → Type 0) (m : M W A) : Type 0 where
    at : (s : Disk W) → Q s.world → Kept V (m s)

  abbrev Any : {A : Type 0} → A → Type 0
  Any a = Unit

  abbrev Never : {A : Type 0} → A → Type 0
  Never a = ⊥

  then-Kept :
      {A B : Type 0} {V : A → Type 0} {V' : B → Type 0} {f : A → M W B} {x : Exit A × Disk W}
      → Kept V x
      → ((a : A) → V a → Keeps V' (f a))
      → Kept V' (then_do x f)
  then-Kept (with_value a s v q) k = (k a v).at s q
  then-Kept (with_outcome o s q) k = with_outcome o s q
  then-Kept (with_io_error why s q) k = with_io_error why s q

  bind-Keeps :
      {A B : Type 0} {V : A → Type 0} {V' : B → Type 0} {m : M W A} {f : A → M W B}
      → Keeps V m
      → ((a : A) → V a → Keeps V' (f a))
      → Keeps V' (m >>= f)
  unfolding ◌>>=◌
  bind-Keeps h k = record { at = λ s q. then-Kept (h.at s q) k }

  give-Keeps : {A : Type 0} (V : A → Type 0) (a : A) → V a → Keeps V (give a)
  unfolding give
  give-Keeps V a v = record { at = λ s q. with_value a s v q }

  ask-Keeps :
      {A : Type 0} (V : A → Type 0) (f : W → A × W)
      → ((w : W) → Q w → V (f w).0 × Q (f w).1)
      → Keeps V (ask f)
  unfolding ask
  ask-Keeps V f h = record { at = λ s q. let (v, q') = h s.world q in with_value _ _ v q' }

  marked-Kept :
      (job : JobRecord) (s : Disk W) (e : BenchEvent) (x : Option String × W)
      → Q x.1
      → Kept Any (marked p job (written_event s e x))
  marked-Kept job s e (none, w) q = with_value _ _ tt q
  marked-Kept job s e (some why, w) q = with_io_error why _ q

  append-Kept :
      (job : JobRecord) (kind : EventKind) (now : ℕ) (s : Disk W)
      → Q s.world
      → Kept Any (marked p job (append p kind now s))
  unfolding append
  append-Kept job (EventKind.heartbeat a b) now s q = with_io_error _ s q
  append-Kept job kind now s q =
      marked-Kept job s _ (p.write_event _ s.world) (kept.write_event _ _ q)

  emit-Keeps : (job : JobRecord) (kind : EventKind) → Keeps Any (emit p job kind)
  unfolding emit
  emit-Keeps job kind =
      bind-Keeps (ask-Keeps Any p.now_ms (λ w q. (tt, kept.now_ms w q)))
        (λ now u. record { at = λ s q. append-Kept job kind now s q })

  saved_as-Kept :
      (s : Disk W) (job : JobRecord) (x : Option String × W) → Q x.1 → Kept Any (saved_as p s job x)
  saved_as-Kept s job (none, w) q = with_value _ _ tt q
  saved_as-Kept s job (some why, w) q = with_io_error why _ q

  save-Keeps : (job : JobRecord) → Keeps Any (save p job)
  unfolding save
  save-Keeps job = record {
    at = λ s q. saved_as-Kept s job (p.write_record job s.world) (kept.write_record _ _ q);
  }

  transition-Keeps : (job : JobRecord) (state : JobState) → Keeps Any (transition p job state)
  unfolding transition
  transition-Keeps job state =
      bind-Keeps (ask-Keeps Any p.now_ms (λ w q. (tt, kept.now_ms w q))) λ now u. record {
        at = λ s q.
            (bind-Keeps
                (save-Keeps (record job {
                  state = state;
                  updated_at_s = now / 1000;
                  seq_high = s.journal.seq;
                }))
                (λ v h. give-Keeps Any _ tt)).at
              s q;
      }

  finish-Keeps :
      {A : Type 0} (V : A → Type 0) (job : JobRecord) (o : Outcome) → Keeps V (finish p job o)
  unfolding finish leave
  finish-Keeps V job o =
      bind-Keeps
        (emit-Keeps (record job { child_pid = none; child_start_ticks = none; outcome = some o })
          (EventKind.done o))
        λ job' u.
          bind-Keeps (transition-Keeps job' JobState.done)
            λ ended v. record { at = λ s q. with_outcome o s q }

  or_fail-Keeps :
      {A : Type 0} (V : A → Type 0) (job : JobRecord) (stage : JobState) (f : String → String)
      (x : Fallible A)
      → ((a : A) → x ≡ success a → V a)
      → Keeps V (or_fail p job stage f x)
  unfolding or_fail
  or_fail-Keeps V job stage f (success a) h = give-Keeps V a (h a refl)
  or_fail-Keeps V job stage f (error why) h = finish-Keeps V job _

  found-Keeps : (job : JobRecord) (here : Bool) → Keeps Any (found p ctx job here)
  unfolding found found_after_fetch
  found-Keeps job true = give-Keeps Any false tt
  found-Keeps job false = bind-Keeps (ask-Keeps Any p.fetch (λ w q. (tt, kept.fetch w q))) λ x u.
      bind-Keeps (or_fail-Keeps Any job _ _ x (λ a e. tt)) λ v h.
        bind-Keeps (ask-Keeps Any _ (λ w q. (tt, kept.has_commit job.spec.sha w q)))
          λ y k. bind-Keeps (or_fail-Keeps Any job _ _ y (λ a e. tt)) λ here l. again here
    where
      again : (here : Bool) → Keeps Any (found_after_fetch p ctx job here)
      again true = give-Keeps Any true tt
      again false = finish-Keeps Any job _

  module _ (unpublished : (sha : Sha) (w : W) → (p.published sha w).0 ≢ success true) where
    abbrev IsNo : Fallible Bool → Type 0
    IsNo x = x ≢ success true

    not_published :
        (x : Fallible Bool) → IsNo x → (known : Bool) → x ≡ success known → known ≡ false
    not_published x denied true e = absurd (denied e)
    not_published x denied false e = refl

    check_published-Keeps : (job : JobRecord) → Keeps Never (check_published p ctx job)
    unfolding check_published reachable
    check_published-Keeps job =
        bind-Keeps
          (ask-Keeps IsNo (p.published job.spec.sha)
            (λ w q. (unpublished job.spec.sha w, kept.published job.spec.sha w q)))
          λ x denied.
            bind-Keeps (or_fail-Keeps (λ known. known ≡ false) job _ _ x (not_published x denied))
              λ known e. refused known e
      where
        refused : (known : Bool) → known ≡ false → Keeps Never (reachable p ctx job known)
        refused true e = absurd (false≢true (sym e))
        refused false e = finish-Keeps Never job _

    asked-Keeps :
        (job : JobRecord) (lenient : Bool)
        → lenient ≡ false
        → Keeps Never (if lenient then give tt else check_published p ctx job)
    asked-Keeps job true strict = absurd (false≢true (sym strict))
    asked-Keeps job false strict = check_published-Keeps job

    prepare-Keeps :
        ctx.allow_unpublished ≡ false → (job : JobRecord) → Keeps Never (prepare p ctx job)
    unfolding prepare
    prepare-Keeps strict job₀ = bind-Keeps (transition-Keeps job₀ _) λ job u.
        bind-Keeps
          (ask-Keeps Any (p.has_commit job.spec.sha)
            (λ w q. (tt, kept.has_commit job.spec.sha w q)))
          λ x v. bind-Keeps (or_fail-Keeps Any job _ _ x (λ a e. tt)) λ here h.
            bind-Keeps (found-Keeps job here) λ fetched k.
              bind-Keeps (asked-Keeps job ctx.allow_unpublished strict)
                λ never denied. absurd denied

    -- Where the trusted remote says of no commit that it has it, and this node does not allow
    -- unpublished ones, a job does no more than its bookkeeping, a look for the commit, a fetch and
    -- the question: whatever those calls keep is kept. So nothing is checked out, built or run.
    pub run-unpublished :
        ctx.allow_unpublished ≡ false
        → (job : JobRecord) (s : Disk W) → Q s.world
        → Q (run p ctx job s).1.world
    unfolding run ◌>>=◌
    run-unpublished strict job s q =
        Kept-world {V = Never}
          (then-Kept ((prepare-Keeps strict job).at s q) (λ prepared denied. absurd denied))
