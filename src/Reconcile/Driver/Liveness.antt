-- ===== src/Reconcile/Driver/Liveness.antt =====
-- Over a launcher that does as it is asked, a convergence reaches what is desired
-- (`converge` of crates/metralectl-control/src/reconcile/driver.rs).
use metralectl.Prelude.{
  ℕ, zero, suc, false≢true, ◌≤◌, ◌<◌, ◌≡◌, inl, inr, refl, sym, subst, Bool, true, false, arith,
}
use metralectl.Prelude.{
  Option, none, some, String, ◌≢◌, All, Memᴰ, All-tabulate, filter, mem-filter, All-mem, length,
  eq_iff, ◌∙◌,
}
use metralectl.Protocol.{RecipeId, Result, ok, err}
use metralectl.Reconcile.{decide, is_ours}
use metralectl.Reconcile.Contract.{Desired, Instance, Intent, Observed, Step, run, stopped}
use metralectl.Reconcile.Action.{VerifiedRelease, ControlTrace, LaunchFor, Started}
use metralectl.Reconcile.Answer.{Control, Answer, M, closed_by, answer, then_do}
use metralectl.Reconcile.Safety.{mine, decide-launch}
use metralectl.Reconcile.Realised.{Realises, decide-converged_iff}
use metralectl.Reconcile.Ready.{IsReady, Progress, decide-Progress}
use metralectl.Reconcile.Driver.{
  observed_of, launch_for, fetch, attempt_launch, stop_closed, carry_out, rounds, converge,
  is_unreleased, launch_fetched, launch_reply, after_launch,
}
use metralectl.Reconcile.Driver.Rounds.{Reads}
use metralectl.Reconcile.Driver.Outcome.{succeeds, IsServed, converge-IsTruthful}
use metralectl.Reconcile.Driver.Obedient.{
  is_other, instances_of, Adds, Obeys, length-filter_without, IsReady-filter,
}

module _ {W : Type 0} (c : Control W) (desired : Desired) (release : Option VerifiedRelease)
    (trace : Option ControlTrace) (r : Reads c) (h : Obeys c r desired release trace) where
  abbrev pub seen : W → Observed
  seen w = observed_of c desired release trace (r.running w)

  -- How many workloads of the deployment run.
  abbrev pub own : W → ℕ
  own w = length (mine desired (seen w))

  lf : LaunchFor
  lf = launch_for c desired release trace

  open_here : (w : W) → closed_by (c.admission w) ≡ none
  unfolding closed_by
  open_here w = rw (h.opened w) refl

  launch_reply-started :
      (x : Result Started × W) (s : Started)
      → x.0 ≡ ok s
      → launch_reply c desired release trace x ≡ (ok none, x.1)
  unfolding launch_reply
  launch_reply-started (ok s, w) t e = refl
  launch_reply-started (err f, w) t e = absurd (cc)

  launch_fetched-started :
      (recipe : RecipeId) (x : Option String × W) (s : Started)
      → x.0 ≡ none
      → (c.launch recipe lf x.1).0 ≡ ok s
      → launch_fetched c desired release trace recipe x ≡ (ok none, (c.launch recipe lf x.1).1)
  unfolding launch_fetched lf
  launch_fetched-started recipe (some why, w) s e started = absurd (cc)
  launch_fetched-started recipe (none, w) s e started =
      launch_reply-started (c.launch recipe lf w) s started

  fetch-none :
      (x : Option VerifiedRelease) (w : W)
      → release ≡ x
      → ((fetch c desired release trace x w).0 ≡ none)
        × (r.running (fetch c desired release trace x w).1 ≡ r.running w)
  unfolding fetch
  fetch-none none w is = (refl, refl)
  fetch-none (some v) w is = (h.fetched v w is, h.unmoved v w is)

  -- The world after a launch.
  abbrev after : RecipeId → W → W
  after recipe w = (c.launch recipe lf (fetch c desired release trace release w).1).1

  -- What a launch that is decided comes to.
  launched-after :
      (recipe : RecipeId) (w : W)
      → decide desired (seen w) ≡ Step.launch recipe
      → let w' = (fetch c desired release trace release w).1 in
        ((s : Started) × ((c.launch recipe lf w').0 ≡ ok s))
        × Adds
            (record { recipe = recipe; owner = lf.owner })
            (instances_of (r.running w'))
            (instances_of (r.running (c.launch recipe lf w').1))
  unfolding lf
  launched-after recipe w e =
      let clear = decide-launch desired (seen w) recipe e in
      let same = (fetch-none release w refl).1 in
      h.launched recipe clear.model clear.placement _ clear.wanted
        (subst (λ ws. All (λ i. i.recipe ≢ recipe) (instances_of ws)) (sym same) clear.none_running)

  attempt_launch-started :
      (recipe : RecipeId) (w : W)
      → decide desired (seen w) ≡ Step.launch recipe
      → attempt_launch c desired release trace recipe w ≡ (ok none, after recipe w)
  unfolding attempt_launch
  attempt_launch-started recipe w e =
      let ((s, started), adds) = launched-after recipe w e in
      rw (open_here w, attempt_launch)
        (launch_fetched-started recipe (fetch c desired release trace release w) s
          (fetch-none release w refl).0 started)

  -- A launch on a clear node leaves nothing to do.
  after-converged :
      (recipe : RecipeId) (w : W)
      → decide desired (seen w) ≡ Step.launch recipe
      → decide desired (seen (after recipe w)) ≡ Step.converged
  unfolding lf
  after-converged recipe w e =
      let clear = decide-launch desired (seen w) recipe e in
      let (_, adds) = launched-after recipe w e in
      let kept = rw (fetch-none release w refl).1 at adds.kept in
      (decide-converged_iff desired (seen (after recipe w))).1 (
        subst (λ intent. Realises intent desired (seen (after recipe w))) (sym clear.wanted)
          (
            All-tabulate _ (seen (after recipe w)).instances (λ i m owned. elim (kept i m) [
              | inl new ↦ rw new (refl, refl)
              | inr old ↦
                  absurd
                    (false≢true (sym (All-mem _ (seen w).instances clear.none_ours old) ∙ owned))
            ]),
            (_, adds.listed, (eq_iff desired.deployment desired.deployment).1 refl),
          ))

  -- A round with nothing left to do answers a success.
  last_round :
      (n most : ℕ) (l : Option RecipeId) (w : W)
      → decide desired (seen w) ≡ Step.converged
      → succeeds (rounds c desired release trace (suc n) most true l w).0 ≡ true
  unfolding rounds carry_out answer
  last_round n most l w e = rw (h.answers w, e) refl

  stopped_round :
      (again : Bool → Option RecipeId → M W Answer) (x : Result (Unit {0}) × W)
      → x.0 ≡ ok tt
      → succeeds (again true none x.1).0 ≡ true
      → succeeds (then_do x (λ _. again true none)).0 ≡ true
  stopped_round again (ok u, w) e k = k
  stopped_round again (err f, w) e k = absurd (cc)

  stop_open : (intent : Intent) (w : W) → stop_closed c desired release trace intent w ≡ none
  stop_open (run recipe model p) w = open_here w
  stop_open stopped w = refl

  stop-IsReady :
      (recipe : RecipeId) (w : W)
      → IsReady desired (seen w)
      → IsReady desired (seen (c.stop recipe w).1)
  stop-IsReady recipe w ready =
      let (_, left) = h.stops recipe w in
      IsReady-filter desired (seen w) (seen (c.stop recipe w).1)
        (λ i m. (mem-filter (is_other recipe) (seen w).instances (subst (Memᴰ i) left m)).0) refl
        refl ready

  stop-own :
      (recipe : RecipeId) (i : Instance) (w : W)
      → Memᴰ i (seen w).instances
      → is_ours desired.deployment i ≡ true
      → i.recipe ≡ recipe
      → own (c.stop recipe w).1 < own w
  stop-own recipe i w m owned same =
      let (_, left) = h.stops recipe w in
      let out : is_other recipe i ≡ false = ground (arith, eq_iff i.recipe recipe) in
      let less =
        length-filter_without (is_ours desired.deployment) (is_other recipe) (seen w).instances m
          owned out in
      subst (λ is. length (filter (is_ours desired.deployment) is) < own w) (sym left) less

  -- One round, when every later one of a node that runs fewer of its own ends well.
  round_succeeds :
      (n most : ℕ) (acted : Bool) (w : W) (s : Step)
      → ((w' : W)
          → IsReady desired (seen w')
          → own w' < own w
          → succeeds (rounds c desired release trace (suc n) most true none w').0 ≡ true)
      → IsReady desired (seen w)
      → decide desired (seen w) ≡ s
      → Progress desired (seen w) s
      → succeeds
          (carry_out c desired release trace
            (rounds c desired release trace (suc n) most)
            acted
            none
            (r.running w)
            s
            w).0
        ≡ true
  unfolding carry_out answer after_launch
  round_succeeds n most true w s more ready e Progress.converged = refl
  round_succeeds n most false w s more ready e Progress.converged = refl
  round_succeeds n most acted w s more ready e (Progress.launches recipe) =
      rw (attempt_launch-started recipe w e)
        (last_round n most (some recipe) (after recipe w) (after-converged recipe w e))
  round_succeeds n most acted w s more ready e (Progress.stops recipe i m owned same) =
      rw (stop_open desired.intent w, carry_out)
        (stopped_round (rounds c desired release trace (suc n) most) (c.stop recipe w)
          (h.stops recipe w).0
          (more (c.stop recipe w).1 (stop-IsReady recipe w ready)
            (stop-own recipe i w m owned same)))

  first_round :
      (n most : ℕ) (acted : Bool) (w : W)
      → ((w' : W)
          → IsReady desired (seen w')
          → own w' < own w
          → succeeds (rounds c desired release trace (suc n) most true none w').0 ≡ true)
      → IsReady desired (seen w)
      → succeeds (rounds c desired release trace (suc (suc n)) most acted none w).0 ≡ true
  unfolding rounds
  first_round n most acted w more ready =
      subst
        (λ x.
          succeeds
            (then_do x (λ ws.
              carry_out c desired release trace (rounds c desired release trace (suc n) most) acted
                none ws (decide desired (observed_of c desired release trace ws)))).0
          ≡ true)
        (sym (h.answers w))
        (round_succeeds n most acted w (decide desired (seen w)) more ready refl
          (decide-Progress desired (seen w) ready))

  rounds_succeed :
      (n most : ℕ) (acted : Bool) (w : W)
      → IsReady desired (seen w)
      → own w ≤ n
      → succeeds (rounds c desired release trace (suc (suc n)) most acted none w).0 ≡ true
  rounds_succeed zero most acted w ready few =
      first_round zero most acted w (λ w' ready' less. absurd (omega (arith, few, less))) ready
  rounds_succeed (suc n) most acted w ready few =
      first_round (suc n) most acted w
        (λ w' ready' less. rounds_succeed n most true w' ready' (omega (arith, few, less))) ready

  converge-succeeds :
      (max_steps : ℕ) (w : W)
      → is_unreleased desired.intent release ≡ false
      → IsReady desired (seen w)
      → own w < max_steps
      → succeeds (converge c desired release trace max_steps w).0 ≡ true
  unfolding converge
  converge-succeeds zero w held ready few = absurd (omega (arith, few))
  converge-succeeds (suc n) w held ready few =
      rw held (rounds_succeed n (suc n) false w ready (omega (arith, few)))

  -- Over a node that is always open and always answers what runs, truly, whose launcher fetches the
  -- release's image, launches the wanted recipe for the deployment where nothing of that recipe runs,
  -- and stops what it is asked to, a convergence on what has its release answers `applied` or
  -- `already_applied` and leaves the node running what is desired, when `max_steps` is more than the
  -- number of the deployment's workloads there and the node is ready: nothing of the deployment is
  -- newer than what is desired, no workload of another has a recipe that it runs or wants, the machine
  -- is of the wanted class and has the wanted model, and its own at the desired generation is of the
  -- wanted recipe.
  pub converge-IsServed :
      (max_steps : ℕ) (w : W)
      → is_unreleased desired.intent release ≡ false
      → IsReady desired (seen w)
      → own w < max_steps
      → (succeeds (converge c desired release trace max_steps w).0 ≡ true)
        × IsServed c desired release trace r (converge c desired release trace max_steps w).1
  converge-IsServed max_steps w held ready few =
      let good = converge-succeeds max_steps w held ready few in
      (good, converge-IsTruthful c desired release trace r max_steps w good)
