-- ===== src/Reconcile/Driver/Outcome.antt =====
-- What a closed node, a node that an action is not addressed to, and the count of rounds allow
-- (`converge` and `answer_action` of crates/metralectl-control/src/reconcile/driver.rs).
use metralectl.Prelude.{ℕ, suc, ◌+◌, ◌≤◌, ◌≡◌, ◌≢◌, refl, subst, Bool, true, false, false≢true}
use metralectl.Prelude.{Option, none, String, arith}
use metralectl.Protocol.{RecipeId, Result, ok, err}
use metralectl.Reconcile.Contract.{Desired, run, Placement}
use metralectl.Reconcile.Action.{LaunchFor, VerifiedRelease, ControlTrace}
use metralectl.Reconcile.Action.{Admission, is_open}
use metralectl.Reconcile.Answer.{Answer, answer, Control, closed_by}
use metralectl.Reconcile.Driver.{converge, observed_of, launch_for, fetch}
use metralectl.Reconcile.Driver.Attempts.{is_success, fetch-keeps}
use metralectl.Reconcile.Driver.Rounds.{Reads, EndsAt, converge-ends, with_error, with_answer}
use metralectl.Reconcile.Realised.{Realises, decide-converged_iff}

-- Whether a convergence answers that the desired state is in place.
abbrev pub succeeds : Result Answer → Bool
succeeds (err e) = false
succeeds (ok a) = is_success a.outcome

closed_by-none : (a : Admission) → closed_by a ≡ none → a ≡ is_open
unfolding closed_by
closed_by-none a e = ground arith

module _ {W : Type 0} (c : Control W) (desired : Desired) (release : Option VerifiedRelease)
    (trace : Option ControlTrace) (r : Reads c) where
  -- What is desired runs at a world.
  abbrev pub IsServed : W → Type 0
  IsServed w = Realises desired.intent desired (observed_of c desired release trace (r.running w))

  -- An answer that the desired state is in place is given where it is.
  abbrev pub IsTruthful : Result Answer × W → Type 0
  IsTruthful y = succeeds y.0 ≡ true → IsServed y.1

  ends-IsTruthful :
      (w : W) (x : Result Answer) → EndsAt c desired release trace r w x → IsTruthful (x, w)
  unfolding answer
  ends-IsTruthful w x (with_error e) good = absurd (false≢true good)
  ends-IsTruthful w x (with_answer o detail done) good =
      (decide-converged_iff desired (observed_of c desired release trace (r.running w))).0
        (done good)

  -- Over a control core whose observations are true and change nothing, a convergence that answers
  -- `applied` or `already_applied` leaves the node running what is desired, whatever the launcher
  -- did on the way.
  pub converge-IsTruthful :
      (max_steps : ℕ) (w : W) → IsTruthful (converge c desired release trace max_steps w)
  converge-IsTruthful max_steps w =
      converge-ends c desired release trace r (λ n w'. Unit) IsTruthful
        (λ n w' x u end. ends-IsTruthful w' x end) (λ n w' recipe u e free. tt)
        (λ n w' recipe u e free. (tt, tt)) max_steps w tt

  -- Over a control core whose observations are true and change nothing, converging on something to
  -- run on a cordoned or draining node touches nothing: the world is as it was, and the answer is
  -- a success only if what is desired ran already.
  pub converge-closed :
      (max_steps : ℕ) (w : W) (recipe : RecipeId) (model : String) (placement : Placement)
      → desired.intent ≡ run recipe model placement
      → c.admission w ≢ is_open
      → ((converge c desired release trace max_steps w).1 ≡ w)
        × (succeeds (converge c desired release trace max_steps w).0 ≡ true → IsServed w)
  converge-closed max_steps w recipe model placement runs shut =
      converge-ends c desired release trace r (λ n w'. w' ≡ w)
        (λ y. (y.1 ≡ w) × (succeeds y.0 ≡ true → IsServed w))
        (λ n w' x same end. (same, λ good. subst IsServed same (ends-IsTruthful w' x end good)))
        (λ n w' other same e free.
          let at_w : closed_by (c.admission w) ≡ none = rw (runs, same) at free in
          absurd (shut (closed_by-none _ at_w)))
        (λ n w' other same e free. absurd (shut (closed_by-none _ (rw same at free)))) max_steps w
        refl

  -- Over a control core whose observations are true and change nothing, a count that a fetch
  -- leaves and that a launch or a stop raises by at most one is raised by a convergence by at most
  -- `max_steps + 1`.
  pub converge-count :
      (acts : W → ℕ)
      → ((image : String) (w : W) → acts (c.fetch_image image w).1 ≡ acts w)
      → ((recipe : RecipeId) (f : LaunchFor) (w : W) → acts (c.launch recipe f w).1 ≤ suc (acts w))
      → ((recipe : RecipeId) (w : W) → acts (c.stop recipe w).1 ≤ suc (acts w))
      → (max_steps : ℕ) (w : W)
      → acts (converge c desired release trace max_steps w).1 ≤ acts w + suc max_steps
  converge-count acts fetches launches stops max_steps w =
      converge-ends c desired release trace r (λ n w'. acts w' + n ≤ acts w + suc max_steps)
        (λ y. acts y.1 ≤ acts w + suc max_steps) (λ n w' x le end. omega arith)
        (λ n w' recipe le e free. omega (arith, stops recipe w'))
        (λ n w' recipe le e free.
          let here =
            fetch-keeps c desired release trace (λ x. acts x ≡ acts w') release w'
              (λ image. fetches image w') refl in
          let again =
            launches recipe (launch_for c desired release trace)
              (fetch c desired release trace release w').1 in
          (omega arith, omega arith))
        max_steps w (omega arith)
