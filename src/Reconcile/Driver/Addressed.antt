-- ===== src/Reconcile/Driver/Addressed.antt =====
-- What an answer to a deployment action says of this node
-- (`answer_action` of crates/metralectl-control/src/reconcile/driver.rs).
use metralectl.Prelude.{ℕ, ◌≡◌, ◌≢◌, refl, Bool, true, false, false≢true, some}
use metralectl.Prelude.{Bool-cases, inl, inr, str_eq, eq_iff, arith}
use metralectl.Protocol.{NodeId, Result, ok, err}
use metralectl.Reconcile.Action.{DeploymentAction, DeploymentActionResult}
use metralectl.Reconcile.Answer.{Answer, answer, Control, Target, desired_for, then_do}
use metralectl.Reconcile.Driver.{answer_action, answer_now, result_of}
use metralectl.Reconcile.Driver.Attempts.{is_success}
use metralectl.Reconcile.Driver.Outcome.{IsServed, IsTruthful, converge-IsTruthful}
use metralectl.Reconcile.Driver.Rounds.{Reads}

-- Whether the plane is told that the desired state is in place.
abbrev pub reports_success : Result DeploymentActionResult → Bool
reports_success (err e) = false
reports_success (ok a) = is_success a.outcome

module _ {W : Type 0} (c : Control W) (r : Reads c) (node : NodeId) (action : DeploymentAction)
    (target : Target) where
  -- What the action asks for runs at a world.
  abbrev pub IsDone : W → Type 0
  IsDone w =
      IsServed c (desired_for action target) (some target.release)
        (some (record { attempt = action.idempotency_key; trace_id = action.trace_id })) r w

  -- An answer of success is about this node and true of it.
  abbrev pub IsHonest : W → Result DeploymentActionResult × W → Type 0
  IsHonest w y =
      (reports_success y.0 ≡ true → (action.node_id ≡ node) × IsDone y.1)
      × (action.node_id ≢ node → y.1 ≡ w)

  here-IsHonest :
      (w : W) (now : W → ℕ) (x : Result Answer × W)
      → action.node_id ≡ node
      → (IsTruthful c
          (desired_for action target)
          (some target.release)
          (some (record { attempt = action.idempotency_key; trace_id = action.trace_id }))
          r
          x)
      → IsHonest w (then_do x (λ a w. (ok (result_of c action node (now w) a), w)))
  here-IsHonest w now (err e, w') here t =
      ((λ good. absurd (false≢true good)), λ away. absurd (away here))
  here-IsHonest w now (ok a, w') here t = ((λ good. (here, t good)), λ away. absurd (away here))

  -- Over a control core whose observations are true and change nothing, an action is answered as
  -- done only by the node that it names, and only where what it asks for runs; at any other node
  -- it changes nothing.
  pub answer_action-IsHonest :
      (max_steps : ℕ) (now : W → ℕ) (w : W)
      → IsHonest w (answer_action c node action target max_steps now w)
  unfolding answer_action answer_now answer
  answer_action-IsHonest max_steps now w = elim (Bool-cases (str_eq action.node_id node)) [
    | inl here ↦ rw here (
        here-IsHonest w now _ (ground (arith, eq_iff action.node_id node))
          (converge-IsTruthful c _ _ _ r max_steps w))
    | inr away ↦ elim (r.reads w) [
      | inl read ↦ rw (away, read) ((λ good. absurd (false≢true good)), λ other. refl)
      | inr (e, failed) ↦ rw (away, failed) ((λ good. absurd (false≢true good)), λ other. refl)
    ]
  ]
