-- ===== src/Reconcile/Driver/Attempts.antt =====
-- What an attempted launch answers: never a success, and the world that its calls left.
use metralectl.Prelude.{◌≡◌, inl, inr, refl, Bool, true, false, Option}
use metralectl.Prelude.{none, some, String, Option-cases, arith}
use metralectl.Protocol.{RecipeId, AgentError, Result, ok, err}
use metralectl.Reconcile.Contract.{Desired, Intent, run, stopped}
use metralectl.Reconcile.Action.{ActionOutcome, VerifiedRelease, ControlTrace, Started}
use metralectl.Reconcile.Action.{Admission}
use metralectl.Reconcile.Answer.{Control, closed_by}
use metralectl.Reconcile.Driver.{launch_reply, launch_fetched, fetch, attempt_launch}
use metralectl.Reconcile.Driver.{stop_closed, launch_for}

abbrev pub is_success : ActionOutcome → Bool
is_success ActionOutcome.applied = true
is_success ActionOutcome.already_applied = true
is_success o = false

module _ {W : Type 0} (c : Control W) (desired : Desired) (release : Option VerifiedRelease)
    (trace : Option ControlTrace) where
  -- An attempted launch answers with no success.
  abbrev pub IsAttempt : Result (Option (ActionOutcome × Option String)) → Type 0
  IsAttempt (err e) = Unit
  IsAttempt (ok none) = Unit
  IsAttempt (ok (some (o, detail))) = is_success o ≡ false

  pub closed_by-IsAttempt :
      (a : Admission) (o : ActionOutcome) → closed_by a ≡ some o → is_success o ≡ false
  unfolding closed_by
  closed_by-IsAttempt a o e = ground arith

  pub stop_closed-IsAttempt :
      (intent : Intent) (w : W) (o : ActionOutcome)
      → stop_closed c desired release trace intent w ≡ some o
      → is_success o ≡ false
  stop_closed-IsAttempt (run recipe model placement) w o e = closed_by-IsAttempt _ o e
  stop_closed-IsAttempt stopped w o e = absurd (cc)

  launch_reply-IsAttempt :
      (x : Result Started × W) → IsAttempt (launch_reply c desired release trace x).0
  unfolding launch_reply
  launch_reply-IsAttempt (ok s, w) = tt
  launch_reply-IsAttempt (err (AgentError.launch_failed detail), w) = refl
  launch_reply-IsAttempt (err (AgentError.docker_unavailable detail), w) = refl
  launch_reply-IsAttempt (err (AgentError.not_launchable a b), w) =
      elim (Option-cases (closed_by (c.admission w))) [
        | inl free ↦ rw (free, launch_reply) tt
        | inr (o, shut) ↦ rw (shut, launch_reply) (closed_by-IsAttempt _ o shut)
      ]
  launch_reply-IsAttempt (err e, w) = tt

  launch_fetched-IsAttempt :
      (recipe : RecipeId) (x : Option String × W)
      → IsAttempt (launch_fetched c desired release trace recipe x).0
  unfolding launch_fetched
  launch_fetched-IsAttempt recipe (some why, w) = refl
  launch_fetched-IsAttempt recipe (none, w) =
      launch_reply-IsAttempt (c.launch recipe (launch_for c desired release trace) w)

  pub attempt_launch-IsAttempt :
      (recipe : RecipeId) (w : W) → IsAttempt (attempt_launch c desired release trace recipe w).0
  unfolding attempt_launch
  attempt_launch-IsAttempt recipe w = elim (Option-cases (closed_by (c.admission w))) [
    | inl free ↦ rw (free, attempt_launch) (launch_fetched-IsAttempt recipe _)
    | inr (o, shut) ↦ rw (shut, attempt_launch) (closed_by-IsAttempt _ o shut)
  ]

  pub launch_reply-world :
      (x : Result Started × W) → (launch_reply c desired release trace x).1 ≡ x.1
  unfolding launch_reply
  launch_reply-world (ok s, w) = refl
  launch_reply-world (err (AgentError.not_launchable a b), w) = ground arith
  launch_reply-world (err e, w) = refl

  -- What holds here and after any fetch holds after the image was fetched or not needed.
  pub fetch-keeps :
      (P : W → Type 0) (x : Option VerifiedRelease) (w : W)
      → ((image : String) → P (c.fetch_image image w).1)
      → P w
      → P (fetch c desired release trace x w).1
  unfolding fetch
  fetch-keeps P none w fetched here = here
  fetch-keeps P (some v) w fetched here = fetched v.image
