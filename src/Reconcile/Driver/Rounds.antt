-- ===== src/Reconcile/Driver/Rounds.antt =====
-- What every round of a convergence keeps, for a control core that reads its world truly.
use metralectl.Prelude.{
  ℕ, zero, suc, ◌≡◌, ◌⊎◌, inl, inr, refl, sym, subst, Bool, true, false, false≢true, List, Option,
}
use metralectl.Prelude.{none, some, String, Bool-cases, Option-cases, ◌∙◌}
use metralectl.Protocol.{RecipeId, AgentError, Result, ok, err}
use metralectl.Reconcile.{decide}
use metralectl.Reconcile.Contract.{Desired, Step}
use metralectl.Reconcile.Action.{ActionOutcome, VerifiedRelease, ControlTrace, Workload}
use metralectl.Reconcile.Answer.{Answer, answer, Control, closed_by, M, give, then_do}
use metralectl.Reconcile.Driver.{answer_now, launch_fetched, fetch, attempt_launch}
use metralectl.Reconcile.Driver.{
  stop_closed, was, after_launch, carry_out, observed_of, rounds, launch_for,
}
use metralectl.Reconcile.Driver.{converge, is_unreleased}
use metralectl.Reconcile.Driver.Attempts.{is_success, IsAttempt, stop_closed-IsAttempt}
use metralectl.Reconcile.Driver.Attempts.{attempt_launch-IsAttempt, launch_reply-world}

-- The core answers an observation with what runs, or with an error, and observing changes nothing.
pub record Reads {W : Type 0} (c : Control W) : Type 0 where
  pub running : W → List Workload
  pub reads :
      (w : W)
      → (c.workloads w ≡ (ok (running w), w)) ⊎ ((e : AgentError) × (c.workloads w ≡ (err e, w)))

module _ {W : Type 0} (c : Control W) (desired : Desired) (release : Option VerifiedRelease)
    (trace : Option ControlTrace) (r : Reads c) where
  abbrev pub next_at : W → Step
  next_at w = decide desired (observed_of c desired release trace (r.running w))

  -- How a convergence may end at a world: with an error, or with an answer read from that world,
  -- which is a success only if the decision there is that nothing is left to do.
  pub data EndsAt (w : W) : Result Answer → Type 0 where
    with_error : (e : AgentError) → EndsAt w (err e)
    with_answer :
        (o : ActionOutcome) (detail : Option String)
        → (is_success o ≡ true → next_at w ≡ Step.converged)
        → EndsAt w (ok (record (answer o desired (r.running w)) { detail = detail }))

  -- `P n` holds with `n` rounds left, and `Q` of how the convergence ends.
  module _ (P : ℕ → W → Type 0) (Q : Result Answer × W → Type 0)
      (ends : (n : ℕ) (w : W) (x : Result Answer) → P n w → EndsAt w x → Q (x, w))
      (stops : (n : ℕ) (w : W) (recipe : RecipeId)
        → P (suc n) w
        → next_at w ≡ Step.stop recipe
        → stop_closed c desired release trace desired.intent w ≡ none
        → P n (c.stop recipe w).1)
      (launches : (n : ℕ) (w : W) (recipe : RecipeId)
        → P (suc n) w
        → next_at w ≡ Step.launch recipe
        → closed_by (c.admission w) ≡ none
        → let w' = (fetch c desired release trace release w).1 in
          P n w' × P n (c.launch recipe (launch_for c desired release trace) w').1) where
    launch_fetched-keeps :
        (n : ℕ) (recipe : RecipeId) (x : Option String × W)
        → P n x.1
        → P n (c.launch recipe (launch_for c desired release trace) x.1).1
        → P n (launch_fetched c desired release trace recipe x).1
    unfolding launch_fetched
    launch_fetched-keeps n recipe (some why, w) h k = h
    launch_fetched-keeps n recipe (none, w) h k =
        subst (P n)
          (sym (
            launch_reply-world c desired release trace
              (c.launch recipe (launch_for c desired release trace) w)))
          k

    -- Either the launch was attempted, or the node is closed and nothing was touched.
    attempt_launch-keeps :
        (n : ℕ) (w : W) (recipe : RecipeId)
        → P (suc n) w
        → next_at w ≡ Step.launch recipe
        → (P n (attempt_launch c desired release trace recipe w).1)
          ⊎ ((x : ActionOutcome × Option String) × (attempt_launch c desired release trace recipe w
                ≡ (ok (some x), w)))
    unfolding attempt_launch
    attempt_launch-keeps n w recipe h e = elim (Option-cases (closed_by (c.admission w))) [
      | inr (closed, shut) ↦ inr ((closed, none), rw (shut, attempt_launch))
      | inl free ↦
          let (fetched, launched) = launches n w recipe h e free in
          inl (rw (free, attempt_launch) (launch_fetched-keeps n recipe _ fetched launched))
    ]

    -- An answer read now that is no success.
    answer_now-ends :
        (n : ℕ) (o : ActionOutcome) (detail : Option String) (w : W)
        → P n w
        → is_success o ≡ false
        → Q (answer_now c desired release trace o detail w)
    unfolding answer_now
    answer_now-ends n o detail w h bad =
        let Answered : Result (List Workload) × W → Type 0 =
          λ x. Q (then_do x (λ ws. give (record (answer o desired ws) { detail = detail }))) in
        elim (r.reads w) [
          | inl read ↦
              subst Answered (sym read)
                (ends n w _ h (with_answer o detail (λ good. absurd (false≢true (sym bad ∙ good)))))
          | inr (e, failed) ↦ subst Answered (sym failed) (ends n w (err e) h (with_error e))
        ]

    after_attempt :
        (n : ℕ) (again : Bool → Option RecipeId → M W Answer) (recipe : RecipeId)
        (x : Result (Option (ActionOutcome × Option String)) × W)
        → IsAttempt c desired release trace x.0
        → P n x.1
        → (x.0 ≡ ok none → Q (again true (some recipe) x.1))
        → Q (then_do x (after_launch c desired release trace again recipe))
    unfolding after_launch
    after_attempt n again recipe (err e, w) a h more = ends n w (err e) h (with_error e)
    after_attempt n again recipe (ok none, w) a h more = more refl
    after_attempt n again recipe (ok (some (o, detail)), w) a h more =
        answer_now-ends n o detail w h a

    launch_round :
        (n : ℕ) (again : Bool → Option RecipeId → M W Answer) (w : W) (recipe : RecipeId)
        → ((a : Bool) (l : Option RecipeId) (w' : W) → P n w' → Q (again a l w'))
        → P (suc n) w
        → next_at w ≡ Step.launch recipe
        → Q (
            then_do
              (attempt_launch c desired release trace recipe w)
              (after_launch c desired release trace again recipe))
    launch_round n again w recipe more h e =
        let attempt = attempt_launch-IsAttempt c desired release trace recipe w in
        elim (attempt_launch-keeps n w recipe h e) [
          | inl kept ↦
              after_attempt n again recipe _ attempt kept (λ _. more true (some recipe) _ kept)
          | inr (x, shut) ↦
              subst (λ y. Q (then_do y (after_launch c desired release trace again recipe)))
                (sym shut)
                (after_attempt (suc n) again recipe (ok (some x), w)
                  (subst (λ y. IsAttempt c desired release trace y.0) shut attempt) h
                  (λ e'. absurd (cc)))
        ]

    carry_out-ends :
        (n : ℕ) (again : Bool → Option RecipeId → M W Answer) (acted : Bool)
        (launched : Option RecipeId) (w : W) (s : Step)
        → ((a : Bool) (l : Option RecipeId) (w' : W) → P n w' → Q (again a l w'))
        → P (suc n) w
        → next_at w ≡ s
        → Q (carry_out c desired release trace again acted launched (r.running w) s w)
    unfolding carry_out answer
    carry_out-ends n again acted launched w Step.converged more h e =
        ends (suc n) w _ h (with_answer _ none (λ good. e))
    carry_out-ends n again acted launched w (Step.refuse refusal) more h e =
        ends (suc n) w _ h (with_answer _ none (λ good. absurd (cc)))
    carry_out-ends n again acted launched w (Step.stop recipe) more h e =
        elim (Option-cases (stop_closed c desired release trace desired.intent w)) [
          | inr (closed, shut) ↦
              rw (shut, carry_out)
                (ends (suc n) w _ h (
                  with_answer closed none (λ good. absurd (
                    false≢true (
                      sym
                        (stop_closed-IsAttempt c desired release trace desired.intent w closed shut)
                      ∙ good)))))
          | inl free ↦
              let stopped = stops n w recipe h e free in
              rw (free, carry_out) (stopped_ends (c.stop recipe w) stopped)
        ]
      where
        stopped_ends :
            (x : Result (Unit {0}) × W) → P n x.1 → Q (then_do x (λ _. again true launched))
        stopped_ends (ok u, w') k = more true launched w' k
        stopped_ends (err e', w') k = ends n w' _ k (with_error e')
    carry_out-ends n again acted launched w (Step.launch recipe) more h e =
        elim (Bool-cases (was c desired release trace launched recipe)) [
          | inl done ↦ rw done (answer_now-ends (suc n) _ _ w h refl)
          | inr fresh ↦ rw fresh (launch_round n again w recipe more h e)
        ]

    rounds-ends :
        (n most : ℕ) (acted : Bool) (launched : Option RecipeId) (w : W)
        → P n w
        → Q (rounds c desired release trace n most acted launched w)
    unfolding rounds
    rounds-ends zero most acted launched w h = ends 0 w _ h (with_error _)
    rounds-ends (suc n) most acted launched w h =
        let Round : Result (List Workload) × W → Type 0 = λ x. Q (
          then_do x (λ ws.
            carry_out c desired release trace (rounds c desired release trace n most) acted launched
              ws (decide desired (observed_of c desired release trace ws)))) in
        elim (r.reads w) [
          | inl read ↦ subst Round (sym read) (
              carry_out-ends n (rounds c desired release trace n most) acted launched w (next_at w)
                (rounds-ends n most) h refl)
          | inr (e, failed) ↦ subst Round (sym failed) (ends (suc n) w (err e) h (with_error e))
        ]

    -- So a convergence of `max_steps + 1` rounds ends as each round may.
    pub converge-ends :
        (max_steps : ℕ) (w : W)
        → P (suc max_steps) w
        → Q (converge c desired release trace max_steps w)
    unfolding converge
    converge-ends max_steps w h = elim (Bool-cases (is_unreleased desired.intent release)) [
      | inl bare ↦ rw bare (answer_now-ends (suc max_steps) _ none w h refl)
      | inr held ↦ rw held (rounds-ends (suc max_steps) max_steps false none w h)
    ]
