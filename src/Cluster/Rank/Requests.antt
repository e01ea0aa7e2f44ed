-- ===== src/Cluster/Rank/Requests.antt =====
-- The requests that a rank service answers, and what one of them does to its state
-- (crates/metralectl/src/rankservice/mod.rs).
use metralectl.Prelude.{
  ℕ, ◌≡◌, ◌⊎◌, inl, inr, refl, ap, filter, ◌∙◌, Bool, true, false, ◌&&◌, List, ◌∷◌,
}
use metralectl.Prelude.{
  Option, none, some, String, str_eq, Option-cases, Bool-cases, arith, leb, Result, ok, err,
}
use metralectl.Cluster.Plan.{RankAssignment}
use metralectl.Translate.{LaunchPlan}
use metralectl.Cluster.Host.{Host, Reservation, RefusalReason, plan_for}
use metralectl.Cluster.Rendezvous.{on_local_subnet}
use metralectl.Cluster.Rank.{
  Rank, prepare, commit, alive, stop, abort, expire, vacate, rendered, reached, probed, vacated,
  docker_ok,
}

pub data Request : Type 0 where
  prepares : (epoch : String) (a : RankAssignment) → Request
  commits : (epoch : String) → Request
  aborts : (epoch : String) → Request
  asks : (container : String) → Request
  stops : (container : String) → Request

-- A command that starts a container.
abbrev pub is_launch : List String → Bool
is_launch (a ∷ b ∷ rest) = str_eq a "docker" && str_eq b "run"
is_launch argv = false

-- Every process that is run is written to a log; the clock and the network write nothing.
pub record IsLogged {W : Type 0} (h : Host W) (log : W → List (List String)) : Type 0 where
  pub ran : (argv : List String) (w : W) → log (h.run argv w).1 ≡ argv ∷ log w
  pub read : (w : W) → log (h.now w).1 ≡ log w
  pub asked : (addr : String) (port : ℕ) (w : W) → log (h.answers addr port w).1 ≡ log w

module _ {W : Type 0} (h : Host W) (log : W → List (List String)) (l : IsLogged h log) where
  unfoldable pub perform : Request → Rank W → Rank W
  unfolding prepare commit alive stop abort
  perform (prepares epoch a) s = (prepare h epoch a s).1
  perform (commits epoch) s = (commit h epoch s).1
  perform (aborts epoch) s = abort h epoch s
  perform (asks container) s = (alive h container s).1
  perform (stops container) s = (stop h container s).1

  -- The commands that started a container, the last one first.
  abbrev pub launches : W → List (List String)
  launches w = filter is_launch (log w)

  -- No command that starts a container was run in between.
  abbrev pub IsQuiet : W → W → Type 0
  IsQuiet w w' = launches w' ≡ launches w

  pub run-IsQuiet :
      (argv : List String) (w : W) → is_launch argv ≡ false → IsQuiet w (h.run argv w).1
  run-IsQuiet argv w other = rw (l.ran argv w, other) refl

  pub same-IsQuiet : {w w' : W} → log w' ≡ log w → IsQuiet w w'
  same-IsQuiet e = ap (filter is_launch) e

  -- What a prepare does: no container is started, and what is reserved after it was before, or is
  -- what this machine renders for the assignment.
  pub record IsAfter (epoch : String) (a : RankAssignment) (s0 s : Rank W) : Type 0 where
    pub quiet : IsQuiet s0.world s.world
    pub held :
        (r : Reservation)
        → s.reserved ≡ some r
        → (s0.reserved ≡ some r) ⊎ ((r.epoch ≡ epoch) × (plan_for h a ≡ ok r.plan))

  rendered-IsAfter :
      (epoch : String) (a : RankAssignment) (x : Result String LaunchPlan) (s0 s : Rank W)
      → plan_for h a ≡ x
      → IsAfter epoch a s0 s
      → IsAfter epoch a s0 (rendered h epoch a x s).1
  unfolding rendered
  rendered-IsAfter epoch a (err why) s0 s e k = k
  rendered-IsAfter epoch a (ok plan) s0 s e k = record {
    quiet = same-IsQuiet (l.read s.world) ∙ k.quiet;
    held = λ r is. inr (ground arith);
  }

  moved-IsAfter :
      {epoch : String} {a : RankAssignment} {s0 s : Rank W} (w : W)
      → IsQuiet s.world w
      → IsAfter epoch a s0 s
      → IsAfter epoch a s0 (record s { world = w })
  moved-IsAfter w quiet k = record { quiet = quiet ∙ k.quiet; held = k.held }

  reached-IsAfter :
      (epoch : String) (a : RankAssignment) (x : Bool × W) (s0 s : Rank W)
      → IsQuiet s.world x.1
      → IsAfter epoch a s0 s
      → IsAfter epoch a s0 (reached h epoch a x s).1
  unfolding reached
  reached-IsAfter epoch a (true, w) s0 s quiet k =
      rendered-IsAfter epoch a (plan_for h a) s0 (record s { world = w }) refl
        (moved-IsAfter w quiet k)
  reached-IsAfter epoch a (false, w) s0 s quiet k = moved-IsAfter w quiet k

  probed-IsAfter :
      (epoch : String) (a : RankAssignment) (x : Bool × W) (s0 s : Rank W)
      → IsQuiet s.world x.1
      → IsAfter epoch a s0 s
      → IsAfter epoch a s0 (probed h epoch a x s).1
  unfolding probed
  probed-IsAfter epoch a (false, w) s0 s quiet k = moved-IsAfter w quiet k
  probed-IsAfter epoch a (true, w) s0 s quiet k =
      elim (Bool-cases (on_local_subnet h.parse_ip a.master_addr h.local_addresses)) [
        | inl attached ↦ rw attached (reached-IsAfter epoch a (true, w) s0 s quiet k)
        | inr away ↦ rw away (
            reached-IsAfter epoch a (h.answers a.master_addr a.master_port w) s0 s
              (same-IsQuiet (l.asked a.master_addr a.master_port w) ∙ quiet) k)
      ]

  IsAfter-self : (epoch : String) (a : RankAssignment) (s : Rank W) → IsAfter epoch a s s
  IsAfter-self epoch a s = record { quiet = refl; held = λ r is. inl is }

  expire-IsAfter :
      (epoch : String) (a : RankAssignment) (r : Reservation) (s : Rank W)
      → s.reserved ≡ some r
      → IsAfter epoch a s (expire h r s).1
  unfolding expire
  expire-IsAfter epoch a r s here =
      let first = same-IsQuiet (l.read s.world) in
      elim (Bool-cases (leb r.expires (h.now s.world).0)) [
        | inl lapsed ↦ rw (lapsed, expire) (record { quiet = first; held = λ x is. absurd (cc) })
        | inr binding ↦
            rw (binding, expire)
              (record {
                quiet = same-IsQuiet (l.read (h.now s.world).1) ∙ first;
                held = λ x is. inl (here ∙ is);
              })
      ]

  vacate-IsAfter :
      (epoch : String) (a : RankAssignment) (s : Rank W) → IsAfter epoch a s (vacate h epoch s).1
  unfolding vacate
  vacate-IsAfter epoch a s = elim (Option-cases s.reserved) [
    | inl free ↦ simp (free, vacate) (IsAfter-self epoch a s)
    | inr (r, here) ↦ elim (Bool-cases (str_eq r.epoch epoch)) [
      | inl same ↦ simp (here, same, vacate) (IsAfter-self epoch a s)
      | inr other ↦ simp (here, other, vacate) (expire-IsAfter epoch a r s here)
    ]
  ]

  vacated-IsAfter :
      (epoch : String) (a : RankAssignment) (x : Option RefusalReason × Rank W) (s0 : Rank W)
      → IsAfter epoch a s0 x.1
      → IsAfter epoch a s0 (vacated h epoch a x).1
  unfolding vacated
  vacated-IsAfter epoch a (some why, s) s0 k = k
  vacated-IsAfter epoch a (none, s) s0 k =
      probed-IsAfter epoch a (docker_ok h s.world) s0 s (run-IsQuiet _ s.world refl) k

  pub prepare-IsAfter :
      (epoch : String) (a : RankAssignment) (s : Rank W) → IsAfter epoch a s (prepare h epoch a s).1
  unfolding prepare
  prepare-IsAfter epoch a s = elim (Option-cases h.can_launch) [
    | inr (why, cannot) ↦ simp (cannot, prepare) (IsAfter-self epoch a s)
    | inl can ↦
        simp (can, prepare)
          (vacated-IsAfter epoch a (vacate h epoch s) s (vacate-IsAfter epoch a s))
  ]
