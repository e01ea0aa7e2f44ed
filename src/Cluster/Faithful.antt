-- ===== src/Cluster/Faithful.antt =====
-- What is asked of the ranks of a fleet, and what stopping, releasing and asking them comes to
-- (crates/metralectl-agent/src/rank.rs, transport.rs under clusterdriver/ceremonies.rs).
use metralectl.Prelude.{
  ℕ, ◌≡◌, ◌↔◌, ◌⊎◌, inl, inr, refl, sym, ap, subst, ◌∙◌, Bool, true, false, not,
}
use metralectl.Prelude.{
  List, [], ◌∷◌, ◌++◌, Option, none, some, String, Memᴰ, All, All-mem, All-map, find-none,
  find-some, Option-cases, eq_iff, false≢true,
}
use metralectl.Prelude.{Fallible, success, error, Fallible-cases, Bool-cases, str_eq, ◌&&◌, arith}
use metralectl.Protocol.{NodeId}
use metralectl.Cluster.Ports.{
  Machines, Target, RankStarted, ask_commit, ask_alive, ask_stop, ask_abort,
}
use metralectl.Cluster.Loops.{
  roll_back, stop_started, dead_targets, target_at, started_at, kept_if, is_alive, alive_if,
  stop_if,
}

-- A target with no address is this machine.
abbrev pub IsPlaced : NodeId → Target → Type 0
IsPlaced self t = t.addr ≡ none → t.assignment.node ≡ self

-- What is asked of the ranks of a fleet, where `Runs w node container` says what runs at a world: a
-- commit that answers a container starts nothing else, and one that answers an error may have started
-- something at its machine, whose answer was lost, and nowhere else; a stop that answers success
-- leaves its container stopped, one that answers an error may do nothing, and neither starts any; an
-- abort and a pause start nothing; and a rank that says that a container is alive is right, and is
-- left as it is by the question.
pub record IsFaithful {W : Type 0} (c : Machines W) (self : NodeId)
    (Runs : W → NodeId → String → Type 0) : Type 0 where
  pub started :
      (t : Target) (epoch : String) (w : W) (container : String) (n : NodeId) (k : String)
      → IsPlaced self t
      → (ask_commit c t epoch w).0 ≡ success container
      → Runs (ask_commit c t epoch w).1 n k
      → Runs w n k ⊎ ((n ≡ t.assignment.node) × (k ≡ container))
  pub refused :
      (t : Target) (epoch : String) (w : W) (why : String) (n : NodeId) (k : String)
      → IsPlaced self t
      → (ask_commit c t epoch w).0 ≡ error why
      → Runs (ask_commit c t epoch w).1 n k
      → Runs w n k ⊎ (n ≡ t.assignment.node)
  pub stopped :
      (t : Target) (container : String) (w : W) (n : NodeId) (k : String)
      → IsPlaced self t
      → Runs (ask_stop c t container w).1 n k
      → Runs w n k
  pub gone :
      (t : Target) (container : String) (w : W)
      → IsPlaced self t
      → (ask_stop c t container w).0 ≡ success tt
      → ¬ Runs (ask_stop c t container w).1 t.assignment.node container
  pub aborted :
      (t : Target) (epoch : String) (w : W) (n : NodeId) (k : String)
      → IsPlaced self t
      → Runs (ask_abort c t epoch w) n k
      → Runs w n k
  pub slept : (time : ℕ) (w : W) (n : NodeId) (k : String) → Runs (c.sleep time w) n k → Runs w n k
  pub asked :
      (t : Target) (container : String) (w : W) (n : NodeId) (k : String)
      → IsPlaced self t
      → Runs (ask_alive c t container w).1 n k ↔ Runs w n k
  pub honest :
      (t : Target) (container : String) (w : W)
      → IsPlaced self t
      → (ask_alive c t container w).0 ≡ success true
      → Runs w t.assignment.node container

pub mem-append_left : {A : Type 0} {a : A} (xs ys : List A) → Memᴰ a xs → Memᴰ a (xs ++ ys)
mem-append_left [] ys m = elim m [ ]
mem-append_left (x ∷ xs) ys (Memᴰ.head e) = Memᴰ.head e
mem-append_left (x ∷ xs) ys (Memᴰ.tail m) = Memᴰ.tail (mem-append_left xs ys m)

pub mem-append_last : {A : Type 0} (a : A) (xs : List A) → Memᴰ a (xs ++ (a ∷ []))
mem-append_last a [] = Memᴰ.head refl
mem-append_last a (x ∷ xs) = Memᴰ.tail (mem-append_last a xs)

-- Some target is the rank's machine, and some rank was started at the target.
abbrev pub IsCovered : List Target → RankStarted → Type 0
IsCovered targets r = (t : Target) × Memᴰ t targets × (t.assignment.node ≡ r.node)

abbrev pub IsStarted : List RankStarted → Target → Type 0
IsStarted started t = (r : RankStarted) × Memᴰ r started × (r.node ≡ t.assignment.node)

pub target_at-some :
    (targets : List Target) (r : RankStarted)
    → IsCovered targets r
    → (t : Target) × (target_at targets r.node ≡ some t)
      × (t.assignment.node ≡ r.node)
      × Memᴰ t targets
target_at-some targets r (t, m, same) = elim (Option-cases (target_at targets r.node)) [
  | inr (t', e) ↦ let (listed, here) = find-some _ targets e in (t', e, (eq_iff _ _).0 here, listed)
  | inl e ↦
      absurd (false≢true (sym (All-mem _ targets (find-none _ targets e) m) ∙ (eq_iff _ _).1 same))
]

pub started_at-some :
    (started : List RankStarted) (t : Target)
    → IsStarted started t
    → (r : RankStarted) × (started_at started t.assignment.node ≡ some r)
      × Memᴰ r started
      × (r.node ≡ t.assignment.node)
started_at-some started t (r, m, same) =
    elim (Option-cases (started_at started t.assignment.node)) [
      | inr (r', e) ↦
          let (listed, here) = find-some _ started e in (r', e, listed, (eq_iff _ _).0 here)
      | inl e ↦
          absurd
            (false≢true (sym (All-mem _ started (find-none _ started e) m) ∙ (eq_iff _ _).1 same))
    ]

pub and_true : (a b : Bool) → (a && b) ≡ true → (a ≡ true) × (b ≡ true)
and_true true b e = (refl, e)
and_true false b e = absurd (cc)

pub differs : (a b : Bool) → (a && b) ≡ false → a ≡ true → b ≡ true → ⊥
differs a b e at_a at_b = ground arith

module _ {W : Type 0} (c : Machines W) (self : NodeId) (Runs : W → NodeId → String → Type 0)
    (f : IsFaithful c self Runs) where
  pub roll_back-Runs :
      (epoch : String) (ts : List Target) (w : W) (n : NodeId) (k : String)
      → All (IsPlaced self) ts
      → Runs (roll_back c epoch ts w) n k
      → Runs w n k
  unfolding roll_back
  roll_back-Runs epoch [] w n k placed h = h
  roll_back-Runs epoch (t ∷ ts) w n k (here, placed) h =
      f.aborted t epoch w n k here (roll_back-Runs epoch ts (ask_abort c t epoch w) n k placed h)

  -- Whether a container is one of those that were started.
  abbrev pub IsAmong : List RankStarted → NodeId → String → Type 0
  IsAmong rs n k = (r : RankStarted) × Memᴰ r rs × (n ≡ r.node) × (k ≡ r.container)

  -- The stop that is sent from this world, if there is one to send, answers an error.
  abbrev pub StopFails : Option Target → String → W → Type 0
  StopFails none container w = ⊥
  StopFails (some t) container w = (why : String) × ((ask_stop c t container w).0 ≡ error why)

  -- Of the stops that are sent from this world, the container's answers an error.
  abbrev pub IsUnstopped : List RankStarted → List Target → W → NodeId → String → Type 0
  IsUnstopped [] targets w n k = ⊥
  IsUnstopped (r ∷ rs) targets w n k =
      ((n ≡ r.node) × (k ≡ r.container) × StopFails (target_at targets r.node) r.container w)
      ⊎ IsUnstopped rs targets (stop_if c (target_at targets r.node) r.container w) n k

  stop-Runs :
      (t : Target) (container : String) (w : W) (n : NodeId) (k : String)
      → IsPlaced self t
      → Runs (ask_stop c t container w).1 n k
      → (¬ ((n ≡ t.assignment.node) × (k ≡ container)))
        ⊎ ((why : String) × (n ≡ t.assignment.node)
            × (k ≡ container)
            × ((ask_stop c t container w).0 ≡ error why))
  stop-Runs t container w n k at_t h = elim (Fallible-cases (ask_stop c t container w).0) [
    | inl (tt, e) ↦ inl (λ (at_node, named). f.gone t container w at_t e (
        subst (λ m. Runs (ask_stop c t container w).1 m container) at_node
          (subst (λ j. Runs (ask_stop c t container w).1 n j) named h)))
    | inr (why, e) ↦ elim (Bool-cases (str_eq n t.assignment.node && str_eq k container)) [
      | inl same ↦
          let (at_node, named) = and_true _ _ same in
          inr (why, (eq_iff _ _).0 at_node, (eq_iff _ _).0 named, e)
      | inr other ↦ inl (λ (at_node, named).
          differs (str_eq n t.assignment.node) (str_eq k container) other ((eq_iff _ _).1 at_node)
            ((eq_iff _ _).1 named))
    ]
  ]

  -- After the stops nothing new runs, and what was started does not run unless its stop answered an
  -- error.
  pub stop_started-Runs :
      (rs : List RankStarted) (targets : List Target) (w : W) (n : NodeId) (k : String)
      → All (IsPlaced self) targets
      → All (IsCovered targets) rs
      → Runs (stop_started c rs targets w) n k
      → Runs w n k × ((¬ IsAmong rs n k) ⊎ IsUnstopped rs targets w n k)
  unfolding stop_started
  stop_started-Runs [] targets w n k placed all h = (h, inl (λ (r, m, at_node, named). elim m [ ]))
  stop_started-Runs (r ∷ rs) targets w n k placed (covered, all) h =
      let (t, found, same, listed) = target_at-some targets r covered in
      let (before, others) =
        stop_started-Runs rs targets (stop_if c (target_at targets r.node) r.container w) n k placed
          all h in
      let here : Runs (ask_stop c t r.container w).1 n k = rw (found, stop_if) at before in
      let at_t = All-mem (IsPlaced self) targets placed listed in
      (
        f.stopped t r.container w n k at_t here,
        elim others [
          | inr left ↦ inr (inr left)
          | inl none_else ↦ elim (stop-Runs t r.container w n k at_t here) [
            | inr (why, at_node, named, e) ↦ inr (
                inl (
                  at_node ∙ same,
                  named,
                  subst (λ o. StopFails o r.container w) (sym found) (why, e),
                ))
            | inl other ↦ inl (λ (s, m, at_node, named). elim m [
              | Memᴰ.head e ↦ other (
                at_node ∙ (ap (λ (x : RankStarted). x.node) e ∙ sym same),
                named ∙ ap (λ (x : RankStarted). x.container) e,
              )
              | Memᴰ.tail m' ↦ none_else (s, m', at_node, named)
            ])
          ]
        ],
      )

  alive_if-Runs :
      (o : Option RankStarted) (t : Target) (w : W) (n : NodeId) (k : String)
      → IsPlaced self t
      → Runs (alive_if c o t w).1 n k ↔ Runs w n k
  unfolding alive_if
  alive_if-Runs none t w n k here = (λ h. h, λ h. h)
  alive_if-Runs (some r) t w n k here = f.asked t r.container w n k here

  pub dead_targets-Runs :
      (started : List RankStarted) (ts : List Target) (w : W) (n : NodeId) (k : String)
      → All (IsPlaced self) ts
      → Runs (dead_targets c started ts w).1 n k ↔ Runs w n k
  unfolding dead_targets
  dead_targets-Runs started [] w n k placed = (λ h. h, λ h. h)
  dead_targets-Runs started (t ∷ ts) w n k (at_t, placed) =
      let o = started_at started t.assignment.node in
      let rest = dead_targets-Runs started ts (alive_if c o t w).1 n k placed in
      let here = alive_if-Runs o t w n k at_t in (λ h. here.0 (rest.0 h), λ h. rest.1 (here.1 h))

  is_alive-true : (x : Fallible Bool) → is_alive x ≡ true → x ≡ success true
  is_alive-true (success b) e = ap (λ (b : Bool). success b) e
  is_alive-true (error why) e = absurd (cc)

  kept_if-nil :
      (b : Bool) (name : String) (rest : List String)
      → kept_if (not b) name rest ≡ []
      → (b ≡ true) × (rest ≡ [])
  kept_if-nil true name rest e = (refl, e)
  kept_if-nil false name rest e = absurd (cc)

  -- What a target that was started at runs at a world.
  abbrev pub RunsStarted : W → List RankStarted → Target → Type 0
  RunsStarted w started t =
      (r : RankStarted) × Memᴰ r started × (r.node ≡ t.assignment.node) × Runs w r.node r.container

  -- Where none is dead, each target that was started at runs what was started there.
  pub dead_targets-nil :
      (started : List RankStarted) (ts : List Target) (w : W)
      → All (IsPlaced self) ts
      → All (IsStarted started) ts
      → (dead_targets c started ts w).0 ≡ []
      → All (RunsStarted w started) ts
  unfolding dead_targets
  dead_targets-nil started [] w placed all e = tt
  dead_targets-nil started (t ∷ ts) w (at_t, placed) (here, all) e =
      let (r, found, listed, same) = started_at-some started t here in
      let o = started_at started t.assignment.node in
      let (up, none_dead) = kept_if-nil (alive_if c o t w).0 t.name _ e in
      let alive : is_alive (ask_alive c t r.container w).0 ≡ true = rw (found, alive_if) at up in
      let ran = f.honest t r.container w at_t (is_alive-true _ alive) in
      (
        (r, listed, same, subst (λ n. Runs w n r.container) (sym same) ran),
        All-map
            (λ u (s, m, at_node, runs).
              (s, m, at_node, (alive_if-Runs o t w s.node s.container at_t).0 runs))
            ts (dead_targets-nil started ts (alive_if c o t w).1 placed all none_dead),
      )
