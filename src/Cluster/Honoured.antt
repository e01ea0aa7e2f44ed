-- ===== src/Cluster/Honoured.antt =====
-- What a rank keeps to about its reservations, and what asking the ranks of a plan and releasing them
-- comes to (crates/metralectl-agent/src/rank.rs, clusterdriver/ceremonies.rs, clusterdriver.rs).
use metralectl.Prelude.{◌≡◌, ◌⊎◌, inl, inr, refl, subst, true, List, [], ◌∷◌}
use metralectl.Prelude.{String, Memᴰ, All, ◌&&◌}
use metralectl.Protocol.{NodeId}
use metralectl.Cluster.Ports.{PrepareReply, prepared, refused, Machines, Target}
use metralectl.Cluster.Ports.{new_epoch, ask_prepare, ask_abort}
use metralectl.Prelude.{Bool-cases, str_eq, eq_iff}
use metralectl.Cluster.Faithful.{IsPlaced, and_true, differs}
use metralectl.Cluster.Loops.{roll_back, prepare_all, is_prepared, kept_if}
use metralectl.Cluster.Driver.{all_prepared}

-- What is asked of the ranks of a fleet, where `Holds w node epoch` says what is reserved at a
-- world and `Loses w t epoch` that an abort sent then is lost: a rank that agrees holds the epoch; a
-- prepare reserves nothing but this epoch at its machine, where a refusal may be a lost answer, and
-- does not release it; an abort reserves nothing, and releases the epoch at its machine unless it is
-- lost; drawing an epoch reserves nothing.
pub record IsHonoured {W : Type 0} (c : Machines W) (self : NodeId)
    (Holds : W → NodeId → String → Type 0) (Loses : W → Target → String → Type 0) : Type 0 where
  pub agreed :
      (t : Target) (epoch : String) (w : W)
      → IsPlaced self t
      → (ask_prepare c t epoch w).0 ≡ prepared
      → Holds (ask_prepare c t epoch w).1 t.assignment.node epoch
  pub only :
      (t : Target) (epoch : String) (w : W) (n : NodeId) (e : String)
      → IsPlaced self t
      → Holds (ask_prepare c t epoch w).1 n e
      → Holds w n e ⊎ ((n ≡ t.assignment.node) × (e ≡ epoch))
  pub kept :
      (t : Target) (epoch : String) (w : W) (n : NodeId)
      → IsPlaced self t
      → Holds w n epoch
      → Holds (ask_prepare c t epoch w).1 n epoch
  pub released :
      (t : Target) (epoch : String) (w : W) (n : NodeId) (e : String)
      → IsPlaced self t
      → Holds (ask_abort c t epoch w) n e
      → Holds w n e × ((¬ ((n ≡ t.assignment.node) × (e ≡ epoch))) ⊎ Loses w t epoch)
  pub drawn : (w : W) (n : NodeId) (e : String) → Holds (new_epoch c w).1 n e → Holds w n e

-- A machine of these targets, under the epoch.
abbrev pub IsOf : List Target → String → NodeId → String → Type 0
IsOf ts epoch n e = (t : Target) × Memᴰ t ts × (n ≡ t.assignment.node) × (e ≡ epoch)

IsOf-tail :
    (t : Target) (ts : List Target) (epoch : String) (n : NodeId) (e : String)
    → IsOf ts epoch n e
    → IsOf (t ∷ ts) epoch n e
IsOf-tail t ts epoch n e (u, m, at_node, named) = (u, Memᴰ.tail m, at_node, named)

module _ {W : Type 0} (c : Machines W) (self : NodeId) (Holds : W → NodeId → String → Type 0)
    (Loses : W → Target → String → Type 0) (f : IsHonoured c self Holds Loses) where
  -- Of the aborts that a roll back sends from this world, the one to the machine is lost.
  abbrev pub IsLost : String → List Target → W → NodeId → String → Type 0
  IsLost epoch [] w n e = ⊥
  IsLost epoch (t ∷ ts) w n e =
      ((n ≡ t.assignment.node) × (e ≡ epoch) × Loses w t epoch)
      ⊎ IsLost epoch ts (ask_abort c t epoch w) n e

  -- Of the prepares that are asked from this world, the machine's is refused.
  abbrev pub IsUnheard : String → List Target → W → NodeId → String → Type 0
  IsUnheard epoch [] w n e = ⊥
  IsUnheard epoch (t ∷ ts) w n e =
      ((n ≡ t.assignment.node)
        × (e ≡ epoch)
        × ((why : String) × ((ask_prepare c t epoch w).0 ≡ refused why)))
      ⊎ IsUnheard epoch ts (ask_prepare c t epoch w).1 n e

  pub roll_back-Holds :
      (epoch : String) (ts : List Target) (w : W) (n : NodeId) (e : String)
      → All (IsPlaced self) ts
      → Holds (roll_back c epoch ts w) n e
      → Holds w n e × ((¬ IsOf ts epoch n e) ⊎ IsLost epoch ts w n e)
  unfolding roll_back
  roll_back-Holds epoch [] w n e placed h = (h, inl (λ (t, m, at_node, named). elim m [ ]))
  roll_back-Holds epoch (t ∷ ts) w n e (at_t, placed) h =
      let (before, others) = roll_back-Holds epoch ts (ask_abort c t epoch w) n e placed h in
      let (held, other) = f.released t epoch w n e at_t before in (held, joined other others)
    where
      joined :
          (¬ ((n ≡ t.assignment.node) × (e ≡ epoch))) ⊎ Loses w t epoch
          → (¬ IsOf ts epoch n e) ⊎ IsLost epoch ts (ask_abort c t epoch w) n e
          → (¬ IsOf (t ∷ ts) epoch n e) ⊎ IsLost epoch (t ∷ ts) w n e
      joined other (inr lost) = inr (inr lost)
      joined (inl other) (inl others) = inl (λ (u, m, at_node, named). elim m [
        | Memᴰ.head same ↦ other (subst (λ v. n ≡ v.assignment.node) same at_node, named)
        | Memᴰ.tail m' ↦ others (u, m', at_node, named)
      ])
      joined (inr lost) (inl others) =
          elim (Bool-cases (str_eq n t.assignment.node && str_eq e epoch)) [
            | inl same ↦
                let (at_node, named) = and_true _ _ same in
                inr (inl ((eq_iff _ _).0 at_node, (eq_iff _ _).0 named, lost))
            | inr far ↦ inl (λ (u, m, at_node, named). elim m [
              | Memᴰ.head same ↦
                  differs (str_eq n t.assignment.node) (str_eq e epoch) far
                    ((eq_iff _ _).1 (subst (λ v. n ≡ v.assignment.node) same at_node))
                    ((eq_iff _ _).1 named)
              | Memᴰ.tail m' ↦ others (u, m', at_node, named)
            ])
          ]

  -- The prepares reserve nothing but the epoch at their targets.
  pub prepare_all-IsOf :
      (epoch : String) (ts : List Target) (w : W) (n : NodeId) (e : String)
      → All (IsPlaced self) ts
      → Holds (prepare_all c epoch ts w).1 n e
      → Holds w n e ⊎ IsOf ts epoch n e
  unfolding prepare_all
  prepare_all-IsOf epoch [] w n e placed h = inl h
  prepare_all-IsOf epoch (t ∷ ts) w n e (at_t, placed) h =
      elim (prepare_all-IsOf epoch ts (ask_prepare c t epoch w).1 n e placed h) [
        | inr later ↦ inr (IsOf-tail t ts epoch n e later)
        | inl before ↦ elim (f.only t epoch w n e at_t before) [
          | inl held ↦ inl held
          | inr (at_node, named) ↦ inr (t, Memᴰ.head refl, at_node, named)
        ]
      ]

  -- Each is what its target accepted, or what a target that refused may hold.
  pub prepare_all-only :
      (epoch : String) (ts : List Target) (w : W) (n : NodeId) (e : String)
      → All (IsPlaced self) ts
      → Holds (prepare_all c epoch ts w).1 n e
      → Holds w n e ⊎ (IsOf (prepare_all c epoch ts w).0.1 epoch n e ⊎ IsUnheard epoch ts w n e)
  unfolding prepare_all
  prepare_all-only epoch [] w n e placed h = inl h
  prepare_all-only epoch (t ∷ ts) w n e (at_t, placed) h =
      elim (prepare_all-only epoch ts (ask_prepare c t epoch w).1 n e placed h) [
        | inr (inl later) ↦ inr (inl (kept_later (ask_prepare c t epoch w).0 later))
        | inr (inr unheard) ↦ inr (inr (inr unheard))
        | inl before ↦ elim (f.only t epoch w n e at_t before) [
          | inl held ↦ inl held
          | inr (at_node, named) ↦ inr (at_this (ask_prepare c t epoch w).0 _ refl at_node named)
        ]
      ]
    where
      kept_later :
          (reply : PrepareReply) {accepted : List Target}
          → IsOf accepted epoch n e
          → IsOf (kept_if (is_prepared reply) t accepted) epoch n e
      kept_later prepared {accepted} is = IsOf-tail t accepted epoch n e is
      kept_later (refused why) is = is

      at_this :
          (reply : PrepareReply) (accepted : List Target)
          → (ask_prepare c t epoch w).0 ≡ reply
          → n ≡ t.assignment.node
          → e ≡ epoch
          → IsOf (kept_if (is_prepared reply) t accepted) epoch n e ⊎ IsUnheard epoch (t ∷ ts) w n e
      at_this prepared accepted is at_node named = inl (t, Memᴰ.head refl, at_node, named)
      at_this (refused why) accepted is at_node named = inr (inl (at_node, named, (why, is)))

  prepare_all-kept :
      (epoch : String) (ts : List Target) (w : W) (n : NodeId)
      → All (IsPlaced self) ts
      → Holds w n epoch
      → Holds (prepare_all c epoch ts w).1 n epoch
  unfolding prepare_all
  prepare_all-kept epoch [] w n placed h = h
  prepare_all-kept epoch (t ∷ ts) w n (at_t, placed) h =
      prepare_all-kept epoch ts (ask_prepare c t epoch w).1 n placed (f.kept t epoch w n at_t h)

  is_prepared-true : (reply : PrepareReply) → is_prepared reply ≡ true → reply ≡ prepared
  is_prepared-true prepared e = refl
  is_prepared-true (refused why) e = absurd (cc)

  -- Where every answer is a yes, every target holds the epoch, and the accepted are the targets.
  pub prepare_all-agreed :
      (epoch : String) (ts : List Target) (w : W)
      → All (IsPlaced self) ts
      → all_prepared (prepare_all c epoch ts w).0.0 ≡ true
      → All (λ t. Holds (prepare_all c epoch ts w).1 t.assignment.node epoch) ts
        × ((prepare_all c epoch ts w).0.1 ≡ ts)
  unfolding prepare_all
  prepare_all-agreed epoch [] w placed e = (tt, refl)
  prepare_all-agreed epoch (t ∷ ts) w (at_t, placed) e =
      let (here, later) = and_true (is_prepared (ask_prepare c t epoch w).0) _ e in
      let yes_here = is_prepared-true _ here in
      let (held, accepted) = prepare_all-agreed epoch ts (ask_prepare c t epoch w).1 placed later in
      (
        (
          prepare_all-kept epoch ts _ t.assignment.node placed (f.agreed t epoch w at_t yes_here),
          held,
        ),
        rw (yes_here, accepted) refl,
      )
