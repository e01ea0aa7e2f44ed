-- ===== src/Cluster/Reserved.antt =====
-- What a prepare reserves (`prepare_inner` of
-- crates/metralectl-agent/src/clusterdriver/ceremonies.rs).
use metralectl.Prelude.{◌≡◌, ◌⊎◌, inl, inr, refl, sym, subst, Bool, true, false, List, [], ◌∷◌}
use metralectl.Prelude.{none, some, String, Memᴰ, All, Option-cases, Bool-cases}
use metralectl.Prelude.{Fallible, success, error, Result, ok, err, All-mem, All-tabulate}
use metralectl.Protocol.{NodeId, RecipeId}
use metralectl.Settings.Gate.{Requested}
use metralectl.Cluster.Ports.{
  PrepareReply, prepared, refused, Machines, Target, Pending, RankPrepare,
}
use metralectl.Cluster.Ports.{Running, Driver, new_epoch, ask_prepare}
use metralectl.Cluster.Resolve.{resolve}
use metralectl.Cluster.Faithful.{IsPlaced}
use metralectl.Cluster.Placed.{IsAlone, resolve-IsResolved, resolve-IsPlaced}
use metralectl.Cluster.Loops.{roll_back, prepare_all, is_prepared, kept_if}
use metralectl.Cluster.Driver.{prepare, asked, concluded, all_prepared, already_running}
use metralectl.Cluster.Honoured.{
  IsHonoured, IsOf, IsLost, IsUnheard, prepare_all-IsOf, roll_back-Holds, prepare_all-only,
  prepare_all-agreed,
}

module _ {W : Type 0} (c : Machines W) (self : NodeId) (Holds : W → NodeId → String → Type 0)
    (Loses : W → Target → String → Type 0) (f : IsHonoured c self Holds Loses) where
  -- No machine holds an epoch that it did not hold before.
  abbrev pub HoldsNoMore : W → W → Type 0
  HoldsNoMore w0 w = (n : NodeId) (e : String) → Holds w n e → Holds w0 n e

  -- What asking these targets from this world may leave reserved where some rank refused: the
  -- machine's own answer was the refusal, which may be a lost answer, or the abort to it was lost.
  abbrev pub IsLeftHeld : String → List Target → W → NodeId → String → Type 0
  IsLeftHeld epoch ts w n e =
      IsUnheard c self Holds Loses f epoch ts w n e
      ⊎ IsLost c self Holds Loses f epoch (prepare_all c epoch ts w).0.1
          (prepare_all c epoch ts w).1 n e

  -- After a prepare of what was resolved: what is recorded as running is as it was. With an error,
  -- the prepare that was outstanding still is and nothing more is held; where some rank refused, so
  -- it is but for what may be left held of the plan. Where every rank agreed, no cluster ran, the
  -- prepare outstanding is the plan, of this epoch, each machine of it holds the epoch, and nothing
  -- else is held that was not.
  abbrev pub IsReserved :
      Result String Pending
      → W
      → Driver W
      → Fallible (String × List RankPrepare × Bool) × Driver W
      → Type 0
  IsReserved x asked_at d (error why, d') =
      HoldsNoMore d.world d'.world × (d'.pending ≡ d.pending) × (d'.running ≡ d.running)
  IsReserved x asked_at d (success (epoch, answers, false), d') =
      (p : Pending) × (x ≡ ok p)
      × (p.epoch ≡ epoch)
      × ((n : NodeId) (e : String)
          → Holds d'.world n e
          → Holds d.world n e ⊎ IsLeftHeld epoch p.targets asked_at n e)
      × (d'.pending ≡ d.pending)
      × (d'.running ≡ d.running)
      × (all_prepared answers ≡ false)
  IsReserved x asked_at d (success (epoch, answers, true), d') =
      (p : Pending) × (x ≡ ok p)
      × (d'.pending ≡ some p)
      × (p.epoch ≡ epoch)
      × All (IsPlaced self) p.targets
      × (d.running ≡ none)
      × (d'.running ≡ none)
      × (all_prepared answers ≡ true)
      × All (λ t. Holds d'.world t.assignment.node epoch) p.targets
      × ((n : NodeId) (e : String)
          → Holds d'.world n e
          → Holds d.world n e ⊎ IsOf p.targets epoch n e)

  prepare_all-mem :
      (epoch : String) (ts : List Target) (w : W) {u : Target}
      → Memᴰ u (prepare_all c epoch ts w).0.1
      → Memᴰ u ts
  unfolding prepare_all
  prepare_all-mem epoch [] w m = elim m [ ]
  prepare_all-mem epoch (t ∷ ts) w {u} m =
      among (ask_prepare c t epoch w).0 (prepare_all-mem epoch ts (ask_prepare c t epoch w).1) m
    where
      among :
          (reply : PrepareReply) {accepted : List Target}
          → (Memᴰ u accepted → Memᴰ u ts)
          → Memᴰ u (kept_if (is_prepared reply) t accepted)
          → Memᴰ u (t ∷ ts)
      among prepared later (Memᴰ.head e) = Memᴰ.head e
      among prepared later (Memᴰ.tail m) = Memᴰ.tail (later m)
      among (refused why) later m = Memᴰ.tail (later m)

  concluded-IsReserved :
      (epoch : String) (p : Pending) (d : Driver W) (w : W)
      → p.epoch ≡ epoch
      → All (IsPlaced self) p.targets
      → d.running ≡ none
      → HoldsNoMore d.world w
      → IsReserved
          (ok p)
          w
          d
          (concluded c epoch p (prepare_all c epoch p.targets w) (record d { world = w }))
  unfolding concluded prepare_all
  concluded-IsReserved epoch p d w named placed idle before =
      let accepted_placed : All (IsPlaced self) (prepare_all c epoch p.targets w).0.1 =
        All-tabulate _ _
          λ t m. All-mem (IsPlaced self) p.targets placed (prepare_all-mem epoch p.targets w m) in
      elim (Bool-cases (all_prepared (prepare_all c epoch p.targets w).0.0)) [
        | inl agreed ↦
            let (held, accepted) =
              prepare_all-agreed c self Holds Loses f epoch p.targets w placed agreed in
            subst (IsReserved (ok p) w d) (sym (concluded-all agreed)) (
              p,
              refl,
              refl,
              named,
              placed,
              idle,
              idle,
              agreed,
              held,
              λ n e h. elim (prepare_all-IsOf c self Holds Loses f epoch p.targets w n e placed h) [
                | inl old ↦ inl (before n e old)
                | inr new ↦ inr new
              ],
            )
        | inr some_refused ↦ subst (IsReserved (ok p) w d) (sym (concluded-some some_refused)) (
          p,
          refl,
          named,
          (λ n e h.
              let (held, gone) =
                roll_back-Holds c self Holds Loses f epoch (prepare_all c epoch p.targets w).0.1 _ n
                  e accepted_placed h in
              elim (prepare_all-only c self Holds Loses f epoch p.targets w n e placed held) [
                | inl old ↦ inl (before n e old)
                | inr (inr unheard) ↦ inr (inl unheard)
                | inr (inl new) ↦ elim gone [
                  | inl none_left ↦ absurd (none_left new)
                  | inr lost ↦ inr (inr lost)
                ]
              ]),
          refl,
          refl,
          some_refused,
        )
      ]
    where
      concluded-all :
          all_prepared (prepare_all c epoch p.targets w).0.0 ≡ true
          → concluded c epoch p (prepare_all c epoch p.targets w) (record d { world = w }) ≡ (
            success (epoch, (prepare_all c epoch p.targets w).0.0, true),
            record d { world = (prepare_all c epoch p.targets w).1; pending = some p },
          )
      concluded-all e = rw (e, concluded) refl

      concluded-some :
          all_prepared (prepare_all c epoch p.targets w).0.0 ≡ false
          → concluded c epoch p (prepare_all c epoch p.targets w) (record d { world = w }) ≡ (
            success (epoch, (prepare_all c epoch p.targets w).0.0, false),
            record d {
              world =
                  roll_back c epoch
                    (prepare_all c epoch p.targets w).0.1
                    (prepare_all c epoch p.targets w).1;
            },
          )
      concluded-some e = rw (e, concluded) refl

  asked-IsReserved :
      (epoch : String) (x : Result String Pending) (d : Driver W) (w : W)
      → ((p : Pending) → x ≡ ok p → (p.epoch ≡ epoch) × All (IsPlaced self) p.targets)
      → d.running ≡ none
      → HoldsNoMore d.world w
      → IsReserved x w d (asked c epoch x (record d { world = w }))
  unfolding asked
  asked-IsReserved epoch (err why) d w named idle before = (before, refl, refl)
  asked-IsReserved epoch (ok p) d w named idle before =
      concluded-IsReserved epoch p d w (named p refl).0 (named p refl).1 idle before

  -- On ranks that honour a reservation, in a fleet where only this machine is local, a prepare
  -- reserves every machine of its plan, or none but for what is lost on the way. Such a rank that
  -- agrees holds the epoch, and keeps it while others are prepared; a prepare reserves nothing but
  -- its own epoch there, an abort that arrives releases its own, no other call of a prepare
  -- reserves anything, and a rank's answers and the aborts sent to it may be lost. What is recorded
  -- as running stays as it was. With an error, so does the outstanding prepare, and no machine
  -- holds an epoch that it did not hold. Where some rank refused, the outstanding prepare is kept
  -- too, and what is held anew is this epoch, at a machine of the plan whose prepare was answered
  -- by a refusal or to which the abort was lost. Where every rank agreed, no cluster ran, the
  -- outstanding prepare is the plan that the selection was resolved to, its targets with no address
  -- are this machine, each machine of it holds its epoch, and nothing else is held that was not.
  pub prepare-IsReserved :
      (recipe : RecipeId) (nodes : List NodeId) (head : NodeId) (settings : Requested)
      (d : Driver W)
      → IsAlone c self
      → IsReserved
          (resolve c recipe nodes head settings (new_epoch c d.world).0 (new_epoch c d.world).1)
          (new_epoch c d.world).1
          d
          (prepare c recipe nodes head settings d)
  unfolding prepare
  prepare-IsReserved recipe nodes head settings d alone =
      let x =
        resolve c recipe nodes head settings (new_epoch c d.world).0 (new_epoch c d.world).1 in
      elim (Option-cases d.running) [
        | inr (r, up) ↦
            subst (IsReserved x (new_epoch c d.world).1 d) (sym (busy r up))
              ((λ n e h. h), refl, refl)
        | inl idle ↦
            let (epoch, w) = new_epoch c d.world in
            subst (IsReserved x (new_epoch c d.world).1 d) (sym (free idle)) (
              asked-IsReserved epoch _ d w
                (λ p e. (
                  (resolve-IsResolved c recipe nodes head settings epoch w p e).named,
                  resolve-IsPlaced c self recipe nodes head settings epoch w p alone e,
                ))
                idle (f.drawn d.world))
      ]
    where
      busy :
          (r : Running)
          → d.running ≡ some r
          → prepare c recipe nodes head settings d ≡ (error (already_running c r), d)
      busy r e = simp (e, prepare)

      free :
          d.running ≡ none
          → prepare c recipe nodes head settings d
            ≡ asked c
                (new_epoch c d.world).0
                (resolve c recipe nodes head settings
                  (new_epoch c d.world).0
                  (new_epoch c d.world).1)
                (record d { world = (new_epoch c d.world).1 })
      free e = simp (e, prepare)
