-- ===== src/Cluster/Placed.antt =====
-- Where the targets of a resolved selection lead
-- (crates/metralectl-agent/src/clusterdriver/plan.rs).
use metralectl.Prelude.{◌≡◌, ◌⊎◌, inl, inr, refl, sym, ap, subst, ◌∙◌, true, List, [], ◌∷◌}
use metralectl.Prelude.{
  Option, none, String, Memᴰ, All, All-map, find, find-some, Option-cases, Bool-cases, str_eq,
  eq_iff, arith, Result, ok, err, success, Fallible-cases, length, ◌==◌, ==_iff,
}
use metralectl.Protocol.{NodeId, RecipeId}
use metralectl.Settings.Gate.{Requested}
use metralectl.Cluster.Fleet.{NodeDescriptor}
use metralectl.Cluster.Plan.{RankAssignment, ClusterPlan, plan}
use metralectl.Cluster.Ports.{Machines, Target, Pending, SocketAddr}
use metralectl.Cluster.Resolve.{resolve, targets_of, address_of, select, kept, to_u32}
use metralectl.Cluster.Faithful.{IsPlaced}

Result-cases : {E A : Type 0} (x : Result E A) → ((a : A) × (x ≡ ok a)) ⊎ ((e : E) × (x ≡ err e))
Result-cases (ok a) = inl (a, refl)
Result-cases (err e) = inr (e, refl)

-- Every selected node is one that is known.
select-mem :
    (known : List NodeDescriptor) (ids : List NodeId) {n : NodeDescriptor}
    → Memᴰ n (select known ids)
    → Memᴰ n known
unfolding select
select-mem known [] m = elim m [ ]
select-mem known (id ∷ ids) {n} m = elim (Option-cases (find (λ x. str_eq x.id id) known)) [
  | inl absent ↦ select-mem known ids (subst (λ o. Memᴰ n (kept o (select known ids))) absent m)
  | inr (x, found) ↦ elim (subst (λ o. Memᴰ n (kept o (select known ids))) found m) [
    | Memᴰ.head e ↦ subst (λ y. Memᴰ y known) (sym e) (find-some _ known found).0
    | Memᴰ.tail m' ↦ select-mem known ids m'
  ]
]

module _ {W : Type 0} (c : Machines W) where
  -- Only this machine has no address.
  address_of-none : (n : NodeDescriptor) (w : W) → address_of c n w ≡ ok none → n.is_local ≡ true
  unfolding address_of
  address_of-none n w e = ground arith

  -- Each target is that of a selected node: its id, its address, and its name.
  data IsTargetOf (selected : List NodeDescriptor) (w : W) : Target → Type 0 where
    of :
        (n : NodeDescriptor) (t : Target)
        → Memᴰ n selected
        → n.id ≡ t.assignment.node
        → address_of c n w ≡ ok t.addr
        → IsTargetOf selected w t

  targets_of-IsTargetOf :
      (selected : List NodeDescriptor) (ranks : List RankAssignment) (w : W) (ts : List Target)
      → targets_of c selected ranks w ≡ ok ts
      → All (IsTargetOf selected w) ts
  unfolding targets_of
  targets_of-IsTargetOf selected [] w ts e =
      let same : [] ≡ ts = ground arith in subst (All (IsTargetOf selected w)) same tt
  targets_of-IsTargetOf selected (a ∷ rest) w ts e =
      elim (Option-cases (find (λ n. str_eq n.id a.node) selected)) [
        | inl left ↦ absurd (ground arith)
        | inr (n, found) ↦ elim (Result-cases (address_of c n w)) [
          | inr (why, bad) ↦ absurd (ground arith)
          | inl (addr, at_n) ↦ elim (Result-cases (targets_of c selected rest w)) [
            | inr (why, bad) ↦ absurd (ground arith)
            | inl (more, others) ↦
                let t : Target = record { assignment = a; addr = addr; name = n.name } in
                let same : t ∷ more ≡ ts = ground arith in
                let (listed, named) = find-some _ selected found in
                subst (All (IsTargetOf selected w)) same (
                  of n t listed ((eq_iff n.id a.node).0 named) at_n,
                  targets_of-IsTargetOf selected rest w more others,
                )
          ]
        ]
      ]

  -- This machine is the only one that is local in the fleet's view.
  abbrev pub IsAlone : NodeId → Type 0
  IsAlone self = (w : W) (n : NodeDescriptor) → Memᴰ n (c.nodes w) → n.is_local ≡ true → n.id ≡ self

  -- What a resolved selection is made of.
  pub record IsResolved (recipe : RecipeId) (nodes : List NodeId) (head : NodeId)
      (settings : Requested) (epoch : String) (w : W) (p : Pending) : Type 0 where
    pub hash : String
    pub planned : ClusterPlan
    pub known : length (select (c.nodes w) nodes) ≡ length nodes
    pub hashed : c.rank.content_hash recipe ≡ success hash
    pub plans :
        plan c.parse_ip recipe hash
          (to_u32 (length nodes))
          (select (c.nodes w) nodes)
          head
          settings
          epoch
        ≡ ok planned
    pub targets : targets_of c (select (c.nodes w) nodes) planned.ranks w ≡ ok p.targets
    pub named : p.epoch ≡ epoch

  pub resolve-IsResolved :
      (recipe : RecipeId) (nodes : List NodeId) (head : NodeId) (settings : Requested)
      (epoch : String) (w : W) (p : Pending)
      → resolve c recipe nodes head settings epoch w ≡ ok p
      → IsResolved recipe nodes head settings epoch w p
  unfolding resolve
  resolve-IsResolved recipe nodes head settings epoch w p e =
      elim (Bool-cases (length (select (c.nodes w) nodes) == length nodes)) [
        | inr left ↦ absurd (ground arith)
        | inl same ↦ elim (Fallible-cases (c.rank.content_hash recipe)) [
          | inr (why, bad) ↦ absurd (ground arith)
          | inl (hash, hashed) ↦
              elim (Result-cases (
                plan c.parse_ip recipe hash (to_u32 (length nodes)) (select (c.nodes w) nodes) head
                  settings epoch)) [
                    | inr (why, bad) ↦ absurd (ground arith)
                    | inl (planned, plans) ↦
                        elim (Result-cases
                          (targets_of c (select (c.nodes w) nodes) planned.ranks w)) [
                            | inr (why, bad) ↦ absurd (ground arith)
                            | inl (ts, targets) ↦ record {
                              hash = hash;
                              planned = planned;
                              known = (==_iff _ _).0 same;
                              hashed = hashed;
                              plans = plans;
                              targets = targets ∙ ground arith;
                              named = ground arith;
                            }
                          ]
                  ]
        ]
      ]

  pub resolve-IsPlaced :
      (self : NodeId) (recipe : RecipeId) (nodes : List NodeId) (head : NodeId)
      (settings : Requested) (epoch : String) (w : W) (p : Pending)
      → IsAlone self
      → resolve c recipe nodes head settings epoch w ≡ ok p
      → All (IsPlaced self) p.targets
  resolve-IsPlaced self recipe nodes head settings epoch w p alone e =
      let k = resolve-IsResolved recipe nodes head settings epoch w p e in
      All-map leads p.targets
        (targets_of-IsTargetOf (select (c.nodes w) nodes) k.planned.ranks w p.targets k.targets)
    where
      leads : (t : Target) → IsTargetOf (select (c.nodes w) nodes) w t → IsPlaced self t
      leads t (of n _ listed named at_n) here =
          sym named
          ∙ alone w n (select-mem (c.nodes w) nodes listed)
              (address_of-none n w (at_n ∙ ap (λ (a : Option SocketAddr). ok a) here))
