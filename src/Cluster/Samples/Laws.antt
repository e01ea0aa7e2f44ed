-- ===== src/Cluster/Samples/Laws.antt =====
-- What the ranks of the two machines keep to.
use metralectl.Prelude.{
  ◌≡◌, ◌⊎◌, inl, inr, refl, sym, ap, subst, ◌∙◌, true, not, ◌&&◌, List, [], ◌∷◌,
}
use metralectl.Prelude.{
  Option, none, some, String, Memᴰ, mem-filter, any, Bool-cases, str_eq, eq_iff, arith, false≢true,
}
use metralectl.Protocol.{NodeId}
use metralectl.Cluster.Fleet.{NodeDescriptor}
use metralectl.Cluster.Ports.{prepared, Target}
use metralectl.Prelude.{success}
use metralectl.Cluster.Ports.{
  ask_prepare, ask_commit, ask_alive, ask_stop, ask_abort, prepare_at, commit_at, alive_at, stop_at,
  abort_at, new_epoch,
}
use metralectl.Cluster.Faithful.{IsPlaced, IsFaithful}
use metralectl.Cluster.Placed.{IsAlone}
use metralectl.Cluster.Honoured.{IsHonoured}
use metralectl.Cluster.Samples.{
  Holds, Runs, Loses, refuses, Site, halt, is_pair, look, pair, release, reserve, start, without,
}

mem-without :
    (n m : NodeId) (k j : String) (xs : List (NodeId × String))
    → Memᴰ (m, j) (without n k xs)
    → Memᴰ (m, j) xs × (¬ ((m ≡ n) × (j ≡ k)))
mem-without n m k j xs mem =
    let (listed, other) = mem-filter (λ x. not (is_pair n k x)) xs mem in
    (listed, λ (at_node, named). differs other at_node named)
  where
    differs : not (str_eq n m && str_eq k j) ≡ true → m ≡ n → j ≡ k → ⊥
    differs other at_node named =
        let e1 = (eq_iff n m).1 (sym at_node) in
        let e2 = (eq_iff k j).1 (sym named) in ground (arith, e1, e2)

mem-pair :
    (n : NodeId) (k : String) (xs : List (NodeId × String))
    → any (is_pair n k) xs ≡ true
    → Memᴰ (n, k) xs
mem-pair n k [] e = absurd (cc)
mem-pair n k ((m, j) ∷ xs) e = elim (Bool-cases (is_pair n k (m, j))) [
  | inl same ↦ Memᴰ.head (ground (arith, eq_iff n m, eq_iff k j))
  | inr other ↦ Memᴰ.tail (mem-pair n k xs (ground arith))
]

cons-mem :
    (n m : NodeId) (k j : String) (xs : List (NodeId × String))
    → Memᴰ (m, j) ((n, k) ∷ xs)
    → Memᴰ (m, j) xs ⊎ ((m ≡ n) × (j ≡ k))
cons-mem n m k j xs (Memᴰ.head e) =
    inr (ap (λ (x : NodeId × String). x.0) e, ap (λ (x : NodeId × String). x.1) e)
cons-mem n m k j xs (Memᴰ.tail mem) = inl mem

prepare-node :
    (t : Target) (e : String) (s : Site)
    → IsPlaced "n0" t
    → ask_prepare pair t e s ≡ reserve t.assignment.node e s
unfolding ask_prepare prepare_at
prepare-node t e s placed = by_address t.addr placed
  where
    by_address :
        (o : Option String)
        → (o ≡ none → t.assignment.node ≡ "n0")
        → prepare_at pair t e o s ≡ reserve t.assignment.node e s
    by_address none here = rw (here refl) refl
    by_address (some addr) here = refl

commit-node :
    (t : Target) (e : String) (s : Site)
    → IsPlaced "n0" t
    → ask_commit pair t e s ≡ start t.assignment.node s
unfolding ask_commit commit_at
commit-node t e s placed = by_address t.addr placed
  where
    by_address :
        (o : Option String)
        → (o ≡ none → t.assignment.node ≡ "n0")
        → commit_at pair t e o s ≡ start t.assignment.node s
    by_address none here = rw (here refl) refl
    by_address (some addr) here = refl

alive-node :
    (t : Target) (k : String) (s : Site)
    → IsPlaced "n0" t
    → ask_alive pair t k s ≡ look t.assignment.node k s
unfolding ask_alive alive_at
alive-node t k s placed = by_address t.addr placed
  where
    by_address :
        (o : Option String)
        → (o ≡ none → t.assignment.node ≡ "n0")
        → alive_at pair t k o s ≡ look t.assignment.node k s
    by_address none here = rw (here refl) refl
    by_address (some addr) here = refl

stop-node :
    (t : Target) (k : String) (s : Site)
    → IsPlaced "n0" t
    → ask_stop pair t k s ≡ halt t.assignment.node k s
unfolding ask_stop stop_at
stop-node t k s placed = by_address t.addr placed
  where
    by_address :
        (o : Option String)
        → (o ≡ none → t.assignment.node ≡ "n0")
        → stop_at pair t k o s ≡ halt t.assignment.node k s
    by_address none here = rw (here refl) refl
    by_address (some addr) here = refl

-- An abort releases, or is lost at a busy machine.
abort-node :
    (t : Target) (e : String) (s : Site)
    → IsPlaced "n0" t
    → (ask_abort pair t e s ≡ release t.assignment.node e s)
      ⊎ ((s.busy ≡ true) × (ask_abort pair t e s ≡ s))
unfolding ask_abort abort_at
abort-node t e s placed = by_address t.addr placed
  where
    by_address :
        (o : Option String)
        → (o ≡ none → t.assignment.node ≡ "n0")
        → (abort_at pair t e o s ≡ release t.assignment.node e s)
          ⊎ ((s.busy ≡ true) × (abort_at pair t e o s ≡ s))
    by_address none here = inl (rw (here refl) refl)
    by_address (some addr) here = elim (Bool-cases s.busy) [
      | inl busy ↦ inr (busy, rw busy refl)
      | inr free ↦ inl (rw free refl)
    ]

start-Runs :
    (m : NodeId) (s : Site) (n : NodeId) (k : String)
    → Runs (start m s).1 n k
    → Runs s n k ⊎ (((start m s).0 ≡ success "c") × (n ≡ m) × (k ≡ "c"))
start-Runs m s n k runs = elim (Bool-cases (refuses m s)) [
  | inl busy ↦ inl (rw busy at runs)
  | inr free ↦ elim (cons-mem m n "c" k s.up (rw free at runs)) [
    | inl before ↦ inl before
    | inr (at_node, named) ↦ inr (rw free refl, at_node, named)
  ]
]

start-success :
    (m : NodeId) (s : Site) (container : String)
    → (start m s).0 ≡ success container
    → container ≡ "c"
start-success m s container e = elim (Bool-cases (refuses m s)) [
  | inl busy ↦ let bad = rw busy at e in absurd (cc)
  | inr free ↦ let good = rw free at e in cc
]

reserve-Holds :
    (m : NodeId) (e : String) (s : Site) (n : NodeId) (f : String)
    → Holds (reserve m e s).1 n f
    → Holds s n f ⊎ ((n ≡ m) × (f ≡ e))
reserve-Holds m e s n f holds = elim (Bool-cases (refuses m s)) [
  | inl busy ↦ inl (rw busy at holds)
  | inr free ↦ cons-mem m n e f s.held (rw free at holds)
]

reserve-kept :
    (m : NodeId) (e : String) (s : Site) (n : NodeId) → Holds s n e → Holds (reserve m e s).1 n e
reserve-kept m e s n holds = elim (Bool-cases (refuses m s)) [
  | inl busy ↦ rw busy holds
  | inr free ↦ rw free (Memᴰ.tail holds)
]

reserve-agreed :
    (m : NodeId) (e : String) (s : Site)
    → (reserve m e s).0 ≡ prepared
    → Holds (reserve m e s).1 m e
reserve-agreed m e s agreed = elim (Bool-cases (refuses m s)) [
  | inl busy ↦ let bad = rw busy at agreed in absurd (cc)
  | inr free ↦ rw free (Memᴰ.head refl)
]

halt-Runs :
    (m : NodeId) (j : String) (s : Site) (n : NodeId) (k : String)
    → Runs (halt m j s).1 n k
    → Runs s n k
halt-Runs m j s n k runs = elim (Bool-cases (str_eq j "c")) [
  | inl ours ↦ (mem-without m n j k s.up (rw ours at runs)).0
  | inr foreign ↦ rw foreign at runs
]

halt-gone :
    (m : NodeId) (j : String) (s : Site) → (halt m j s).0 ≡ success tt → ¬ Runs (halt m j s).1 m j
halt-gone m j s done runs = elim (Bool-cases (str_eq j "c")) [
  | inl ours ↦ (mem-without m m j j s.up (rw ours at runs)).1 (refl, refl)
  | inr foreign ↦ let bad = rw foreign at done in absurd (cc)
]

pub pair-IsFaithful : IsFaithful pair "n0" Runs
pair-IsFaithful = record {
  started = λ t e w container n k placed asked runs.
      let is = commit-node t e w placed in
      let named =
        start-success t.assignment.node w container
          (subst (λ x. x.0 ≡ success container) is asked) in
      elim (start-Runs t.assignment.node w n k (subst (λ x. Runs x.1 n k) is runs)) [
        | inl before ↦ inl before
        | inr (good, at_node, is_c) ↦ inr (at_node, is_c ∙ sym named)
      ];
  refused = λ t e w why n k placed asked runs.
      let is = commit-node t e w placed in
      elim (start-Runs t.assignment.node w n k (subst (λ x. Runs x.1 n k) is runs)) [
        | inl before ↦ inl before
        | inr (good, at_node, is_c) ↦ inr at_node
      ];
  stopped = λ t container w n k placed runs.
      halt-Runs t.assignment.node container w n k
        (subst (λ x. Runs x.1 n k) (stop-node t container w placed) runs);
  gone = λ t container w placed done runs.
      let is = stop-node t container w placed in
      halt-gone t.assignment.node container w (subst (λ x. x.0 ≡ success tt) is done)
        (subst (λ x. Runs x.1 t.assignment.node container) is runs);
  aborted = λ t e w n k placed runs. elim (abort-node t e w placed) [
    | inl is ↦ subst (λ x. Runs x n k) is runs
    | inr (busy, is) ↦ subst (λ x. Runs x n k) is runs
  ];
  slept = λ time w n k runs. runs;
  asked = λ t container w n k placed.
      let is = alive-node t container w placed in
      (subst (λ x. Runs x.1 n k) is, subst (λ x. Runs x.1 n k) (sym is));
  honest = λ t container w placed asked.
      let is = alive-node t container w placed in
      mem-pair t.assignment.node container w.up (ground (arith, asked, is));
}

pub pair-IsHonoured : IsHonoured pair "n0" Holds Loses
unfolding new_epoch
pair-IsHonoured = record {
  agreed = λ t e w placed asked.
      let is = prepare-node t e w placed in
      subst (λ x. Holds x.1 t.assignment.node e) (sym is)
        (reserve-agreed t.assignment.node e w (subst (λ x. x.0 ≡ prepared) is asked));
  only = λ t e w n f placed holds.
      reserve-Holds t.assignment.node e w n f
        (subst (λ x. Holds x.1 n f) (prepare-node t e w placed) holds);
  kept = λ t e w n placed holds.
      subst (λ x. Holds x.1 n e) (sym (prepare-node t e w placed))
        (reserve-kept t.assignment.node e w n holds);
  released = λ t e w n f placed holds. elim (abort-node t e w placed) [
    | inl is ↦
        let (before, other) =
          mem-without t.assignment.node n e f w.held (subst (λ x. Holds x n f) is holds) in
        (before, inl other)
    | inr (busy, is) ↦ (subst (λ x. Holds x n f) is holds, inr busy)
  ];
  drawn = λ w n e holds. holds;
}

pub pair-IsAlone : IsAlone pair "n0"
pair-IsAlone s n (Memᴰ.head e) is_local = ap (λ (x : NodeDescriptor). x.id) e
pair-IsAlone s n (Memᴰ.tail (Memᴰ.head e)) is_local =
    absurd (false≢true (sym (ap (λ (x : NodeDescriptor). x.is_local) e) ∙ is_local))
pair-IsAlone s n (Memᴰ.tail (Memᴰ.tail m)) is_local = elim m [ ]
