-- ===== src/Cluster/Rendezvous.antt =====
-- Whether a machine can reach an address that it is to meet at
-- (crates/metralectl-agent/src/rendezvous.rs). Reading an IPv4 address from text is the standard
-- library's, a parameter that yields the address as a number; asking the network is one too.
use Prim.Native.Nat.{bit_and}
use metralectl.Prelude.{ℕ, ◌-◌, ◌*◌, ◌%◌, ◌^◌, Bool, true, false, ◌||◌, ◌&&◌}
use metralectl.Prelude.{List, [], ◌∷◌, Option, none, some, String, ◌<>◌, filter, map, any, ltb}
use metralectl.Prelude.{◌==◌, if◌then◌else◌, codes, decimal, str_eq}
use metralectl.LocalControl.Recipes.{comma_joined}
use metralectl.Cluster.Fleet.{NodeAddress, usable, usable_for_cluster, best}

-- `u32::MAX << (32 - prefix)`, or `u32::MAX` for a host's own prefix.
abbrev pub mask : ℕ → ℕ
mask prefix = if prefix == 32 then 2 ^ 32 - 1 else (2 ^ 32 - 1) * 2 ^ (32 - prefix) % 2 ^ 32

unfoldable pub same_network : ℕ → ℕ → ℕ → Bool
same_network a b prefix =
    if prefix == 0 || ltb 32 prefix
    then false
    else bit_and a (mask prefix) == bit_and b (mask prefix)

abbrev pub same_if_read : Option ℕ → Option ℕ → ℕ → Bool
same_if_read (some h) (some o) prefix = same_network h o prefix
same_if_read h o prefix = false

-- The text order, which `sort` of strings and of node ids goes by.
text_le : List ℕ → List ℕ → Bool
text_le [] t = true
text_le (c ∷ s) [] = false
text_le (c ∷ s) (d ∷ t) = ltb c d || (c == d && text_le s t)

unfoldable pub str_le : String → String → Bool
unfolding text_le
str_le s t = text_le (codes s) (codes t)

-- `sort` and `dedup` of strings, at one go: an insertion leaves a repeated one out.
insert_text : String → List String → List String
insert_text s [] = s ∷ []
insert_text s (t ∷ ts) =
    let rest = insert_text s ts in
    if str_eq s t then t ∷ ts else if str_le s t then s ∷ t ∷ ts else t ∷ rest

sorted_texts : List String → List String
sorted_texts [] = []
sorted_texts (s ∷ ss) = insert_text s (sorted_texts ss)

abbrev pub link_text : NodeAddress → String
link_text a = a.addr <> "/" <> decimal a.prefix_len <> " on " <> a.iface

explanation : String → List String → String
explanation target [] =
    "this node cannot reach the rendezvous address " <> target
    <> ", and reports no subnets of its own to compare it against"
explanation target (link ∷ links) =
    "this node cannot reach the rendezvous address "
    <> target
    <> ". It is attached to "
    <> comma_joined (link ∷ links)
    <> ". The head offered an address on a link this machine is not on -- a DGX Spark carries "
    <> "several point-to-point RoCE links, and only one of them reaches here."

-- Why an address was rejected.
unfoldable pub explain : String → List NodeAddress → String
unfolding explanation sorted_texts insert_text
explain target mine =
    explanation target (sorted_texts (map link_text (filter (λ a. ltb 0 a.prefix_len) mine)))

-- What a connection attempt came to, where the window did not expire.
pub data Connected : Type 0 where
  accepted refused reset failed : Connected

-- A refusal proves that the host is there.
unfoldable pub is_an_answer : Connected → Bool
is_an_answer failed = false
is_an_answer c = true

abbrev pub is_answered : Option Connected → Bool
is_answered none = false
is_answered (some c) = is_an_answer c

-- The parse of an address, and the outcome of a connection to one.
unfoldable pub answers :
    {I : Type 0} → (String → Option I) → (I → ℕ → Option Connected) → String → ℕ → Bool
answers parse connect_outcome target port = elim (parse target) [
  | none ↦ false
  | some ip ↦ is_answered (connect_outcome ip port)
]

abbrev pub or_else : {A : Type 0} → Option A → Option A → Option A
or_else none b = b
or_else (some a) b = some a

module _ (parse : String → Option ℕ) where
  unfoldable pub shares_network : String → ℕ → String → Bool
  unfolding same_network
  shares_network host prefix other = same_if_read (parse host) (parse other) prefix

  abbrev pub is_attached : ℕ → NodeAddress → Bool
  is_attached t a =
      if a.prefix_len == 0 || ltb 32 a.prefix_len
      then false
      else same_if_read (parse a.addr) (some t) a.prefix_len

  -- Whether `target` is on a subnet that one of these is attached to.
  unfoldable pub on_local_subnet : String → List NodeAddress → Bool
  unfolding same_network
  on_local_subnet target mine = elim (parse target) [
    | none ↦ false
    | some t ↦ any (is_attached t) mine
  ]

  -- The best address that is reachable from here, or the plain best where none shows to be.
  unfoldable pub best_reachable : List NodeAddress → List NodeAddress → Option NodeAddress
  unfolding on_local_subnet best usable_for_cluster
  best_reachable candidates mine =
      or_else (best (filter (λ a. on_local_subnet a.addr mine) (usable candidates)))
        (best (usable candidates))
