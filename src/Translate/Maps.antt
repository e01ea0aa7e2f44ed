-- ===== src/Translate/Maps.antt =====
-- The maps of a launch (`BTreeMap<String, _>`), their entries in key order: reading a key, and
-- writing one.
use metralectl.Prelude.{List, [], ◌∷◌, Option, none, some, String, str_eq, if◌then◌else◌}
use metralectl.Cluster.Rendezvous.{str_le}

module _ {A : Type 0} where
  unfoldable pub get : String → List (String × A) → Option A
  get k [] = none
  get k ((j, v) ∷ rest) = let more = get k rest in if str_eq k j then some v else more

  unfoldable pub insert : String → A → List (String × A) → List (String × A)
  unfolding str_le
  insert k v [] = (k, v) ∷ []
  insert k v ((j, u) ∷ rest) =
      let more = insert k v rest in
      if str_eq k j
      then (k, v) ∷ rest
      else if str_le k j
      then (k, v) ∷ (j, u) ∷ rest
      else (j, u) ∷ more

  -- `extend`: the entries in their order, a later one in place of an earlier.
  unfoldable pub extend : List (String × A) → List (String × A) → List (String × A)
  unfolding insert
  extend [] m = m
  extend ((k, v) ∷ rest) m = extend rest (insert k v m)

  pub remove : String → List (String × A) → List (String × A)
  remove k [] = []
  remove k ((j, v) ∷ rest) = let more = remove k rest in if str_eq k j then more else (j, v) ∷ more
