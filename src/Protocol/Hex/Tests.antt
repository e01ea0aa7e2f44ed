-- ===== src/Protocol/Hex/Tests.antt =====
-- Inputs for the laws of hex ids.
use metralectl.Prelude.{
  ℕ, ◌≡◌, ◌↔◌, refl, true, false, ◌&&◌, List, [], ◌∷◌, map, codes, length, lower, All,
}
use metralectl.Prelude.{success}
use metralectl.Protocol.Hex.{decode, encode, all_zero, parse_id, parse_node}
use metralectl.Protocol.Hex.Laws.{IsByte, parse_id_iff, as_decoded, decode-parse_node}

abbrev session : List ℕ
session = 10 ∷ 255 ∷ []

reads_either_case : parse_id true "SessionId" 2 (codes "0aFf") ≡ success session
unfolding parse_id
reads_either_case = refl

writes_lower_case : encode session ≡ codes "0aff"
unfolding encode
writes_lower_case = refl

parse_id_iff_example : (parse_id true "SessionId" 2 (codes "0aFf") ≡ success session) ↔ (
    (map lower (codes "0aFf") ≡ encode session)
    × (length session ≡ 2)
    × All IsByte session
    × ((true && all_zero session) ≡ false))
parse_id_iff_example = parse_id_iff true "SessionId" 2 (codes "0aFf") session

decode-parse_node_example : decode 32 (codes "0g") ≡ as_decoded (parse_node (codes "0g"))
decode-parse_node_example = decode-parse_node (codes "0g")
