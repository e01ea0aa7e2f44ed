-- ===== src/Protocol/Ids.antt =====
-- Identifiers of the protocol (crates/metralectl-protocol/src/fleet.rs, id.rs).
use metralectl.Prelude.{ℕ, zero, suc, String, ltb, if◌then◌else◌, str_eq, ◌<>◌}
use metralectl.Prelude.{take_chars, drop_chars}

-- A node's fingerprint, by the 64 hex digits that `Display` writes for its 32 bytes. The program
-- compares node ids and prints them.
abbrev pub NodeId : Type 0
NodeId = String

-- A recipe's name, the text that `RecipeId::as_str` returns.
abbrev pub RecipeId : Type 0
RecipeId = String

-- The loop of `NodeId::short`, over the chunks of four digits that are left; `i` is its counter.
short_from : ℕ → ℕ → String → String
short_from zero i hex = ""
short_from (suc left) i hex =
    let rest = short_from left (suc i) (drop_chars 4 hex) in
    if str_eq hex "" then "" else (if ltb 0 i then "-" else "") <> take_chars 4 hex <> rest

-- Four groups of four hex digits from the front of the fingerprint.
unfoldable pub short : NodeId → String
unfolding short_from
short id = short_from 4 0 id
