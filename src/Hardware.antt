-- ===== src/Hardware.antt =====
-- What kind of machine this is (crates/metralectl-core/src/hardware.rs): classifying an
-- accelerator's name, and the gate that a required class puts before a launch.
pub mod Laws
mod Tests
use metralectl.Prelude.{
  lower, ℕ, suc, ◌+◌, Bool, true, false, ◌&&◌, ◌||◌, Option, none, some, String, all,
}
use metralectl.Prelude.{List, [], ◌∷◌, map, code, leb, ◌==◌, if◌then◌else◌, str_eq, ◌<>◌, codes}

-- A class name, the text that `as_str` returns.
abbrev pub HardwareClass : Type 0
HardwareClass = String

abbrev pub gb10 : HardwareClass
gb10 = "gb10"

-- `char::is_whitespace`: the code points of Unicode's White_Space.
abbrev is_space : ℕ → Bool
is_space c =
    leb 9 c && leb c 13
    || c == 32
    || c == 133
    || c == 160
    || c == 5760
    || leb 8192 c && leb c 8202
    || c == 8232
    || c == 8233
    || c == 8239
    || c == 8287
    || c == 12288

unfoldable pub starts : List ℕ → List ℕ → Bool
starts [] text = true
starts (p ∷ ps) [] = false
starts (p ∷ ps) (c ∷ cs) = p == c && starts ps cs

-- `str::contains`.
unfoldable pub contains : List ℕ → List ℕ → Bool
unfolding starts
contains pattern [] = starts pattern []
contains pattern (c ∷ cs) = starts pattern (c ∷ cs) || contains pattern cs

-- The class of a machine whose accelerator calls itself `accelerator`.
unfoldable pub classify : String → Option HardwareClass
unfolding contains
classify accelerator =
    let a = map lower (codes accelerator) in
    if contains (codes "gb10") a || contains (codes "grace blackwell") a then some gb10 else none

-- Whether this machine is of the required class; `some` is the refusal's reason.
unfoldable pub check : HardwareClass → String → Option String
check required accelerator = elim (classify accelerator) [
  | some here ↦
      if str_eq here required
      then none
      else some (
          "it requires " <> required <> " hardware and this machine is " <> here <> " ("
          <> accelerator <> ")")
  | none ↦
      if all is_space (codes accelerator)
      then some ("it requires " <> required <> " hardware and this machine reported no accelerator")
      else some (
          "it requires " <> required <> " hardware and this machine's accelerator (" <> accelerator
          <> ") is not a class this build recognises")
]
