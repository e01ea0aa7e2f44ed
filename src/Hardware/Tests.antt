-- ===== src/Hardware/Tests.antt =====
-- The hardware gate at the names of concrete accelerators.
use metralectl.Prelude.{◌≡◌, ◌↔◌, refl, none}
use metralectl.Hardware.{check, classify, gb10}
use metralectl.Hardware.Laws.{check-none_iff, IsFamily}

check-none_iff_example :
    (check "gb10" "NVIDIA GB10" ≡ none) ↔ (("gb10" ≡ gb10) × IsFamily "NVIDIA GB10")
check-none_iff_example = check-none_iff "gb10" "NVIDIA GB10"

check_known : check "gb10" "NVIDIA GB10" ≡ none
unfolding check classify
check_known = refl

check_other : classify "NVIDIA H100" ≡ none
unfolding classify
check_other = refl
