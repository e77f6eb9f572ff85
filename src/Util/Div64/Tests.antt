-- ===== src/Util/Div64/Tests.antt =====
-- The division on concrete numbers.
use wey_os.Base.{◌/◌, ◌%◌, ◌≡◌, refl, none, arith}
use wey_os.Util.Div64.{turn, turns, do_div, do_div_arch, do_div_lem}

runs : do_div 1_000_000_000_007 10 ≡ (100_000_000_000, 7)
unfolding do_div turns turn
runs = refl

faults : do_div_arch 1_000_000_000_007 10 ≡ none
unfolding do_div_arch
faults = refl

do_div_lem_example : do_div 1_000_000_000_007 10 ≡ (1_000_000_000_007 / 10, 1_000_000_000_007 % 10)
do_div_lem_example = do_div_lem 1_000_000_000_007 10 (omega arith) (omega arith) (omega arith)
