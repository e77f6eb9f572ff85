-- ===== src/Core/Clock/Tests.antt =====
-- A 300 Hz clock, whose tick is no whole number of nanoseconds.
use wey_os.Base.{◌*◌, ◌/◌, ◌≡◌, refl, some, ok, arith}
use wey_os.Util.Div64.{do_div_arch}
use wey_os.Core.Clock.{Clock, nsec_per_sec, zeroed, init, fires, fire}
use wey_os.Core.Clock.Time.{fires-monotonic_ns}

abbrev started : Clock
started = zeroed 300 3_333_333 100

started_lem : init 300 ≡ some (ok started)
unfolding init do_div_arch
started_lem = refl

three_ticks : (fires 3 started).monotonic_ns ≡ 10_000_000
unfolding fires fire
three_ticks = refl

fires-monotonic_ns_example :
    ((fires 3 started).ticks ≡ 3) × ((fires 3 started).monotonic_ns ≡ 3 * nsec_per_sec / 300)
fires-monotonic_ns_example =
    fires-monotonic_ns 3 300 (omega arith) (omega arith) (omega arith) started_lem
