-- ===== src/Core/Clock.antt =====
-- Ticks, monotonic and real time, and tick listeners: src/core/clock.c, src/include/kernel/clock.h.
-- The file's static variables are the record `Clock`; counters are 64 bits wide and wrap. A handler
-- of a listener is a number, and firing returns the calls in their order. The spinlocks exclude
-- other callers and leave no trace. `kmalloc`'s success is an argument.
pub mod Time
mod Tests
use wey_os.Base.{
  ℕ, zero, suc, ◌+◌, ◌-◌, ◌%◌, ◌^◌, Bool, true, false, Option, none, some, List, [], ◌∷◌, ◌++◌, leb,
  ◌==◌, if◌then◌else◌, Result, ok, err, einval, enomem,
}
use wey_os.Util.Div64.{do_div_arch}

abbrev pub nsec_per_sec : ℕ
nsec_per_sec = 1_000_000_000

abbrev pub u64 : ℕ
u64 = 2 ^ 64

-- A `read_ns`: `_clocksource_read_default`, or the function of a hardware source.
pub data Reader : Type 0 where
  software : Reader
  hardware : (ℕ → ℕ) → Reader

-- `struct clocksource`, without its name.
pub record ClockSource : Type 0 where
  pub read_ns : Option Reader
  pub private_data : ℕ

-- `struct clockevent`, without its name.
pub record ClockEvent : Type 0 where
  pub start_periodic : Option (ℕ → ℕ → Result (Unit {0}))
  pub stop : Option (ℕ → Unit {0})
  pub private_data : ℕ

-- `struct clockevent_listener`
pub record Listener : Type 0 where
  pub handler : ℕ
  pub private_data : ℕ

pub record Clock : Type 0 where
  pub ticks : ℕ
  pub monotonic_ns : ℕ
  pub realtime_offset_ns : ℕ
  pub tick_ns : ℕ
  pub tick_ns_remainder : ℕ
  pub remainder_accum : ℕ
  pub hz : ℕ
  pub listeners : List Listener
  pub event : Option ClockEvent
  pub source : Option ClockSource

abbrev pub default_clocksource : ClockSource
default_clocksource = record { read_ns = some software; private_data = 0 }

-- What `clock_init` sets, with the quotient and the remainder of 10^9 by the rate.
abbrev pub zeroed : ℕ → ℕ → ℕ → Clock
zeroed timer_hz q r = record {
  ticks = 0;
  monotonic_ns = 0;
  realtime_offset_ns = 0;
  tick_ns = q;
  tick_ns_remainder = r;
  remainder_accum = 0;
  hz = timer_hz;
  listeners = [];
  event = none;
  source = some default_clocksource;
}

-- `clock_init`: `none` would be a divide error.
unfoldable pub init : ℕ → Option (Result Clock)
init timer_hz =
    if timer_hz == 0 then some (err einval) else elim (do_div_arch nsec_per_sec timer_hz) [
      | none ↦ none
      | some (q, r) ↦ some (ok (zeroed timer_hz q r))
    ]

-- The carry of the remainder into the nanoseconds.
pub carry : Clock → Clock
carry c =
    let accum = (c.remainder_accum + c.tick_ns_remainder) % u64 in
    if leb c.hz accum
    then record c { monotonic_ns = (c.monotonic_ns + 1) % u64; remainder_accum = accum - c.hz }
    else record c { remainder_accum = accum }

-- `clock_tick`
unfoldable pub tick : Clock → Clock
unfolding carry
tick c =
    let c' = record c {
      ticks = (c.ticks + 1) % u64;
      monotonic_ns = (c.monotonic_ns + c.tick_ns) % u64;
    } in
    if c.tick_ns_remainder == 0 then c' else carry c'

-- `clock_get_monotonic_ns`
unfoldable pub monotonic : Clock → ℕ
monotonic c = elim c.source [
  | none ↦ c.monotonic_ns
  | some s ↦ elim s.read_ns [
    | none ↦ c.monotonic_ns
    | some r ↦ elim r [ software ↦ c.monotonic_ns | hardware f ↦ f s.private_data ]
  ]
]

-- `clock_set_realtime_ns`
unfoldable pub set_realtime : Clock → ℕ → Clock
set_realtime c time_ns = record c { realtime_offset_ns = (time_ns + u64 - c.monotonic_ns) % u64 }

-- `clock_get_realtime_ns`
unfoldable pub realtime : Clock → ℕ
unfolding monotonic
realtime c = (monotonic c + c.realtime_offset_ns) % u64

-- `clocksource_register`; the argument may be NULL. A registered source has its `read_ns`, so the
-- `none` that `monotonic` meets there is never taken.
unfoldable pub register_source : Clock → Option ClockSource → Result (Unit {0}) × Clock
register_source c none = (err einval, c)
register_source c (some s) = elim s.read_ns [
  | none ↦ (err einval, c)
  | some _ ↦ (ok tt, record c { source = some s })
]

-- `clockevent_register`
unfoldable pub register_event : Clock → Option ClockEvent → Result (Unit {0}) × Clock
register_event c none = (err einval, c)
register_event c (some e) = elim e.start_periodic [
  | none ↦ (err einval, c)
  | some _ ↦ (ok tt, record c { event = some e })
]

-- `clockevent_start_periodic`
unfoldable pub start_periodic : Clock → ℕ → Result (Unit {0})
start_periodic c hz = elim c.event [
  | none ↦ err einval
  | some e ↦ elim e.start_periodic [ none ↦ err einval | some f ↦ f e.private_data hz ]
]

-- `clockevent_register_listener`; a handler may be NULL.
unfoldable pub register_listener : Bool → Clock → Option ℕ → ℕ → Result (Unit {0}) × Clock
register_listener memory c none d = (err einval, c)
register_listener memory c (some h) d =
    if memory
    then (
      ok tt,
      record c { listeners = c.listeners ++ (record { handler = h; private_data = d }) ∷ [] },
    )
    else (err enomem, c)

-- The loop of `clockevent_fire`: the calls it makes, from first to last.
pub calls : List Listener → List (ℕ × ℕ)
calls [] = []
calls (l ∷ ls) = (l.handler, l.private_data) ∷ calls ls

-- `clockevent_fire`
unfoldable pub fire : Clock → Clock × List (ℕ × ℕ)
unfolding tick calls
fire c = let c' = tick c in (c', calls c'.listeners)

-- `n` timer interrupts.
pub fires : ℕ → Clock → Clock
fires zero c = c
fires (suc n) c = fires n (fire c).0
