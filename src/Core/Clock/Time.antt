-- ===== src/Core/Clock/Time.antt =====
-- How the clock advances: no nanosecond is lost to rounding.
use wey_os.Base.{
  ℕ, zero, suc, ◌+◌, ◌-◌, ◌*◌, ◌/◌, ◌%◌, ◌^◌, ◌≤◌, ◌<◌, ◌≡◌, refl, sym, ◌∙◌, inl, inr, false, some,
  leb, ◌==◌, arith, Bool-cases, leb→le, ok,
}
use native.Mathlib.Nat.{div-add-mod}
use wey_os.Util.Div64.{do_div_arch, divided}
use wey_os.Core.Clock.{
  Clock, nsec_per_sec, u64, zeroed, init, tick, fire, fires, monotonic, set_realtime, realtime,
  default_clocksource,
}

-- What has been counted is what has passed: the nanoseconds times the rate, plus the remainder
-- still to be carried, are the ticks times 10^9.
pub record Exact (hz : ℕ) (n : ℕ) (c : Clock) : Type 0 where
  pub rate : c.hz ≡ hz
  pub ticks : c.ticks ≡ n
  pub split : c.tick_ns * hz + c.tick_ns_remainder ≡ nsec_per_sec
  pub remainder_lt : c.tick_ns_remainder < hz
  pub value : c.monotonic_ns * hz + c.remainder_accum ≡ n * nsec_per_sec
  pub accum_lt : c.remainder_accum < hz

le-mul : (a b : ℕ) → 0 < b → a ≤ a * b
le-mul a zero h = absurd (omega arith)
le-mul a (suc b) h = omega arith

init_lem :
    (hz : ℕ) → 0 < hz → init hz ≡ some (ok (zeroed hz (nsec_per_sec / hz) (nsec_per_sec % hz)))
unfolding init do_div_arch
init_lem hz p =
    let z : (hz == 0) ≡ false = ground arith in
    let f : leb hz (nsec_per_sec / 2 ^ 32) ≡ false = ground arith in rw z (rw f)

init-Exact : (hz : ℕ) {c : Clock} → 0 < hz → init hz ≡ some (ok c) → Exact hz 0 c
init-Exact hz {c} p e =
    let same : zeroed hz (nsec_per_sec / hz) (nsec_per_sec % hz) ≡ c = cc (init_lem hz p) in
    rw (← same) (record {
      rate = refl;
      ticks = refl;
      split = omega (arith, div-add-mod nsec_per_sec hz);
      remainder_lt = omega arith;
      value = omega arith;
      accum_lt = p;
    })

-- The same step over plain numbers.
module _ (m t h n acc r : ℕ) (split : t * h + r ≡ nsec_per_sec) (rem : r < h) (a : acc < h)
    (value : m * h + acc ≡ n * nsec_per_sec) (room : suc n * nsec_per_sec < u64) where
  total : (m + t) * h + (acc + r) ≡ suc n * nsec_per_sec
  total = omega arith

  no_wrap : (m + t) % u64 ≡ m + t
  no_wrap = omega (arith, total, le-mul (m + t) h (omega arith))

  carried : h ≤ acc + r → ((m + t + 1) * h + (acc + r - h) ≡ suc n * nsec_per_sec)
  carried le = omega (arith, total)

  carried_no_wrap : h ≤ acc + r → (m + t + 1) % u64 ≡ m + t + 1
  carried_no_wrap le = omega (arith, carried le, le-mul (m + t + 1) h (omega arith))

tick-Exact :
    (hz n : ℕ) (c : Clock)
    → hz < 2 ^ 32
    → suc n * nsec_per_sec < u64
    → Exact hz n c
    → Exact hz (suc n) (tick c)
unfolding tick
tick-Exact hz n c b h v = elim (Bool-cases (c.tick_ns_remainder == 0)) [
  | inl z ↦ rw z (
      rw w (record {
        rate = v.rate;
        ticks = omega (arith, v.ticks);
        split = v.split;
        remainder_lt = v.remainder_lt;
        value = ground (arith, all);
        accum_lt = v.accum_lt;
      }))
  | inr z ↦
      let s : (c.remainder_accum + c.tick_ns_remainder) % u64
          ≡ c.remainder_accum + c.tick_ns_remainder =
        omega (arith, v.accum_lt, v.remainder_lt) in
      rw z (
        rw w (
          rw s (
            rw v.rate (elim (Bool-cases (leb hz (c.remainder_accum + c.tick_ns_remainder))) [
              | inl y ↦
                  let le = leb→le hz (c.remainder_accum + c.tick_ns_remainder) y in
                  rw y (
                    rw (up le) (record {
                      rate = refl;
                      ticks = omega (arith, v.ticks);
                      split = v.split;
                      remainder_lt = v.remainder_lt;
                      value = more le;
                      accum_lt = omega (arith, v.accum_lt, v.remainder_lt);
                    }))
              | inr y ↦ rw y (record {
                rate = refl;
                ticks = omega (arith, v.ticks);
                split = v.split;
                remainder_lt = v.remainder_lt;
                value = all;
                accum_lt = ground arith;
              })
            ]))))
]
  where
    w : (c.monotonic_ns + c.tick_ns) % u64 ≡ c.monotonic_ns + c.tick_ns
    w =
        no_wrap c.monotonic_ns c.tick_ns hz n c.remainder_accum c.tick_ns_remainder v.split
          v.remainder_lt v.accum_lt v.value h

    all :
        (c.monotonic_ns + c.tick_ns) * hz + (c.remainder_accum + c.tick_ns_remainder)
        ≡ suc n * nsec_per_sec
    all =
        total c.monotonic_ns c.tick_ns hz n c.remainder_accum c.tick_ns_remainder v.split
          v.remainder_lt v.accum_lt v.value h

    more :
        hz ≤ c.remainder_accum + c.tick_ns_remainder
        → (c.monotonic_ns + c.tick_ns + 1) * hz + (c.remainder_accum + c.tick_ns_remainder - hz)
          ≡ suc n * nsec_per_sec
    more =
        carried c.monotonic_ns c.tick_ns hz n c.remainder_accum c.tick_ns_remainder v.split
          v.remainder_lt v.accum_lt v.value h

    up :
        hz ≤ c.remainder_accum + c.tick_ns_remainder
        → (c.monotonic_ns + c.tick_ns + 1) % u64 ≡ c.monotonic_ns + c.tick_ns + 1
    up =
        carried_no_wrap c.monotonic_ns c.tick_ns hz n c.remainder_accum c.tick_ns_remainder v.split
          v.remainder_lt v.accum_lt v.value h

fires-Exact :
    (k hz n : ℕ) (c : Clock)
    → hz < 2 ^ 32
    → (n + k) * nsec_per_sec < u64
    → Exact hz n c
    → Exact hz (n + k) (fires k c)
unfolding fires fire
fires-Exact zero hz n c b h v = let e : n + 0 ≡ n = omega arith in rw e v
fires-Exact (suc k) hz n c b h v =
    let e : n + suc k ≡ suc n + k = omega arith in
    rw e (fires-Exact k hz (suc n) (tick c) b (omega arith) (tick-Exact hz n c b (omega arith) v))

-- After a successful `clock_init` and `n` timer interrupts the clock has counted `n` ticks, and
-- its monotonic time is `n` seconds divided by the rate, rounded down once: the carry makes up for
-- the rounding of every tick. The condition is that `n` seconds in nanoseconds fit 64 bits.
pub fires-monotonic_ns :
    (n hz : ℕ) {c : Clock}
    → 0 < hz
    → hz < 2 ^ 32
    → n * nsec_per_sec < u64
    → init hz ≡ some (ok c)
    → ((fires n c).ticks ≡ n) × ((fires n c).monotonic_ns ≡ n * nsec_per_sec / hz)
fires-monotonic_ns n hz {c} p b h e =
    let v = fires-Exact n hz 0 c b (omega arith) (init-Exact hz p e) in
    let value : (fires n c).monotonic_ns * hz + (fires n c).remainder_accum ≡ n * nsec_per_sec =
      omega (arith, v.value) in
    (
      omega (arith, v.ticks),
      quotient (n * nsec_per_sec) (fires n c).monotonic_ns (fires n c).remainder_accum hz v.accum_lt
          value,
    )
  where
    quotient : (x q r d : ℕ) → r < d → q * d + r ≡ x → q ≡ x / d
    quotient x q r d lt f = (divided x q r d lt (sym f)).0

tick-kept :
    (c : Clock)
    → ((tick c).source ≡ c.source) × ((tick c).realtime_offset_ns ≡ c.realtime_offset_ns)
unfolding tick
tick-kept c = (ground arith, ground arith)

-- Interrupts change neither the source of the time nor the offset of the real time.
fires-kept :
    (n : ℕ) (c : Clock)
    → ((fires n c).source ≡ c.source) × ((fires n c).realtime_offset_ns ≡ c.realtime_offset_ns)
unfolding fires fire
fires-kept zero c = (refl, refl)
fires-kept (suc n) c =
    let ih = fires-kept n (tick c) in let k = tick-kept c in (ih.0 ∙ k.0, ih.1 ∙ k.1)

realtime_lem :
    (c : Clock)
    → c.source ≡ some default_clocksource
    → realtime c ≡ (c.monotonic_ns + c.realtime_offset_ns) % u64
unfolding realtime
realtime_lem c e = rw (e, monotonic)

-- Once the real time has been set, on the default source, it runs with the monotonic time: after
-- any number of interrupts it has moved on from the time set by as many nanoseconds as the
-- monotonic time has, modulo 2^64, also when it was set to a time before the start of the clock.
realtime-set_realtime :
    (n : ℕ) (c : Clock) (time_ns : ℕ)
    → c.source ≡ some default_clocksource
    → c.monotonic_ns < u64
    → (realtime (fires n (set_realtime c time_ns)) + c.monotonic_ns) % u64
      ≡ (time_ns + (fires n (set_realtime c time_ns)).monotonic_ns) % u64
unfolding set_realtime
realtime-set_realtime n c time_ns e b =
    let c' = record c { realtime_offset_ns = (time_ns + u64 - c.monotonic_ns) % u64 } in
    let k = fires-kept n c' in
    let r = realtime_lem (fires n c') (k.0 ∙ e) in rw r (rw k.1 (omega arith))
