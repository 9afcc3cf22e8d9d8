-- ===== src/Stats/Sample/Rates.antt =====
-- The rate that two samples in a row give, in `make_term_stats` of src/common/stats.cpp.
use Prim.Native.Nat.{bit_and, min}
use ckmux.Prelude.{
  ℕ, ◌+◌, ◌-◌, ◌*◌, ◌/◌, ◌^◌, ◌≤◌, ◌<◌, ◌≡◌, ◌∙◌, refl, ap, Bool, true, false, not, ◌&&◌, ◌||◌,
  Option, none, some, ◌==◌, arith, le→leb,
}
use ckmux.Prelude.Int.{ℤ, pos, negsuc, magnitude}
use ckmux.Stats.Rate.{cpu_rate, maximum}
use ckmux.Stats.Rate.Exact.{cpu_rate-exact}
use ckmux.Stats.Sample.{
  ProcessLib, CpuBaseline, flag_has_cpu, is_available, is_partial, later, wall_between, described,
  with_alive, with_rss, with_real, has_interval, with_cpu, next_baseline, make_term_stats,
}

-- The time between two readings of the clock.
abbrev pub elapsed : ℤ → ℤ → ℕ
elapsed (pos a) (pos b) = a - b
elapsed (pos a) (negsuc b) = a + b + 1
elapsed (negsuc a) (pos b) = 0
elapsed (negsuc a) (negsuc b) = b - a

-- On either side of zero, and across it, the subtraction of the words is that time.
wall_between_lem :
    (now at : ℤ)
    → magnitude now < 2 ^ 63
    → magnitude at < 2 ^ 63
    → later now at ≡ true
    → (wall_between now at ≡ elapsed now at) × (0 < elapsed now at) × (elapsed now at < 2 ^ 64)
wall_between_lem (pos a) (pos b) h k after = (ground arith, ground arith, ground arith)
wall_between_lem (pos a) (negsuc b) h k after = (ground arith, ground arith, ground arith)
wall_between_lem (negsuc a) (pos b) h k after = cc
wall_between_lem (negsuc a) (negsuc b) h k after = (ground arith, ground arith, ground arith)

module _ (C : ProcessLib) where
  -- The sample says something of processes that there are.
  abbrev pub measured : C.Resources → Bool
  measured sample =
      (is_available (C.state sample) || is_partial (C.state sample))
      && not (
          is_available (C.state sample)
          && C.live_processes sample == 0
          && C.unreadable_processes sample == 0)

  abbrev pub has_cpu_time : C.Resources → Bool
  has_cpu_time sample = elim (C.cpu_time_nanos sample) [ none ↦ false | some cpu ↦ true ]

  make_term_stats-primed :
      (sample : C.Resources) (baseline : CpuBaseline C) (now : ℤ) (terminal : ℕ)
      (platform_cost : Option ℕ)
      → (make_term_stats C sample baseline now terminal platform_cost).1.primed
        ≡ (measured sample && has_cpu_time sample)
  unfolding make_term_stats next_baseline
  make_term_stats-primed sample baseline now terminal platform_cost = ground arith

  make_term_stats-unprimed :
      (sample : C.Resources) (baseline : CpuBaseline C) (now : ℤ) (terminal : ℕ)
      (platform_cost : Option ℕ)
      → baseline.primed ≡ false
      → bit_and (make_term_stats C sample baseline now terminal platform_cost).0.flags flag_has_cpu
        ≡ 0
  unfolding make_term_stats described with_alive with_rss with_real with_cpu has_interval
  make_term_stats-unprimed sample baseline now terminal platform_cost e = rw e (ground arith)

  -- After a sample that measured no processes, or no processor time, the next one gives no rate,
  -- whatever it says.
  pub make_term_stats-interrupted :
      (first second : C.Resources) (baseline : CpuBaseline C) (at now : ℤ) (terminal : ℕ)
      (cost cost' : Option ℕ)
      → (measured first && has_cpu_time first) ≡ false
      → (let left = (make_term_stats C first baseline at terminal cost).1 in
          bit_and (make_term_stats C second left now terminal cost').0.flags flag_has_cpu ≡ 0)
  make_term_stats-interrupted first second baseline at now terminal cost cost' e =
      make_term_stats-unprimed second _ now terminal cost'
        (make_term_stats-primed first baseline at terminal cost ∙ e)

  -- What a measured sample with a processor time leaves behind.
  make_term_stats-left :
      (sample : C.Resources) (baseline : CpuBaseline C) (now : ℤ) (terminal : ℕ)
      (platform_cost : Option ℕ) (cpu : ℕ)
      → measured sample ≡ true
      → C.cpu_time_nanos sample ≡ some cpu
      → (make_term_stats C sample baseline now terminal platform_cost).1
        ≡ record { cpu_nanos = cpu; at_nanos = now; scope = C.cpu_scope sample; primed = true }
  unfolding make_term_stats next_baseline
  make_term_stats-left sample baseline now terminal platform_cost cpu m e = rw e (ground arith)

  -- A measured sample over a primed baseline.
  make_term_stats-over :
      (sample : C.Resources) (baseline : CpuBaseline C) (now : ℤ) (terminal : ℕ)
      (platform_cost : Option ℕ) (cpu : ℕ)
      → measured sample ≡ true
      → C.cpu_time_nanos sample ≡ some cpu
      → has_interval C baseline (C.cpu_scope sample) now cpu ≡ true
      → (let stats = (make_term_stats C sample baseline now terminal platform_cost).0 in
          (bit_and stats.flags flag_has_cpu ≡ flag_has_cpu)
          × (stats.cpu_permille
              ≡ cpu_rate (cpu - baseline.cpu_nanos) (wall_between now baseline.at_nanos)))
  unfolding make_term_stats described with_alive with_rss with_real with_cpu
  make_term_stats-over sample baseline now terminal platform_cost cpu m e i =
      rw (e, i) (ground arith)

  -- Two samples in a row that measured processes of one scope and their processor time, which has
  -- not gone back while the clock went on, give a rate, and it is the exact quotient of the
  -- thousandfold difference of the processor times by the time between the samples, held to the
  -- largest value of its 32 bits; counters and clocks are of 64 bits.
  pub make_term_stats-rate :
      (first second : C.Resources) (baseline : CpuBaseline C) (at now : ℤ) (terminal : ℕ)
      (cost cost' : Option ℕ) (before after : ℕ)
      → measured first ≡ true
      → C.cpu_time_nanos first ≡ some before
      → measured second ≡ true
      → C.cpu_time_nanos second ≡ some after
      → C.same_scope (C.cpu_scope first) (C.cpu_scope second) ≡ true
      → later now at ≡ true
      → before ≤ after
      → after < 2 ^ 64
      → magnitude at < 2 ^ 63
      → magnitude now < 2 ^ 63
      → (let left = (make_term_stats C first baseline at terminal cost).1 in
          let stats = (make_term_stats C second left now terminal cost').0 in
          (bit_and stats.flags flag_has_cpu ≡ flag_has_cpu)
          × (stats.cpu_permille ≡ min ((after - before) * 1000 / elapsed now at) maximum))
  unfolding has_interval
  make_term_stats-rate first second baseline at now terminal cost cost' before after m e m' e' scope
        on grown fits small small' =
      let left = make_term_stats-left first baseline at terminal cost before m e in
      let (wall, moved, short) = wall_between_lem now at small' small on in
      let given : CpuBaseline C = record {
        cpu_nanos = before;
        at_nanos = at;
        scope = C.cpu_scope first;
        primed = true;
      } in
      let interval : has_interval C given (C.cpu_scope second) now after ≡ true =
        rw (scope, on, le→leb before after grown) refl in
      let (flag, rate) =
        make_term_stats-over second given now terminal cost' after m' e' interval in
      rw left (
        flag,
        rate
            ∙ ap (cpu_rate (after - before)) wall
            ∙ cpu_rate-exact (after - before) (elapsed now at) (omega arith) short moved,
      )
