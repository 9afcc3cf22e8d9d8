-- ===== src/Stats/Tests.antt =====
-- The theorems on src/common/stats.cpp at concrete readings.
use Prim.Native.Nat.{bit_and, min}
use ckmux.Prelude.{ℕ, ◌-◌, ◌*◌, ◌/◌, ◌≡◌, refl, Bool, true, false, not, Option, none, some, arith}
use ckmux.Prelude.Int.{pos, negsuc}
use ckmux.Proto.Enums.{TermStatsState}
use ckmux.Stats.Rate.{cpu_rate, maximum}
use ckmux.Stats.Rate.Exact.{cpu_rate-exact}
use ckmux.Stats.Sample.{
  ProcessLib, fresh_baseline, flag_has_real, flag_has_cpu, flag_has_rss, make_term_stats,
}
use ckmux.Stats.Sample.Flags.{make_term_stats-unmeasured}
use ckmux.Stats.Sample.Rates.{elapsed, make_term_stats-interrupted, make_term_stats-rate}

-- A second and a half of processor time in a second.
cpu_rate-exact_example :
    cpu_rate 1500000000 1000000007 ≡ min (1500000000 * 1000 / 1000000007) maximum
cpu_rate-exact_example =
    cpu_rate-exact 1500000000 1000000007 (omega arith) (omega arith) (omega arith)

-- A sample, whose scope is whether the job is owned.
record Sample : Type 0 where
  state : TermStatsState
  owned : Bool
  live : ℕ
  cpu : Option ℕ

abbrev same : Bool → Bool → Bool
same true b = b
same false b = not b

abbrev plain : ProcessLib
plain = record {
  Scope = Bool;
  Resources = Sample;
  is_owned_job = λ scope. scope;
  same_scope = same;
  process_lifetime = false;
  state = λ s. s.state;
  cpu_scope = λ s. s.owned;
  live_processes = λ s. s.live;
  unreadable_processes = λ s. 0;
  system_error = λ s. 0;
  rss_bytes = λ s. some 4096;
  private_rss_bytes = λ s. none;
  cpu_time_nanos = λ s. s.cpu;
}

abbrev earlier_sample : Sample
earlier_sample = record {
  state = TermStatsState.available;
  owned = true;
  live = 2;
  cpu = some 1000;
}

abbrev later_sample : Sample
later_sample = record { state = TermStatsState.partial; owned = true; live = 1; cpu = some 4000000 }

abbrev lost_sample : Sample
lost_sample = record { state = TermStatsState.failed; owned = true; live = 0; cpu = none }

make_term_stats-unmeasured_example :
    (let stats =
        (make_term_stats plain later_sample (fresh_baseline plain) (pos 5) 3 (some 8192)).0 in
      (bit_and stats.flags flag_has_cpu ≡ 0 → stats.cpu_permille ≡ 0)
      × (bit_and stats.flags flag_has_rss ≡ 0 → stats.rss_bytes ≡ 0)
      × (bit_and stats.flags flag_has_real ≡ 0 → stats.real_bytes ≡ 0))
make_term_stats-unmeasured_example =
    make_term_stats-unmeasured plain later_sample (fresh_baseline plain) (pos 5) 3 (some 8192)

make_term_stats-interrupted_example :
    (let left = (make_term_stats plain lost_sample (fresh_baseline plain) (pos 1) 3 none).1 in
      bit_and (make_term_stats plain later_sample left (pos 5) 3 none).0.flags flag_has_cpu ≡ 0)
make_term_stats-interrupted_example =
    make_term_stats-interrupted plain lost_sample later_sample (fresh_baseline plain) (pos 1)
      (pos 5) 3 none none refl

-- The clock goes from before zero to after it.
make_term_stats-rate_example :
    (let left =
        (make_term_stats plain earlier_sample (fresh_baseline plain) (negsuc 1000000) 3 none).1 in
      let stats = (make_term_stats plain later_sample left (pos 1000000) 3 none).0 in
      (bit_and stats.flags flag_has_cpu ≡ flag_has_cpu)
      × (stats.cpu_permille
          ≡ min ((4000000 - 1000) * 1000 / elapsed (pos 1000000) (negsuc 1000000)) maximum))
make_term_stats-rate_example =
    make_term_stats-rate plain earlier_sample later_sample (fresh_baseline plain) (negsuc 1000000)
      (pos 1000000) 3 none none 1000 4000000 refl refl refl refl refl refl (omega arith)
      (omega arith) (omega arith) (omega arith)
