-- ===== src/Stats/Sample/Flags.antt =====
-- What the flags of the statistics of src/common/stats.cpp say of its fields.
use Prim.Native.Nat.{bit_and}
use ckmux.Prelude.{ℕ, ◌≡◌, Option, arith}
use ckmux.Prelude.Int.{ℤ}
use ckmux.Stats.Sample.{
  ProcessLib, CpuBaseline, flag_has_real, flag_has_cpu, flag_has_rss, described, with_alive,
  with_rss, with_real, with_cpu, make_term_stats,
}

module _ (C : ProcessLib) where
  -- Whatever was sampled, the rate, the resident and the real bytes are zero unless the flag of each
  -- says that it was measured.
  pub make_term_stats-unmeasured :
      (sample : C.Resources) (baseline : CpuBaseline C) (now : ℤ) (terminal : ℕ)
      (platform_cost : Option ℕ)
      → (let stats = (make_term_stats C sample baseline now terminal platform_cost).0 in
          (bit_and stats.flags flag_has_cpu ≡ 0 → stats.cpu_permille ≡ 0)
          × (bit_and stats.flags flag_has_rss ≡ 0 → stats.rss_bytes ≡ 0)
          × (bit_and stats.flags flag_has_real ≡ 0 → stats.real_bytes ≡ 0))
  unfolding make_term_stats described with_alive with_rss with_real with_cpu
  make_term_stats-unmeasured sample baseline now terminal platform_cost = ground arith
