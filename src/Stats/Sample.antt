-- ===== src/Stats/Sample.antt =====
-- `make_term_stats` of src/common/stats.cpp: what a reader is told of a sample of a terminal's
-- processes, and the baseline for the next rate. The sample is ckVision's.
pub mod Flags
pub mod Rates
use Prim.Native.Nat.{bit_or}
use ckmux.Prelude.{
  ℕ, ◌+◌, ◌-◌, ◌%◌, ◌^◌, Bool, true, false, not, ◌&&◌, ◌||◌, Option, none, some, leb, ltb, ◌==◌,
  if◌then◌else◌,
}
use ckmux.Prelude.Int.{ℤ, pos, negsuc, to_word}
use ckmux.Proto.Enums.{TermStatsState, TermStatsScope, TermStatsMemory}
use ckmux.Proto.Events.{TermStats}
use ckmux.Stats.Rate.{cpu_rate}

-- What is read of `ckv::core::ProcessResources` (cvision/core/process_resources.hpp). The state is
-- given as the case of the switch that it takes.
pub record ProcessLib : Type 1 where
  pub Scope : Type 0
  pub Resources : Type 0
  pub is_owned_job : Scope → Bool
  pub same_scope : Scope → Scope → Bool
  pub process_lifetime : Scope
  pub state : Resources → TermStatsState
  pub cpu_scope : Resources → Scope
  pub live_processes : Resources → ℕ
  pub unreadable_processes : Resources → ℕ
  pub system_error : Resources → ℕ
  pub rss_bytes : Resources → Option ℕ
  pub private_rss_bytes : Resources → Option ℕ
  pub cpu_time_nanos : Resources → Option ℕ

pub record CpuBaseline (C : ProcessLib) : Type 0 where
  pub cpu_nanos : ℕ
  pub at_nanos : ℤ
  pub scope : C.Scope
  pub primed : Bool

abbrev pub fresh_baseline : (C : ProcessLib) → CpuBaseline C
fresh_baseline C = record {
  cpu_nanos = 0;
  at_nanos = pos 0;
  scope = C.process_lifetime;
  primed = false;
}

abbrev pub flag_has_real : ℕ
flag_has_real = 1

abbrev pub flag_alive : ℕ
flag_alive = 2

abbrev pub flag_has_cpu : ℕ
flag_has_cpu = 4

abbrev pub flag_has_rss : ℕ
flag_has_rss = 8

abbrev pub is_available : TermStatsState → Bool
is_available TermStatsState.available = true
is_available _ = false

abbrev pub is_partial : TermStatsState → Bool
is_partial TermStatsState.partial = true
is_partial _ = false

-- a > b on signed values
abbrev pub later : ℤ → ℤ → Bool
later (pos a) (pos b) = ltb b a
later (pos a) (negsuc b) = true
later (negsuc a) (pos b) = false
later (negsuc a) (negsuc b) = ltb a b

-- The difference of the two casts to 64-bit unsigned.
abbrev pub wall_between : ℤ → ℤ → ℕ
wall_between now at = (to_word (2 ^ 63) now + 2 ^ 64 - to_word (2 ^ 63) at) % 2 ^ 64

module _ (C : ProcessLib) where
  -- The fields that are set whatever was measured.
  unfoldable pub described : C.Resources → ℕ → TermStats
  described sample terminal = record {
    term = terminal;
    cpu_permille = 0;
    rss_bytes = 0;
    real_bytes = 0;
    flags = 0;
    state = C.state sample;
    cpu_scope =
        if C.is_owned_job (C.cpu_scope sample)
        then TermStatsScope.owned_job_lifetime
        else TermStatsScope.live_process_tree;
    real_kind = TermStatsMemory.platform_cost;
    live_processes = C.live_processes sample;
    unreadable_processes = C.unreadable_processes sample;
    system_error = C.system_error sample;
  }

  unfoldable pub with_alive : C.Resources → TermStats → TermStats
  with_alive sample stats =
      if not (C.live_processes sample == 0) || not (C.unreadable_processes sample == 0)
      then record stats { flags = bit_or stats.flags flag_alive }
      else stats

  unfoldable pub with_rss : Option ℕ → TermStats → TermStats
  with_rss none stats = stats
  with_rss (some bytes) stats = record stats {
    rss_bytes = bytes;
    flags = bit_or stats.flags flag_has_rss;
  }

  -- `private_rss` first, and the platform's cost in its place.
  unfoldable pub with_real : Option ℕ → Option ℕ → TermStats → TermStats
  with_real (some bytes) platform_cost stats = record stats {
    real_bytes = bytes;
    real_kind = TermStatsMemory.private_resident;
    flags = bit_or stats.flags flag_has_real;
  }
  with_real none (some bytes) stats = record stats {
    real_bytes = bytes;
    real_kind = TermStatsMemory.platform_cost;
    flags = bit_or stats.flags flag_has_real;
  }
  with_real none none stats = stats

  -- Whether an interval has been measured.
  unfoldable pub has_interval : CpuBaseline C → C.Scope → ℤ → ℕ → Bool
  has_interval baseline scope now cpu =
      baseline.primed
      && C.same_scope baseline.scope scope
      && later now baseline.at_nanos
      && leb baseline.cpu_nanos cpu

  unfoldable pub with_cpu : CpuBaseline C → C.Scope → ℤ → Option ℕ → TermStats → TermStats
  unfolding has_interval
  with_cpu baseline scope now none stats = stats
  with_cpu baseline scope now (some cpu) stats =
      if has_interval baseline scope now cpu
      then record stats {
        cpu_permille = cpu_rate (cpu - baseline.cpu_nanos) (wall_between now baseline.at_nanos);
        flags = bit_or stats.flags flag_has_cpu;
      }
      else stats

  unfoldable pub next_baseline : CpuBaseline C → C.Scope → ℤ → Option ℕ → CpuBaseline C
  next_baseline baseline scope now none = record baseline { primed = false }
  next_baseline baseline scope now (some cpu) = record {
    cpu_nanos = cpu;
    at_nanos = now;
    scope = scope;
    primed = true;
  }

  -- The statistics, and the baseline that is left behind.
  unfoldable pub make_term_stats :
      C.Resources → CpuBaseline C → ℤ → ℕ → Option ℕ → TermStats × CpuBaseline C
  make_term_stats sample baseline now terminal platform_cost =
      let stats = described sample terminal in
      let state = C.state sample in
      let cpu = C.cpu_time_nanos sample in
      let scope = C.cpu_scope sample in
      let stopped : CpuBaseline C = record baseline { primed = false } in
      if is_available state && C.live_processes sample == 0 && C.unreadable_processes sample == 0
      then (record stats { state = TermStatsState.gone }, stopped)
      else if not (is_available state) && not (is_partial state)
      then (stats, stopped)
      else (
        with_cpu baseline scope now cpu (
            with_real (C.private_rss_bytes sample) platform_cost
              (with_rss (C.rss_bytes sample) (with_alive sample stats))),
        next_baseline baseline scope now cpu,
      )
