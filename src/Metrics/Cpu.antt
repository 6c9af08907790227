-- ===== src/Metrics/Cpu.antt =====
-- The usage of the processor and of memory, in numbers that do not overflow.
use native.Mathlib.Nat.{mul-le-mul_right}
use certos.Base.{
  ℕ, ◌+◌, ◌-◌, ◌*◌, ◌/◌, ◌^◌, ◌≤◌, ◌<◌, some, ◌≡◌, ◌∙◌, ap, refl, arith, nat_beq, if◌then◌else◌,
}
use certos.Master.Double.{Double}
use certos.Metrics.{
  SystemMonitor, CpuTimes, Units, wrap_64, minus_64, total_idle, total_non_idle, total_time,
  busy_percent, get_cpu_usage, get_usage,
}

-- The sum of all times of a line, and of those in which the processor was idle.
abbrev pub all_time : CpuTimes → ℕ
all_time c = c.user + c.nice + c.system + c.idle + c.iowait + c.irq + c.softirq + c.steal

abbrev pub idle_time : CpuTimes → ℕ
idle_time c = c.idle + c.iowait

wrap_small : (n : ℕ) → n < 2 ^ 64 → wrap_64 n ≡ n
wrap_small n h = omega arith

total_idle_lem : (c : CpuTimes) → all_time c < 2 ^ 64 → total_idle c ≡ idle_time c
total_idle_lem c h = wrap_small (idle_time c) (omega arith)

total_time_lem : (c : CpuTimes) → all_time c < 2 ^ 64 → total_time c ≡ all_time c
total_time_lem c h =
    let busy = c.user + c.nice + c.system + c.irq + c.softirq + c.steal in
    let busy_small = wrap_small busy (omega arith) in
    let sum : idle_time c + busy ≡ all_time c = omega arith in
    ap wrap_64 (
      ap (λ n. n + total_non_idle c) (total_idle_lem c h)
      ∙ (ap (λ n. idle_time c + n) busy_small ∙ sum))
    ∙ wrap_small (all_time c) h

difference : (a b : ℕ) → b ≤ a → a < 2 ^ 64 → minus_64 a b ≡ a - b
difference a b h k =
    let same : a + 2 ^ 64 - b ≡ a - b + 2 ^ 64 = omega arith in ap wrap_64 same ∙ omega arith

module _ (f : Double) where
  -- Between two readings of /proc/stat whose times do not overflow 64 bits, and of which the later has
  -- no less time in all and no less idle time, the second call gives the share of that interval in which
  -- the processor was not idle, in percent; in an interval without time it gives 0. It also leaves the
  -- later times for the next call.
  pub get_cpu_usage-get_cpu_usage :
      (c c' : CpuTimes) (m : SystemMonitor)
      → all_time c' < 2 ^ 64
      → all_time c ≤ all_time c'
      → idle_time c ≤ idle_time c'
      → let m1 = (get_cpu_usage f (some c) m).0 in
        let (m2, usage) = get_cpu_usage f (some c') m1 in
        (usage ≡ (
          if nat_beq (all_time c' - all_time c) 0
          then f.zero
          else busy_percent f (idle_time c' - idle_time c) (all_time c' - all_time c)))
        × (m2.last_cpu_total ≡ all_time c')
        × (m2.last_cpu_idle ≡ idle_time c')
  unfolding get_cpu_usage
  get_cpu_usage-get_cpu_usage c c' m h total idle =
      let before = total_time_lem c (omega arith) in
      let idle_before = total_idle_lem c (omega arith) in
      let after = total_time_lem c' h in
      let idle_after = total_idle_lem c' h in
      (
        rw
            (
              before,
              idle_before,
              after,
              idle_after,
              difference (all_time c') (all_time c) total h,
              difference (idle_time c') (idle_time c) idle (omega arith),
            )
            refl,
        after,
        idle_after,
      )

  -- Of a memory or a file system whose size in bytes fits into 64 bits, with no more units free than
  -- there are, no more is used than there is, and both are the numbers of bytes in megabytes.
  get_usage_bounds :
      (u : Units)
      → u.total * u.unit < 2 ^ 64
      → u.free ≤ u.total
      → let r = get_usage f (some u) in
        (r.used_mb ≤ r.total_mb)
        × (r.total_mb ≡ u.total * u.unit / 1048576)
        × (r.used_mb ≡ (u.total * u.unit - u.free * u.unit) / 1048576)
  unfolding get_usage
  get_usage_bounds u h free =
      let fewer : u.free * u.unit ≤ u.total * u.unit = mul-le-mul_right u.unit free in
      let total = wrap_small (u.total * u.unit) h in
      let unused = wrap_small (u.free * u.unit) (omega arith) in
      let used = difference (u.total * u.unit) (u.free * u.unit) fewer h in
      (rw (total, unused, used) (omega arith), rw total refl, rw (total, unused, used) refl)
