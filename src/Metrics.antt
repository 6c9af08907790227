-- ===== src/Metrics.antt =====
-- lib/metrics/src/system_monitor.cpp: what SystemMonitor makes of the numbers that the system gives. The
-- numbers are arguments, as they are read from /proc/stat, /proc/net/dev, sysinfo and statvfs; `none` is a
-- source that cannot be read. Counters are 64 bits wide, and their sums and differences wrap.
pub mod Cpu
mod Tests
use certos.Base.{
  ℕ, ◌+◌, ◌-◌, ◌*◌, ◌/◌, ◌%◌, ◌^◌, Bool, true, false, ◌&&◌, List, [], ◌∷◌, Option, none, some, Text,
  txt, ℤ, pos, negsuc, sub_ℕ, if◌then◌else◌, nat_beq, ltb, leb, is_some, find_text, length, keep,
}
use certos.Master.Double.{Double}

pub record SystemMonitor : Type 0 where
  pub last_cpu_total : ℕ
  pub last_cpu_idle : ℕ
  pub last_net_rx : ℕ
  pub last_net_tx : ℕ
  pub last_collection_time : ℕ

abbrev pub new_SystemMonitor : SystemMonitor
new_SystemMonitor = record {
  last_cpu_total = 0;
  last_cpu_idle = 0;
  last_net_rx = 0;
  last_net_tx = 0;
  last_collection_time = 0;
}

-- The first line of /proc/stat.
pub record CpuTimes : Type 0 where
  pub user : ℕ
  pub nice : ℕ
  pub system : ℕ
  pub idle : ℕ
  pub iowait : ℕ
  pub irq : ℕ
  pub softirq : ℕ
  pub steal : ℕ

-- A memory or a file system: its units, those that are free, and the size of a unit.
pub record Units : Type 0 where
  pub total : ℕ
  pub free : ℕ
  pub unit : ℕ

-- A line of /proc/net/dev.
pub record Interface : Type 0 where
  pub iface : Text
  pub rx_bytes : ℕ
  pub tx_bytes : ℕ

abbrev pub wrap_64 : ℕ → ℕ
wrap_64 n = n % 2 ^ 64

-- a - b at 64 bits.
abbrev pub minus_64 : ℕ → ℕ → ℕ
minus_64 a b = (a + 2 ^ 64 - b) % 2 ^ 64

abbrev pub total_idle : CpuTimes → ℕ
total_idle c = wrap_64 (c.idle + c.iowait)

abbrev pub total_non_idle : CpuTimes → ℕ
total_non_idle c = wrap_64 (c.user + c.nice + c.system + c.irq + c.softirq + c.steal)

abbrev pub total_time : CpuTimes → ℕ
total_time c = wrap_64 (total_idle c + total_non_idle c)

-- The bytes of all interfaces but the loopback.
unfoldable pub is_loopback : Interface → Bool
is_loopback i = is_some (find_text i.iface (txt "lo:"))

unfoldable pub total_rx : List Interface → ℕ
total_rx [] = 0
total_rx (i ∷ is) =
    let rest = total_rx is in if is_loopback i then rest else wrap_64 (i.rx_bytes + rest)

unfoldable pub total_tx : List Interface → ℕ
total_tx [] = 0
total_tx (i ∷ is) =
    let rest = total_tx is in if is_loopback i then rest else wrap_64 (i.tx_bytes + rest)

abbrev pub is_digits : Text → Bool
is_digits [] = true
is_digits (c ∷ s) = let rest = is_digits s in (leb b'0' c && leb c b'9') && rest

abbrev pub is_positive : ℤ → Bool
is_positive (pos n) = ltb 0 n
is_positive (negsuc n) = false

module _ (f : Double) where
  open f use {D, of_int, sub, mul, div, zero, one}

  pub record Usage : Type 0 where
    pub used_mb : ℕ
    pub total_mb : ℕ
    pub percent : D

  pub record MetricsSnapshot : Type 0 where
    pub node_id : Text
    pub timestamp : ℕ
    pub cpu_usage_percent : D
    pub ram : Usage
    pub disk : Usage
    pub load_avg : D × D × D
    pub network_rx_bytes_sec : D
    pub network_tx_bytes_sec : D
    pub gpu_usage_percent : D
    pub process_count : ℕ

  abbrev pub of_ℕ : ℕ → D
  of_ℕ n = of_int (pos n)

  -- The share of the time that was not idle.
  abbrev pub busy_percent : ℕ → ℕ → D
  busy_percent diff_idle diff_total =
      mul (sub one (div (of_ℕ diff_idle) (of_ℕ diff_total))) (of_ℕ 100)

  -- A difference of 0 is the only one that is 0 as a `double`.
  unfoldable pub get_cpu_usage : Option CpuTimes → SystemMonitor → SystemMonitor × D
  get_cpu_usage none m = (m, zero)
  get_cpu_usage (some c) m = (
    record m { last_cpu_total = total_time c; last_cpu_idle = total_idle c },
    if nat_beq (minus_64 (total_time c) m.last_cpu_total) 0
        then zero
        else busy_percent (minus_64 (total_idle c) m.last_cpu_idle)
            (minus_64 (total_time c) m.last_cpu_total),
  )

  -- `get_ram_usage` and `get_disk_usage`, which differ in the source of the numbers.
  unfoldable pub get_usage : Option Units → Usage
  get_usage none = record { used_mb = 0; total_mb = 0; percent = zero }
  get_usage (some u) =
      let total = wrap_64 (u.total * u.unit) in
      let used = minus_64 total (wrap_64 (u.free * u.unit)) in
      record {
        used_mb = used / (1024 * 1024);
        total_mb = total / (1024 * 1024);
        percent = if ltb 0 total then mul (div (of_ℕ used) (of_ℕ total)) (of_ℕ 100) else zero;
      }

  unfoldable pub get_load_avg : Option (ℕ × ℕ × ℕ) → D × D × D
  get_load_avg none = (zero, zero, zero)
  get_load_avg (some (a, b, c)) =
      (div (of_ℕ a) (of_ℕ 65536), div (of_ℕ b) (of_ℕ 65536), div (of_ℕ c) (of_ℕ 65536))

  -- Bytes in a second.
  abbrev pub rate : ℕ → ℤ → D
  rate bytes time_delta_ms = div (of_ℕ bytes) (div (of_int time_delta_ms) (of_ℕ 1000))

  unfoldable pub get_net_io : Option (List Interface) → ℤ → SystemMonitor → SystemMonitor × D × D
  unfolding total_rx total_tx is_loopback
  get_net_io none time_delta_ms m = (m, zero, zero)
  get_net_io (some is) time_delta_ms m =
      let m' = record m { last_net_rx = total_rx is; last_net_tx = total_tx is } in
      if is_positive time_delta_ms && ltb 0 m.last_net_rx
      then (
        m',
        rate (minus_64 (total_rx is) m.last_net_rx) time_delta_ms,
        rate (minus_64 (total_tx is) m.last_net_tx) time_delta_ms,
      )
      else (m', zero, zero)

  -- What the system gives at one collection; `processes` are the names of the directories of /proc.
  pub record Sources : Type 0 where
    pub now : ℕ
    pub now_ms : ℕ
    pub cpu : Option CpuTimes
    pub ram : Option Units
    pub disk : Option Units
    pub load : Option (ℕ × ℕ × ℕ)
    pub net : Option (List Interface)
    pub processes : List Text

  unfoldable pub collect : Text → Sources → SystemMonitor → SystemMonitor × MetricsSnapshot
  unfolding get_cpu_usage get_usage get_load_avg get_net_io
  collect node_id s m =
      let time_delta = sub_ℕ s.now_ms m.last_collection_time in
      let (m1, cpu) = get_cpu_usage s.cpu m in
      let (m2, rx, tx) = get_net_io s.net time_delta m1 in
      (
        record m2 { last_collection_time = s.now_ms },
        record {
          node_id = node_id;
          timestamp = s.now;
          cpu_usage_percent = cpu;
          ram = get_usage s.ram;
          disk = get_usage s.disk;
          load_avg = get_load_avg s.load;
          network_rx_bytes_sec = rx;
          network_tx_bytes_sec = tx;
          gpu_usage_percent = zero;
          process_count = length (keep is_digits s.processes) % 2 ^ 32;
        },
      )
