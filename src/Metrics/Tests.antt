-- ===== src/Metrics/Tests.antt =====
-- Examples of what the monitor makes of the system's numbers.
use certos.Base.{
  ℕ, ◌-◌, [], ◌∷◌, some, pos, ◌≡◌, refl, txt, arith, nat_beq, if◌then◌else◌, find_text,
}
use certos.Master.Samples.{whole_numbers}
use certos.Metrics.{
  SystemMonitor, new_SystemMonitor, CpuTimes, busy_percent, get_cpu_usage, get_net_io,
}
use certos.Metrics.Cpu.{all_time, idle_time, get_cpu_usage-get_cpu_usage}

abbrev times : ℕ → ℕ → CpuTimes
times user idle = record {
  user = user;
  nice = 0;
  system = 5;
  idle = idle;
  iowait = 1;
  irq = 0;
  softirq = 0;
  steal = 0;
}

get_cpu_usage-get_cpu_usage_example :
    let m1 = (get_cpu_usage whole_numbers (some (times 10 80)) new_SystemMonitor).0 in
    let (m2, usage) = get_cpu_usage whole_numbers (some (times 20 170)) m1 in
    (usage ≡ (
      if nat_beq (all_time (times 20 170) - all_time (times 10 80)) 0
      then 0
      else busy_percent whole_numbers
          (idle_time (times 20 170) - idle_time (times 10 80))
          (all_time (times 20 170) - all_time (times 10 80))))
    × (m2.last_cpu_total ≡ all_time (times 20 170))
    × (m2.last_cpu_idle ≡ idle_time (times 20 170))
get_cpu_usage-get_cpu_usage_example =
    get_cpu_usage-get_cpu_usage whole_numbers (times 10 80) (times 20 170) new_SystemMonitor
      (omega arith) (omega arith) (omega arith)

-- An interface that is gone takes its bytes along: the difference wraps to nearly 2 ^ 64.
abbrev busy : SystemMonitor
busy = record new_SystemMonitor { last_net_rx = 5000; last_net_tx = 5000 }

removed_interface_wraps :
    (get_net_io whole_numbers
      (some (record { iface = txt "eth0:"; rx_bytes = 3000; tx_bytes = 5000 } ∷ []))
      (pos 1000)
      busy).1
    ≡ 18446744073709549616
unfolding get_net_io find_text
removed_interface_wraps = refl
