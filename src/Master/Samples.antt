-- ===== src/Master/Samples.antt =====
-- Data that the tests of the master's components share.
use certos.Base.{
  ℕ, ◌+◌, ◌-◌, ◌*◌, ◌/◌, true, some, Text, txt, ◌≡◌, refl, ◌≢◌, Dict, find, assign, find-assign,
  text_beq, text_beq_iff, text_beq_refl, if◌then◌else◌, arith, leb, ltb, nat_beq, pos, negsuc, ap,
  ◌∙◌, Bool-cases, inl, inr,
}
use certos.Messages.{
  ResourceSpec, new_JobSpec, JobInfo, new_JobInfo, NodeInfo, new_NodeInfo, queued, online,
}
use certos.Master.KeyValue.{KvStore}
use certos.Master.Double.{Double, IsOrdered}

-- A store that is a map in memory.
pub get_set : (st : Dict Text) (k v : Text) → find k (assign k v st) ≡ some v
get_set st k v = find-assign k k v st ∙ ap (λ b. if b then some v else find k st) (text_beq_refl k)

pub get_set_ne : (st : Dict Text) (k v j : Text) → k ≢ j → find j (assign k v st) ≡ find j st
get_set_ne st k v j n = elim (Bool-cases (text_beq k j)) [
  | inl e ↦ absurd (n ((text_beq_iff k j).0 e))
  | inr e ↦ find-assign k j v st ∙ ap (λ b. if b then some v else find j st) e
]

abbrev pub map_store : KvStore
map_store = record {
  Store = Dict Text;
  get_kv = λ st k. find k st;
  set_kv = λ st k v. (assign k v st, true);
  IsPlain = λ _. Unit;
  IsReady = λ _. Unit;
  set_kv-IsReady = λ st k v r p q. tt;
  set_kv_true = λ st k v r p q. refl;
  get_kv-set_kv = λ st k v r p q. get_set st k v;
  get_kv-set_kv_ne = λ st k v j r p q p' n. get_set_ne st k v j n;
}

-- Whole numbers, with division and powers of one half rounded down.
abbrev pub whole_numbers : Double
whole_numbers = record {
  D = ℕ;
  of_int = λ i. elim i [ pos n ↦ n | negsuc n ↦ 0 ];
  add = λ a b. a + b;
  sub = λ a b. if leb b a then a - b else b - a;
  mul = λ a b. a * b;
  div = λ a b. a / b;
  abs = λ a. a;
  pow = λ a b. if nat_beq b 0 then 1 else 0;
  log1p = λ a. a;
  le = leb;
  lt = ltb;
  zero = 0;
  one = 1;
  half = 0;
  tenth = 0;
  hour = 3600;
  day = 24;
}

pub div_mono : (a b : ℕ) → leb a b ≡ true → leb (a / 3600) (b / 3600) ≡ true
div_mono a b h = ground arith

pub reciprocal_anti : (a b : ℕ) → leb 1 a ≡ true → leb a b ≡ true → leb (1 / b) (1 / a) ≡ true
reciprocal_anti a b h k = grind arith

unfoldable pub whole_numbers_ordered : IsOrdered whole_numbers
whole_numbers_ordered = record {
  IsFinite = λ _. Unit;
  le_refl = λ a _. ground arith;
  le_trans = λ a b c h k. ground arith;
  le_total = λ a b _ _ h. ground arith;
  one_finite = tt;
  zero_finite = tt;
  zero-le-one = refl;
  div_hour_mono = div_mono;
  div_hour_nonneg = λ a h. ground arith;
  log1p_nonneg = λ a h. h;
  one-le-add = λ a h. ground arith;
  add_mono = λ a b h. ground arith;
  reciprocal_anti = reciprocal_anti;
  reciprocal_nonneg = λ a h. ground arith;
  reciprocal_one = refl;
  pow_half_nonneg = λ a h. ground arith;
  mul_finite = λ a b n h k. tt;
  le_add = λ a b _ h. ground arith;
  pow_half_le = λ a h. ground arith;
  div_nonneg = λ a b _ h k. ground arith;
  mul_le = λ a b _ h k. ground arith;
}

abbrev pub two_cores : ResourceSpec
two_cores = record { cpu_cores = 2; ram_mb = 1024; gpu_count = 0; disk_mb = 0 }

abbrev pub four_cores : ResourceSpec
four_cores = record { cpu_cores = 4; ram_mb = 8192; gpu_count = 0; disk_mb = 0 }

-- A queued job that wants two cores.
abbrev pub sample_job : Text → ℕ → JobInfo
sample_job id submitted_at = record new_JobInfo {
  job_id = id;
  user_id = txt "ann";
  username = txt "ann";
  spec = record new_JobSpec { command = txt "ls"; resources = two_cores; priority = pos 5 };
  status = queued;
  submitted_at = submitted_at;
  effective_priority = pos 5;
}

-- An online node with four free cores.
abbrev pub sample_node : Text → Text → NodeInfo
sample_node id hostname = record new_NodeInfo {
  node_id = id;
  hostname = hostname;
  ip_address = txt "10.0.0.1";
  status = online;
  total_resources = four_cores;
  available_resources = four_cores;
  registered_at = 5;
  last_heartbeat = 100;
}
