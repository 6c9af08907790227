-- ===== src/Messages.antt =====
-- proto/certosc/common.proto: the messages that the master's components keep and exchange.
-- An enum's constants are its constructors, without the prefix of the enum's name. Integers of a
-- field's unsigned type are natural numbers; Unix timestamps are natural numbers.
use certos.Base.{ℕ, Bool, true, false, List, [], Text, ℤ, pos, ◌≡◌, ◌↔◌, arith, nat_beq}

pub record ResourceSpec : Type 0 where
  pub cpu_cores : ℕ  -- uint32
  pub ram_mb : ℕ  -- uint64
  pub gpu_count : ℕ  -- uint32
  pub disk_mb : ℕ  -- uint64

pub data JobStatus : Type 0 where
  unspecified submitted queued assigned running completed failed cancelled preempted : JobStatus

pub record JobSpec : Type 0 where
  pub name : Text
  pub command : Text
  pub args : List Text
  pub env_vars : List (Text × Text)
  pub working_dir : Text
  pub resources : ResourceSpec
  pub time_limit_seconds : ℕ
  pub priority : ℤ  -- int32
  pub preemptable : Bool
  pub stdin_data : Text
  pub archive_path : Text
  pub is_interactive : Bool
  pub container_image : Text

pub record JobInfo : Type 0 where
  pub job_id : Text
  pub user_id : Text
  pub username : Text
  pub spec : JobSpec
  pub status : JobStatus
  pub assigned_node_id : Text
  pub assigned_node_hostname : Text
  pub exit_code : ℤ  -- int32
  pub error_message : Text
  pub submitted_at : ℕ
  pub started_at : ℕ
  pub completed_at : ℕ
  pub effective_priority : ℤ  -- int32
  pub allocated_resources : ResourceSpec

pub data JobRequestStatus : Type 0 where
  pending approved rejected : JobRequestStatus

pub record JobRequest : Type 0 where
  pub request_id : Text
  pub applicant_name : Text
  pub applicant_email : Text
  pub project_goal : Text
  pub requested_spec : JobSpec
  pub status : JobRequestStatus
  pub reviewer_id : Text
  pub review_comment : Text
  pub submitted_at : ℕ
  pub reviewed_at : ℕ

pub data NodeStatus : Type 0 where
  unspecified online offline draining maintenance : NodeStatus

pub record NodeInfo : Type 0 where
  pub node_id : Text
  pub hostname : Text
  pub ip_address : Text
  pub port : ℕ
  pub status : NodeStatus
  pub total_resources : ResourceSpec
  pub available_resources : ResourceSpec
  pub used_resources : ResourceSpec
  pub registered_at : ℕ
  pub last_heartbeat : ℕ
  pub os_info : Text
  pub running_jobs : ℕ
  pub running_job_ids : List Text

pub data UserRole : Type 0 where
  unspecified user admin node : UserRole

-- The number of a status on the wire.
abbrev pub status_number : JobStatus → ℕ
status_number JobStatus.unspecified = 0
status_number submitted = 1
status_number queued = 2
status_number assigned = 3
status_number running = 4
status_number completed = 5
status_number failed = 6
status_number cancelled = 7
status_number preempted = 8

-- `a == b` on statuses compares their numbers.
unfoldable pub status_is : JobStatus → JobStatus → Bool
status_is a b = nat_beq (status_number a) (status_number b)

pub status_is_iff : (a b : JobStatus) → (status_is a b ≡ true) ↔ (a ≡ b)
unfolding status_is
status_is_iff a b = ground arith

abbrev pub is_online : NodeStatus → Bool
is_online online = true
is_online _ = false

-- A message as its constructor leaves it: every field has its default.
abbrev pub no_resources : ResourceSpec
no_resources = record { cpu_cores = 0; ram_mb = 0; gpu_count = 0; disk_mb = 0 }

abbrev pub new_JobSpec : JobSpec
new_JobSpec = record {
  name = [];
  command = [];
  args = [];
  env_vars = [];
  working_dir = [];
  resources = no_resources;
  time_limit_seconds = 0;
  priority = pos 0;
  preemptable = false;
  stdin_data = [];
  archive_path = [];
  is_interactive = false;
  container_image = [];
}

abbrev pub new_JobInfo : JobInfo
new_JobInfo = record {
  job_id = [];
  user_id = [];
  username = [];
  spec = new_JobSpec;
  status = JobStatus.unspecified;
  assigned_node_id = [];
  assigned_node_hostname = [];
  exit_code = pos 0;
  error_message = [];
  submitted_at = 0;
  started_at = 0;
  completed_at = 0;
  effective_priority = pos 0;
  allocated_resources = no_resources;
}

abbrev pub new_JobRequest : JobRequest
new_JobRequest = record {
  request_id = [];
  applicant_name = [];
  applicant_email = [];
  project_goal = [];
  requested_spec = new_JobSpec;
  status = pending;
  reviewer_id = [];
  review_comment = [];
  submitted_at = 0;
  reviewed_at = 0;
}

abbrev pub new_NodeInfo : NodeInfo
new_NodeInfo = record {
  node_id = [];
  hostname = [];
  ip_address = [];
  port = 0;
  status = NodeStatus.unspecified;
  total_resources = no_resources;
  available_resources = no_resources;
  used_resources = no_resources;
  registered_at = 0;
  last_heartbeat = 0;
  os_info = [];
  running_jobs = 0;
  running_job_ids = [];
}
