-- ===== src/Agent/Executor.antt =====
-- agent/src/job_executor.cpp: the table of running jobs, and the thread that runs one job. A thread
-- moves from one point at which it waits, locks or calls back to the next, so the calls of the daemon
-- and the moves of all threads come in any order. The operating system's part is in the moves: whether
-- a pipe and a process are made, what is read, and how the process ended. Log lines are left out, and so
-- is what `create_directories` throws where a directory cannot be made, which would end the agent.
use certos.Base.{
  ℕ, suc, ◌+◌, Bool, true, false, List, [], ◌∷◌, ◌++◌, Option, none, some, Text, txt, Dict, find,
  assign, erase, length, is_empty, is_some, if◌then◌else◌, nat_beq, ltb, to_string, ℤ, pos, negsuc,
}
use certos.Messages.{JobSpec}

pub record JobResult : Type 0 where
  pub job_id : Text
  pub exit_code : ℤ
  pub error_message : Text
  pub stdout_data : Text
  pub stderr_data : Text
  pub success : Bool

-- What `waitpid` says: WIFEXITED, WIFSIGNALED, or neither.
pub data WaitStatus : Type 0 where
  exited : (code : ℕ) → WaitStatus
  signaled : (signal : ℕ) → WaitStatus
  unknown : WaitStatus

abbrev pub new_result : Text → JobResult
new_result job_id = record {
  job_id = job_id;
  exit_code = negsuc 0;
  error_message = [];
  stdout_data = [];
  stderr_data = [];
  success = false;
}

-- The result of a process that was waited for.
unfoldable pub result_of : Text → Text → WaitStatus → JobResult
result_of job_id stdout_data (exited code) = record (new_result job_id) {
  exit_code = pos code;
  success = nat_beq code 0;
  stdout_data = stdout_data;
}
result_of job_id stdout_data (signaled signal) = record (new_result job_id) {
  exit_code = pos (128 + signal);
  error_message = txt "Process killed by signal " ++ to_string signal;
  stdout_data = stdout_data;
}
result_of job_id stdout_data unknown = record (new_result job_id) { stdout_data = stdout_data }

-- `std::string chunk(buffer)` ends at the first NUL.
unfoldable pub chunk : Text → Text
chunk [] = []
chunk (c ∷ s) = let rest = chunk s in if nat_beq c 0 then [] else c ∷ rest

-- The job's directory, which there is only for a job with an archive.
abbrev pub sandbox_dir : Text → Text → JobSpec → Text
sandbox_dir work_dir job_id spec =
    if is_empty spec.archive_path then [] else work_dir ++ (txt "/" ++ job_id)

abbrev pub untar_cmd : Text → Text → Text
untar_cmd archive_path dir = txt "tar -xzf " ++ (archive_path ++ (txt " -C " ++ dir))

-- The program and arguments that the child executes.
unfoldable pub c_args : Text → JobSpec → List Text
c_args dir spec =
    if is_empty spec.container_image
    then spec.command ∷ spec.args
    else txt "singularity"
      ∷ txt "exec"
      ∷ txt "--bind"
      ∷ dir
      ∷ spec.container_image
      ∷ spec.command
      ∷ spec.args

-- Where a thread is.
pub data Phase : Type 0 where
  -- before `pipe`
  launched : Phase
  -- in the parent, before the pid is entered
  forked : (pid : ℕ) → Phase
  -- before `on_started_`
  entered : (pid : ℕ) → Phase
  -- in the loop that reads, with what was read
  reading : (pid : ℕ) (stdout_data : Text) → Phase
  -- after `waitpid`, before the job is removed
  reaped : (pid : ℕ) (result : JobResult) → Phase
  -- before `on_completed_`
  removed : (result : JobResult) → Phase
  -- without a pipe or a process, before `on_completed_`
  aborted : (result : JobResult) → Phase
  -- returned
  over : Phase

-- What a thread meets next.
pub data Input : Type 0 where
  pipe_fails fork_fails : Input
  forks : (pid : ℕ) → Input
  enters calls_started : Input
  reads : (bytes : Text) → Input
  ends : (status : WaitStatus) → Input
  removes calls_completed : Input

pub record Thread : Type 0 where
  pub job_id : Text
  pub spec : JobSpec
  pub phase : Phase

-- What leaves the executor: a command for the shell, what the child of `fork` does (`chdir` where the
-- directory is not empty, then `execvp`), the daemon's callbacks, and `kill` with a signal.
pub data Event : Type 0 where
  create_directories : (dir : Text) → Event
  system : (command : Text) → Event
  child : (pid : ℕ) (sandbox_dir : Text) (c_args : List Text) → Event
  on_started : (job_id : Text) (pid : ℕ) → Event
  on_completed : (result : JobResult) → Event
  sigterm : (pid : ℕ) → Event
  sigkill : (pid : ℕ) → Event

-- The directory of all jobs, `running_jobs_` with each job's pid, 0 at first, and the threads that were started, by number.
pub record JobExecutor : Type 0 where
  pub work_dir : Text
  pub running_jobs : Dict ℕ
  pub threads : ℕ → Option Thread
  pub next : ℕ

abbrev pub new_JobExecutor : Text → JobExecutor
new_JobExecutor work_dir = record {
  work_dir = work_dir;
  running_jobs = [];
  threads = λ n. none;
  next = 0;
}

abbrev pub with_thread : ℕ → Thread → JobExecutor → JobExecutor
with_thread n t x = record x { threads = λ m. if nat_beq n m then some t else x.threads m }

unfoldable pub get_running_count : JobExecutor → ℕ
get_running_count x = length x.running_jobs

unfoldable pub execute_async : Text → JobSpec → JobExecutor → JobExecutor × Bool
execute_async job_id spec x = if is_some (find job_id x.running_jobs) then (x, false) else (
  record (with_thread x.next (record { job_id = job_id; spec = spec; phase = launched }) x) {
    running_jobs = assign job_id 0 x.running_jobs;
    next = suc x.next;
  },
  true,
)

-- The signal that is sent, if any; the result is whether one is.
unfoldable pub cancel : Text → JobExecutor → List Event × Bool
cancel job_id x = elim (find job_id x.running_jobs) [
  | none ↦ ([], false)
  | some pid ↦ if ltb 0 pid then (sigterm pid ∷ [], true) else ([], false)
]

-- What the destructor sends, of the entries of `running_jobs_`.
unfoldable pub kill_all : Dict ℕ → List Event
kill_all [] = []
kill_all ((job_id, pid) ∷ jobs) =
    let rest = kill_all jobs in if ltb 0 pid then sigkill pid ∷ rest else rest

abbrev pub failure : Text → Text → JobResult
failure job_id message = record (new_result job_id) { error_message = message }

-- The changes that a locked section of the thread makes to the table.
abbrev pub enter_pid : Text → ℕ → Dict ℕ → Dict ℕ
enter_pid job_id pid jobs = elim (find job_id jobs) [
  | none ↦ jobs
  | some _ ↦ assign job_id pid jobs
]

-- The job's directory is made, and its archive is extracted into it, whether or not that succeeds.
unfoldable pub extraction : Text → Text → JobSpec → List Event
extraction work_dir job_id spec =
    if is_empty spec.archive_path
    then []
    else let dir = sandbox_dir work_dir job_id spec in
      create_directories dir ∷ system (untar_cmd spec.archive_path dir) ∷ []

abbrev pub child_of : ℕ → Text → Text → JobSpec → Event
child_of pid work_dir job_id spec =
    let dir = sandbox_dir work_dir job_id spec in child pid dir (c_args dir spec)

-- The thread's next phase, the table after it, and the call that leaves it. A thread that is not at
-- the point of the input does not move.
unfoldable pub execution_thread :
    Text → Text → JobSpec → Phase → Input → Dict ℕ → Phase × Dict ℕ × List Event
unfolding chunk result_of extraction c_args
execution_thread work_dir job_id spec launched pipe_fails jobs =
    (aborted (failure job_id (txt "Failed to create pipe")), jobs, [])
execution_thread work_dir job_id spec launched fork_fails jobs =
    (aborted (failure job_id (txt "Failed to fork")), jobs, extraction work_dir job_id spec)
execution_thread work_dir job_id spec launched (forks pid) jobs =
    (forked pid, jobs, extraction work_dir job_id spec ++ (child_of pid work_dir job_id spec ∷ []))
execution_thread work_dir job_id spec (forked pid) enters jobs =
    (entered pid, enter_pid job_id pid jobs, [])
execution_thread work_dir job_id spec (entered pid) calls_started jobs =
    (reading pid [], jobs, on_started job_id pid ∷ [])
execution_thread work_dir job_id spec (reading pid out) (reads bytes) jobs =
    (reading pid (out ++ chunk bytes), jobs, [])
execution_thread work_dir job_id spec (reading pid out) (ends status) jobs =
    (reaped pid (result_of job_id out status), jobs, [])
execution_thread work_dir job_id spec (reaped pid result) removes jobs =
    (removed result, erase job_id jobs, [])
execution_thread work_dir job_id spec (removed result) calls_completed jobs =
    (over, jobs, on_completed result ∷ [])
execution_thread work_dir job_id spec (aborted result) calls_completed jobs =
    (over, jobs, on_completed result ∷ [])
execution_thread work_dir job_id spec phase input jobs = (phase, jobs, [])

-- A call of the daemon, or a move of a thread.
pub data Move : Type 0 where
  executes : (job_id : Text) (spec : JobSpec) → Move
  cancels : (job_id : Text) → Move
  moves : (n : ℕ) (input : Input) → Move

unfoldable pub advance : ℕ → Input → Thread → JobExecutor → JobExecutor × List Event
unfolding execution_thread
advance n input t x =
    let (phase, jobs, events) =
      execution_thread x.work_dir t.job_id t.spec t.phase input x.running_jobs in
    (record (with_thread n (record t { phase = phase }) x) { running_jobs = jobs }, events)

unfoldable pub step : Move → JobExecutor → JobExecutor × List Event
unfolding execute_async cancel advance
step (executes job_id spec) x = ((execute_async job_id spec x).0, [])
step (cancels job_id) x = (x, (cancel job_id x).0)
step (moves n input) x = elim (x.threads n) [ none ↦ (x, []) | some t ↦ advance n input t x ]

unfoldable pub run : List Move → JobExecutor → JobExecutor × List Event
unfolding step
run [] x = (x, [])
run (m ∷ ms) x = let (x', events) = step m x in let (x'', more) = run ms x' in (x'', events ++ more)
