-- ===== src/Gateway/Service/Connected.antt =====
-- A gateway whose stub is connected to the master's handlers: the interface that the bridge takes as a
-- parameter, filled by the handlers of MasterServiceImpl.
use certos.Base.{ℕ, Text, List}
use certos.Messages.{JobStatus, JobInfo}
use certos.Master.KeyValue.{KvStore}
use certos.Master.RequestStore.{RequestStore, RequestJson}
use certos.Master.Jobs.{JobManager}
use certos.Master.Nodes.{NodeRegistry}
use certos.Master.Rpc.{Result, ok, error}
use certos.Master.JobCalls.{submit_job_call, cancel_job_call, list_jobs_call, list_nodes_call}
use certos.Master.Accounts.{login, create_user, admin_list_users, admin_delete_user}
use certos.Master.Requests.{
  submit_public_request, update_job_request, admin_list_requests, admin_review_request,
}
use certos.Gateway.Bridge.{Reply, replied, failed, MasterStub}

-- The states of the components that the handlers use.
pub record Master (kv : KvStore) (rs : RequestStore) : Type 0 where
  pub accounts : kv.Store
  pub jobs : JobManager kv.Store
  pub nodes : NodeRegistry
  pub requests : rs.Store

abbrev pub reply_of : {R : Type 0} → Result R → Reply R
reply_of (ok response) = replied response
reply_of (error code message) = failed message

abbrev pub only_jobs : {R : Type 0} → (R → List JobInfo) → Result R → Result (List JobInfo)
only_jobs jobs (ok response) = ok (jobs response)
only_jobs jobs (error code message) = error code message

-- The readings of the clock and the random draws of one call, and what the generated base class says of
-- a method that the master does not implement.
pub record Readings : Type 0 where
  pub now : ℕ
  pub now_job : ℕ
  pub draw : ℕ → ℕ
  pub number : ℕ
  pub unimplemented : Text

module _ (kv : KvStore) (rs : RequestStore) (rj : RequestJson) where
  unfoldable pub connected : Readings → MasterStub (Master kv rs)
  connected r = record {
    login = λ c m. (m, reply_of (login kv c.username c.password m.accounts));
    list_nodes = λ metadata m. (m, reply_of (list_nodes_call m.nodes));
    list_jobs = λ metadata m.
        (m, reply_of (only_jobs (λ l. l.jobs) (list_jobs_call kv JobStatus.unspecified m.jobs)));
    submit_job = λ metadata spec m.
        let (jobs, result) = submit_job_call kv r.draw r.now metadata spec m.jobs in
        (record m { jobs = jobs }, reply_of result);
    get_cluster_status = λ metadata m. (m, failed r.unimplemented);
    cancel_job = λ metadata job_id m.
        let (jobs, result) = cancel_job_call kv r.now job_id m.jobs in
        (record m { jobs = jobs }, reply_of result);
    submit_public_request = λ request m.
        let (requests, result) = submit_public_request rs rj r.now r.number request m.requests in
        (record m { requests = requests }, reply_of result);
    admin_list_requests = λ metadata m. (m, reply_of (admin_list_requests rs rj m.requests));
    admin_review_request = λ metadata req m.
        let ((requests, jobs), result) =
          admin_review_request rs rj kv r.draw r.now r.now_job req.request_id req.approve
            req.comment m.requests m.jobs in
        (record m { requests = requests; jobs = jobs }, reply_of result);
    update_job_request = λ request m.
        let (requests, result) =
          update_job_request rs rj request.request_id request.requested_spec.archive_path
            m.requests in
        (record m { requests = requests }, reply_of result);
    create_user = λ metadata req m.
        let (accounts, result) =
          create_user kv r.now req.username req.password req.role m.accounts in
        (record m { accounts = accounts }, reply_of result);
    admin_list_users = λ metadata m. (m, reply_of (admin_list_users kv m.accounts));
    admin_delete_user = λ metadata user_id m. (m, reply_of (admin_delete_user user_id));
  }
