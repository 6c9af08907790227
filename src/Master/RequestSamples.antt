-- ===== src/Master/RequestSamples.antt =====
-- A table of requests and a form of requests as text, for tests.
use certos.Base.{
  ℕ, zero, suc, ◌∷◌, [], Bool, true, false, some, ◌≡◌, refl, Text, txt, Dict, find, assign, is_some,
  find-assign, if◌then◌else◌, text_beq,
}
use certos.Messages.{
  JobRequest, new_JobRequest, JobRequestStatus, pending, approved, rejected, new_JobSpec,
}
use certos.Master.RequestStore.{RequestStore, RequestJson}
use certos.Master.Requests.{request_status_number}

-- A table of requests in memory.
abbrev pub put : Text → Text → Dict Text → Dict Text
put id json st = if is_some (find id st) then assign id json st else st

pub put-find :
    (id json j old : Text) (st : Dict Text)
    → find id st ≡ some old
    → find j (put id json st) ≡ (if text_beq id j then some json else find j st)
put-find id json j old st e = rw e (find-assign id j json st)

abbrev pub map_requests : RequestStore
map_requests = record {
  Store = Dict Text;
  add_job_request = λ st id email status json. (assign id json st, true);
  update_request_status = λ st id status json. (put id json st, true);
  list_requests = λ st. st;
  IsReady = λ _. Unit;
  add-list = λ st id email status json j r p q n fresh. find-assign id j json st;
  add_true = λ st id email status json r p q n fresh. refl;
  add-IsReady = λ st id email status json r p q n fresh. tt;
  update-list = λ st id status json j old r p n found. put-find id json j old st found;
  update-IsReady = λ st id status json old r p n found. tt;
}

abbrev pub sample_request : JobRequest
sample_request = record new_JobRequest {
  request_id = txt "req-a";
  applicant_name = txt "eve";
  requested_spec = record new_JobSpec { command = txt "ls" };
  submitted_at = 7;
}

-- Two numbers stand for the sample with that status and time of review.
abbrev pub written : JobRequest → Text
written req = suc (request_status_number req.status) ∷ suc req.reviewed_at ∷ []

abbrev pub status_of : ℕ → JobRequestStatus
status_of zero = pending
status_of (suc zero) = approved
status_of _ = rejected

abbrev pub read : Text → JobRequest × Bool
read (suc status ∷ (suc time ∷ _)) =
    (record sample_request { status = status_of status; reviewed_at = time }, true)
read _ = (new_JobRequest, false)

abbrev pub sample_json : RequestJson
sample_json = record {
  print = λ req. some (written req);
  parse = read;
  IsPrintable = λ req. read (written req) ≡ (req, true);
  print-parse = λ req p. (written req, refl, p, refl, ((λ e. cc), ((λ e. cc), tt)));
}
