-- ===== src/Gateway.antt =====
-- gateway/src/rest_routes.cpp: which answer a request gets, and the ids that are cut out of its path.
-- What the routes then do by the gRPC bridge, and JSON, files and headers, are left out.
pub mod Json
pub mod Bridge
pub mod Service
pub mod Server
pub mod Cuts
pub mod Paths
mod Tests
pub mod Routing
use certos.Base.{
  ℕ, zero, suc, ◌-◌, ◌*◌, ◌%◌, ◌+◌, ◌^◌, Bool, true, false, ◌&&◌, ◌||◌, List, [], ◌∷◌, ◌++◌, Option,
  none, some, Text, txt, if◌then◌else◌, ltb, ◌==◌, text_eq, nat_beq, find_text, is_some, is_empty,
  take, drop, length, substr_from, ℤ, pos, negsuc,
}
use certos.Messages.{JobSpec, new_JobSpec, ResourceSpec, no_resources, JobRequest, new_JobRequest}

pub data Method : Type 0 where
  get post delete options other : Method

abbrev pub is_get : Method → Bool
is_get get = true
is_get _ = false

abbrev pub is_post : Method → Bool
is_post post = true
is_post _ = false

abbrev pub is_delete : Method → Bool
is_delete delete = true
is_delete _ = false

abbrev pub is_options : Method → Bool
is_options options = true
is_options _ = false

-- The call of the bridge, with what the path says.
pub data Route : Type 0 where
  login submit_public_request get_cluster_status list_nodes list_jobs submit_job : Route
  upload : (req_id : Text) → Route
  cancel_job : (job_id : Text) → Route
  admin_list_requests admin_list_users create_user : Route
  admin_review_request : (req_id : Text) → Route
  admin_delete_user : (uname : Text) → Route
  not_found : (path : Text) → Route

abbrev pub is_at_start : Option ℕ → Bool
is_at_start (some zero) = true
is_at_start _ = false

-- `path.find(p) == 0`
unfoldable pub found_at_start : Text → Text → Bool
found_at_start path p = is_at_start (find_text path p)

-- `path.substr(start, path.find(p) - start)`, where `p` is found. A negative difference wraps to a
-- count beyond any length. No path that gets here is shorter than `start`.
unfoldable pub cut : ℕ → Option ℕ → Text → Text
cut start none path = substr_from path start
cut start (some end) path =
    if ltb end start then substr_from path start else take (end - start) (substr_from path start)

unfoldable pub route : Method → Text → Route
route method norm_path =
    if is_post method && norm_path == txt "/api/v1/auth/login"
    then login
    else if is_post method && norm_path == txt "/api/v1/public/request"
    then submit_public_request
    else if is_post method
        && found_at_start norm_path (txt "/api/v1/public/request/")
        && is_some (find_text norm_path (txt "/upload"))
    then upload (cut 22 (find_text norm_path (txt "/upload")) norm_path)
    else if is_get method && norm_path == txt "/api/v1/cluster"
    then get_cluster_status
    else if is_get method && norm_path == txt "/api/v1/nodes"
    then list_nodes
    else if is_get method && norm_path == txt "/api/v1/jobs"
    then list_jobs
    else if is_post method && norm_path == txt "/api/v1/jobs"
    then submit_job
    else if is_delete method && found_at_start norm_path (txt "/api/v1/jobs/")
    then cancel_job (substr_from norm_path 13)
    else if is_get method && norm_path == txt "/api/v1/admin/requests"
    then admin_list_requests
    else if is_post method
        && found_at_start norm_path (txt "/api/v1/admin/requests/")
        && is_some (find_text norm_path (txt "/review"))
    then admin_review_request (cut 24 (find_text norm_path (txt "/review")) norm_path)
    else if is_get method && norm_path == txt "/api/v1/admin/users"
    then admin_list_users
    else if is_post method && norm_path == txt "/api/v1/admin/users"
    then create_user
    else if is_delete method && found_at_start norm_path (txt "/api/v1/admin/users/")
    then admin_delete_user (substr_from norm_path 20)
    else not_found norm_path

-- `path.back() == '/'`
unfoldable pub ends_in_slash : Text → Bool
ends_in_slash [] = false
ends_in_slash (c ∷ s) = if is_empty s then nat_beq c b'/' else ends_in_slash s

unfoldable pub pop_back : Text → Text
pop_back [] = []
pop_back (c ∷ s) = if is_empty s then [] else c ∷ pop_back s

unfoldable pub normalize : Text → Text
unfolding ends_in_slash pop_back
normalize path = if ltb 1 (length path) && ends_in_slash path then pop_back path else path

-- The token of the header "Authorization", if there is one.
unfoldable pub bearer_token : Option Text → Text
bearer_token none = []
bearer_token (some val) = if found_at_start val (txt "Bearer ") then substr_from val 7 else []

pub data Action : Type 0 where
  no_content preflight : Action
  static_file : (path : Text) → Action
  call : (token : Text) → Route → Action

-- The file is below the web root; when it is missing or a directory, the answer is 404. A
-- target is not empty.
abbrev pub file_of : Text → Text
file_of path =
    if path == txt "/" || path == txt "/index.html" then txt "login.html" else substr_from path 1

unfoldable pub handle : Method → Text → Option Text → Action
unfolding route normalize bearer_token
handle method path authorization =
    if found_at_start path (txt "/api/")
    then if is_options method
      then preflight
      else call (bearer_token authorization) (route method (normalize path))
    else if path == txt "/favicon.ico"
    then no_content
    else static_file (file_of path)

-- A conversion to a 32-bit integer and on to an unsigned field of 32 or 64 bits.
abbrev pub low_word : ℤ → ℕ
low_word (pos n) = n % 2 ^ 32
low_word (negsuc n) = 2 ^ 32 - 1 - n % 2 ^ 32

abbrev pub sign_extended : ℕ → ℕ
sign_extended n = if ltb n (2 ^ 31) then n else n + (2 ^ 64 - 2 ^ 32)

-- `k * i`, at a positive k. (A product that does not fit into 64 bits is undefined in the source.)
abbrev pub times : ℕ → ℤ → ℤ
times k (pos n) = pos (k * n)
times k (negsuc n) = negsuc (k * (n + 1) - 1)

-- The request that a body with these members makes; `container` is optional.
unfoldable pub public_request : Text → Text → Text → ℤ → ℤ → ℤ → Option Text → JobRequest
public_request name email goal cpu ram time container = record new_JobRequest {
  applicant_name = name;
  applicant_email = email;
  project_goal = goal;
  requested_spec = record new_JobSpec {
    name = txt "Public Request: " ++ name;
    resources = record no_resources {
      cpu_cores = low_word cpu;
      ram_mb = sign_extended (low_word (times 1024 ram));
    };
    time_limit_seconds = low_word (times 3600 time);
    container_image = elim container [ none ↦ [] | some image ↦ image ];
  };
}
