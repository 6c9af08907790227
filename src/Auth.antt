-- ===== src/Auth.antt =====
-- lib/auth/src/rbac.cpp and lib/auth/src/auth_interceptor.cpp: roles and their permissions, and what
-- the interceptor does to a call. Validating a token is jwt-cpp's and a parameter. An unordered set of
-- permissions is a list; a permission counts as a member by its number. Log lines are left out.
pub mod Roles
pub mod Interception
pub mod Tokens
use certos.Base.{
  ℕ, Bool, true, false, ◌||◌, List, [], ◌∷◌, Option, none, some, Text, txt, Dict, find, nat_beq,
  if◌then◌else◌, ◌==◌, text_eq, substr, substr_from,
}

pub data Permission : Type 0 where
  job_submit job_view_own job_view_all job_cancel_own job_cancel_all job_set_priority : Permission
  node_view node_drain node_manage : Permission
  user_view user_create user_delete : Permission
  cluster_view cluster_manage : Permission
  node_register node_heartbeat node_report : Permission

-- `static_cast<int>(perm)`
abbrev pub permission_number : Permission → ℕ
permission_number job_submit = 0
permission_number job_view_own = 1
permission_number job_view_all = 2
permission_number job_cancel_own = 3
permission_number job_cancel_all = 4
permission_number job_set_priority = 5
permission_number node_view = 6
permission_number node_drain = 7
permission_number node_manage = 8
permission_number user_view = 9
permission_number user_create = 10
permission_number user_delete = 11
permission_number cluster_view = 12
permission_number cluster_manage = 13
permission_number node_register = 14
permission_number node_heartbeat = 15
permission_number node_report = 16

-- `role_permissions_`, the only state.
abbrev pub RbacManager : Type 0
RbacManager = Dict (List Permission)

abbrev pub user_permissions : List Permission
user_permissions = job_submit ∷ job_view_own ∷ job_cancel_own ∷ node_view ∷ cluster_view ∷ []

abbrev pub admin_permissions : List Permission
admin_permissions =
    job_submit ∷ job_view_own ∷ job_view_all ∷ job_cancel_own ∷ job_cancel_all ∷ job_set_priority
    ∷ node_view ∷ node_drain ∷ node_manage ∷ user_view ∷ user_create ∷ user_delete ∷ cluster_view
    ∷ cluster_manage ∷ []

abbrev pub node_permissions : List Permission
node_permissions = node_register ∷ node_heartbeat ∷ node_report ∷ []

abbrev pub init_default_roles : RbacManager
init_default_roles =
    (txt "user", user_permissions)
    ∷ (txt "admin", admin_permissions)
    ∷ (txt "node", node_permissions)
    ∷ []

-- `count(perm) > 0`
unfoldable pub holds : Permission → List Permission → Bool
holds perm [] = false
holds perm (p ∷ ps) = nat_beq (permission_number p) (permission_number perm) || holds perm ps

unfoldable pub has_permission : Text → Permission → RbacManager → Bool
unfolding holds
has_permission role perm roles = elim (find role roles) [
  | none ↦ false
  | some perms ↦ holds perm perms
]

unfoldable pub get_permissions : Text → RbacManager → List Permission
get_permissions role roles = elim (find role roles) [ none ↦ [] | some perms ↦ perms ]

abbrev pub permission_name : Permission → Text
permission_name job_submit = txt "job:submit"
permission_name job_view_own = txt "job:view_own"
permission_name job_view_all = txt "job:view_all"
permission_name job_cancel_own = txt "job:cancel_own"
permission_name job_cancel_all = txt "job:cancel_all"
permission_name job_set_priority = txt "job:set_priority"
permission_name node_view = txt "node:view"
permission_name node_drain = txt "node:drain"
permission_name node_manage = txt "node:manage"
permission_name user_view = txt "user:view"
permission_name user_create = txt "user:create"
permission_name user_delete = txt "user:delete"
permission_name cluster_view = txt "cluster:view"
permission_name cluster_manage = txt "cluster:manage"
permission_name node_register = txt "node:register"
permission_name node_heartbeat = txt "node:heartbeat"
permission_name node_report = txt "node:report"

-- What the interceptor does to a call: how often it lets it proceed, and what it asks the token
-- manager, with the answer.
pub record Intercepted (C : Type 0) : Type 0 where
  pub proceeded : ℕ
  pub checked : Option (Text × Option C)

abbrev pub public_methods : List Text
public_methods =
    txt "/certosc.MasterService/Login"
    ∷ txt "/certosc.MasterService/SubmitPublicRequest"
    ∷ txt "/certosc.MasterService/UpdateJobRequest"
    ∷ txt "/certosc.AgentService/RegisterNode"
    ∷ txt "/certosc.AgentService/SendHeartbeat"
    ∷ []

unfoldable pub is_public : Text → List Text → Bool
is_public method [] = false
is_public method (m ∷ ms) = m == method || is_public method ms

-- The header's value without "Bearer " in front.
unfoldable pub stripped : Text → Text
stripped auth_value =
    if substr auth_value 0 7 == txt "Bearer " then substr_from auth_value 7 else auth_value

-- `metadata_received` says that the hook point is POST_RECV_INITIAL_METADATA.
unfoldable pub intercept :
    {C : Type 0} → (Text → Option C) → List Text → Bool → Text → Option Text → Intercepted C
unfolding is_public stripped
intercept validate_token methods metadata_received method_name none = record {
  proceeded = 1;
  checked = none;
}
intercept validate_token methods metadata_received method_name (some auth_value) =
    if metadata_received
    then if is_public method_name methods
      then record { proceeded = 1; checked = none }
      else record {
        proceeded = 1;
        checked = some (stripped auth_value, validate_token (stripped auth_value));
      }
    else record { proceeded = 1; checked = none }
