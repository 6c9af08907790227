-- ===== src/Master/Accounts.antt =====
-- master/src/grpc_service.cpp: the handlers of MasterServiceImpl for accounts, over the key-value half
-- of `admin_db_`, which is their state. Messages have the fields that the handlers read or fill in.
pub mod Login
pub mod Refused
mod Tests
use mathlib.Core.Option
use certos.Base.{
  ℕ, Bool, true, false, List, [], ◌∷◌, ◌++◌, map, Option, none, some, Text, txt, if◌then◌else◌,
  find_text, is_some, is_empty, keep, not, ◌==◌, text_eq, nat_beq,
}
use certos.Messages.{UserRole}
use certos.Master.KeyValue.{KvStore}
use certos.Master.Rpc.{
  Result, ok, error, unauthenticated, already_exists, permission_denied, StatusResponse,
}

pub record UserInfo : Type 0 where
  pub username : Text
  pub role : UserRole
  pub created_at : ℕ

pub record AuthToken : Type 0 where
  pub access_token : Text
  pub token_type : Text
  pub user : UserInfo

abbrev pub user_key : Text → Text
user_key username = txt "user:" ++ username

abbrev pub role_key : Text → Text
role_key username = txt "role:" ++ username

abbrev pub list_key : Text
list_key = txt "system:user_list"

abbrev pub role_name : UserRole → Text
role_name UserRole.admin = txt "admin"
role_name _ = txt "user"

-- The role that a stored text stands for.
unfoldable pub role_of : Option Text → UserRole
role_of none = UserRole.user
role_of (some name) = if name == txt "admin" then UserRole.admin else UserRole.user

-- `std::getline` with ',' until it fails: the parts between commas, without an empty last one.
unfoldable pub parts_from : Text → Text → List Text
parts_from part [] = if is_empty part then [] else part ∷ []
parts_from part (c ∷ s) =
    let next = parts_from [] s in
    let longer = parts_from (part ++ c ∷ []) s in if nat_beq c b',' then part ∷ next else longer

-- The names in the list of users.
unfoldable pub names_of : Option Text → List Text
names_of none = txt "admin" ∷ txt "user1" ∷ []
names_of (some list) = keep (λ u. not (is_empty u)) (parts_from [] list)

abbrev pub list_or_default : Option Text → Text
list_or_default none = txt "admin,user1"
list_or_default (some list) = list

-- The list of users after `username` was created; `none` when it stays as it is.
unfoldable pub list_with : Text → Option Text → Option Text
list_with username existing = elim (find_text (list_or_default existing) username) [
  | none ↦ some (list_or_default existing ++ txt "," ++ username)
  | some _ ↦ none
]

module _ (kv : KvStore) where
  open kv use {Store, get_kv, set_kv}

  abbrev pub grant : Store → Text → AuthToken
  grant st username = record {
    access_token = txt "mock-jwt-for-" ++ username;
    token_type = txt "Bearer";
    user = record {
      username = username;
      role = role_of (get_kv st (role_key username));
      created_at = 0;
    };
  }

  unfoldable pub login : Text → Text → Store → Result AuthToken
  login username password st = elim (get_kv st (user_key username)) [
    | none ↦ error unauthenticated (txt "Invalid credentials")
    | some db_pass ↦
        if db_pass == password
        then ok (grant st username)
        else error unauthenticated (txt "Invalid credentials")
  ]

  -- The first two writes of `CreateUser` for a new account, and then the third.
  abbrev pub written : Text → Text → UserRole → Store → Store
  written username password role st =
      (set_kv (set_kv st (user_key username) password).0 (role_key username) (role_name role)).0

  unfoldable pub enlist : Text → Store → Store
  enlist username st = elim (list_with username (get_kv st list_key)) [
    | none ↦ st
    | some list ↦ (set_kv st list_key list).0
  ]

  abbrev pub store_user : Text → Text → UserRole → Store → Store
  store_user username password role st = enlist username (written username password role st)

  unfoldable pub create_user : ℕ → Text → Text → UserRole → Store → Store × Result UserInfo
  create_user now username password role st =
      if is_some (get_kv st (user_key username))
      then (st, error already_exists (txt "User already exists"))
      else (
        store_user username password role st,
        ok (record { username = username; role = role; created_at = now }),
      )

  unfoldable pub admin_list_users : Store → Result (List UserInfo)
  admin_list_users st = ok (
      map
        (λ uname. record {
          username = uname;
          role = role_of (get_kv st (role_key uname));
          created_at = 0;
        })
        (names_of (get_kv st list_key)))

-- The state is not touched.
unfoldable pub admin_delete_user : Text → Result StatusResponse
admin_delete_user user_id =
    if user_id == txt "admin"
    then error permission_denied (txt "Cannot delete root admin")
    else ok (record { success = true; message = txt "User deleted" })
