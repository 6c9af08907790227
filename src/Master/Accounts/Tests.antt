-- ===== src/Master/Accounts/Tests.antt =====
-- Examples of accounts.
use certos.Base.{none, some, true, arith, [], ◌∷◌, ◌≡◌, ◌≢◌, refl, Text, txt, find, text_beq, Dict}
use certos.Messages.{UserRole}
use certos.Master.Rpc.{ok, error, unauthenticated, already_exists}
use certos.Master.Accounts.{login, create_user, role_of}
use certos.Master.Accounts.Login.{login-create_user, token}
use certos.Master.Accounts.Refused.{login_token_refused}
use certos.Auth.{intercept, is_public, public_methods}
use certos.Auth.Tokens.{new_JwtManager, dots, validate_token}
use certos.Auth.Tokens.Samples.{sample_jwt}
use certos.Master.Samples.{map_store}

abbrev accounts : Dict Text
accounts = (txt "user:admin", txt "admin123") ∷ (txt "role:admin", txt "admin") ∷ []

login-create_user_example :
    let r = create_user map_store 7 (txt "eve") (txt "secret") UserRole.admin accounts in
    (r.1 ≡ ok (record { username = txt "eve"; role = UserRole.admin; created_at = 7 }))
    × (login map_store (txt "eve") (txt "secret") r.0 ≡ ok (token (txt "eve") UserRole.admin))
    × ((other : Text)
        → other ≢ txt "secret"
        → login map_store (txt "eve") other r.0 ≡ error unauthenticated (txt "Invalid credentials"))
    × ((other : Text) (role' : UserRole)
        → create_user map_store 8 (txt "eve") other role' r.0
          ≡ (r.0, error already_exists (txt "User already exists")))
unfolding find text_beq
login-create_user_example =
    login-create_user map_store 7 8 (txt "eve") (txt "secret") UserRole.admin accounts tt
      (record {
        user = tt;
        secret = tt;
        role_at = tt;
        name = tt;
        list_at = tt;
        longer = λ text h. tt;
      })
      refl

login_token_refused_example :
    (validate_token sample_jwt (new_JwtManager (txt "secret") 3600) 1000 (txt "mock-jwt-for-admin")
      ≡ none)
    × (intercept
          (validate_token sample_jwt (new_JwtManager (txt "secret") 3600) 1000)
          public_methods
          true
          (txt "/certosc.MasterService/CreateUser")
          (some (txt "Bearer mock-jwt-for-admin"))
        ≡ record { proceeded = 1; checked = some (txt "mock-jwt-for-admin", none) })
unfolding find text_beq login role_of dots is_public
login_token_refused_example =
    login_token_refused sample_jwt (new_JwtManager (txt "secret") 3600) 1000 map_store (txt "admin")
      (txt "admin123") accounts (token (txt "admin") UserRole.admin)
      (txt "/certosc.MasterService/CreateUser") public_methods refl (omega arith) refl
