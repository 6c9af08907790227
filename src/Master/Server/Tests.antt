-- ===== src/Master/Server/Tests.antt =====
-- Examples of the start of the master.
use certos.Base.{[], ◌∷◌, ◌≡◌, refl, Text, txt, find, text_beq, Dict}
use certos.Messages.{UserRole}
use certos.Master.Rpc.{ok}
use certos.Master.Accounts.{login, admin_list_users}
use certos.Master.Accounts.Login.{token}
use certos.Master.Samples.{map_store, whole_numbers}
use certos.Master.Server.{new_MasterServer}
use certos.Master.Server.Restart.{restart_forgets_list, listed, apart}

-- `admin` has changed the password, and made the account `eve`.
abbrev accounts : Dict Text
accounts =
    (txt "user:admin", txt "changed")
    ∷ (txt "user:eve", txt "secret")
    ∷ (txt "role:eve", txt "admin")
    ∷ (txt "system:user_list", txt "admin,user1,eve")
    ∷ []

restart_forgets_list_example :
    let db = (new_MasterServer map_store whole_numbers 24 100 accounts []).admin_db in
    (login map_store (txt "eve") (txt "secret") db ≡ ok (token (txt "eve") UserRole.admin))
    × (admin_list_users map_store db
        ≡ ok (listed (txt "admin") UserRole.admin ∷ listed (txt "user1") UserRole.user ∷ []))
    × (login map_store (txt "admin") (txt "admin123") db ≡ ok (token (txt "admin") UserRole.admin))
unfolding find text_beq
restart_forgets_list_example =
    restart_forgets_list map_store whole_numbers 24 100 (txt "eve") (txt "secret") UserRole.admin
      accounts [] tt ((tt, tt), ((tt, tt), ((tt, tt), ((tt, tt), ((tt, tt), tt))))) tt tt
      (apart (txt "eve") (txt "admin") refl) (apart (txt "eve") (txt "user1") refl) refl refl
