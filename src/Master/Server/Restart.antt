-- ===== src/Master/Server/Restart.antt =====
-- What a restart of the master does to accounts.
use certos.Master.Double.{Double}
use certos.Base.{
  ℕ, false, [], ◌∷◌, ◌++◌, List, some, ◌≡◌, ◌≢◌, ◌∙◌, refl, sym, Text, txt, All, take, drop,
  text_beq, text_beq_iff,
}
use certos.Messages.{UserRole}
use certos.Master.KeyValue.{KvStore}
use certos.Master.Rpc.{ok}
use certos.Master.Accounts.{
  UserInfo, user_key, role_key, list_key, role_name, login, admin_list_users, names_of, parts_from,
  role_of,
}
use certos.Master.Accounts.Login.{token, granted, login-granted}
use certos.Master.Server.{seeds, set_all, new_MasterServer}

module _ (kv : KvStore) where
  open kv use {Store, get_kv, set_kv, IsPlain, IsReady}

  abbrev pub ArePlain : List (Text × Text) → Type 0
  ArePlain = All (λ (p : Text × Text). IsPlain p.0 × IsPlain p.1)

  -- A key that is not among those that are set keeps its value.
  get_kv-set_all_other :
      (pairs : List (Text × Text)) (st : Store) (j : Text)
      → IsReady st
      → ArePlain pairs
      → IsPlain j
      → All (λ (p : Text × Text). p.0 ≢ j) pairs
      → get_kv (set_all kv pairs st) j ≡ get_kv st j
  unfolding set_all
  get_kv-set_all_other [] st j ready plain pj ne = refl
  get_kv-set_all_other ((key, value) ∷ pairs) st j ready (p, plain) pj (n, ne) =
      get_kv-set_all_other pairs (set_kv st key value).0 j
        (kv.set_kv-IsReady st key value ready p.0 p.1) plain pj ne
      ∙ kv.get_kv-set_kv_ne st key value j ready p.0 p.1 pj n

  -- A key has the value that it was set to last.
  get_kv-set_all :
      (before : List (Text × Text)) (key value : Text) (after : List (Text × Text)) (st : Store)
      → IsReady st
      → ArePlain (before ++ (key, value) ∷ after)
      → All (λ (p : Text × Text). p.0 ≢ key) after
      → get_kv (set_all kv (before ++ (key, value) ∷ after) st) key ≡ some value
  unfolding set_all
  get_kv-set_all [] key value after st ready (p, plain) ne =
      get_kv-set_all_other after (set_kv st key value).0 key
        (kv.set_kv-IsReady st key value ready p.0 p.1) plain p.0 ne
      ∙ kv.get_kv-set_kv st key value ready p.0 p.1
  get_kv-set_all ((k, v) ∷ before) key value after st ready (p, plain) ne =
      get_kv-set_all before key value after (set_kv st k v).0
        (kv.set_kv-IsReady st k v ready p.0 p.1) plain ne

pub apart : (s t : Text) → text_beq s t ≡ false → s ≢ t
apart s t h e = let same = (text_beq_iff s t).1 e in cc

apart_each :
    (pairs : List (Text × Text)) (k : Text)
    → All (λ (p : Text × Text). text_beq p.0 k ≡ false) pairs
    → All (λ (p : Text × Text). p.0 ≢ k) pairs
apart_each [] k h = tt
apart_each (p ∷ pairs) k (e, h) = (apart p.0 k e, apart_each pairs k h)

user_key_inj : (s t : Text) → user_key s ≡ user_key t → s ≡ t
unfolding text_beq
user_key_inj s t e = (text_beq_iff s t).0 ((text_beq_iff (user_key s) (user_key t)).1 e)

role_key_inj : (s t : Text) → role_key s ≡ role_key t → s ≡ t
unfolding text_beq
role_key_inj s t e = (text_beq_iff s t).0 ((text_beq_iff (role_key s) (role_key t)).1 e)

-- A line of the list of users.
abbrev pub listed : Text → UserRole → UserInfo
listed username role = record { username = username; role = role; created_at = 0 }

-- The keys of another account are not among those that are set.
user-other :
    (u : Text)
    → u ≢ txt "admin"
    → u ≢ txt "user1"
    → All (λ (p : Text × Text). p.0 ≢ user_key u) seeds
unfolding text_beq
user-other u a b = (
  λ e. a (sym (user_key_inj (txt "admin") u e)),
  (
    apart (role_key (txt "admin")) (user_key u) refl,
    (
      λ e. b (sym (user_key_inj (txt "user1") u e)),
      (apart (role_key (txt "user1")) (user_key u) refl, (apart list_key (user_key u) refl, tt)),
    ),
  ),
)

role-other :
    (u : Text)
    → u ≢ txt "admin"
    → u ≢ txt "user1"
    → All (λ (p : Text × Text). p.0 ≢ role_key u) seeds
unfolding text_beq
role-other u a b = (
  apart (user_key (txt "admin")) (role_key u) refl,
  (
    λ e. a (sym (role_key_inj (txt "admin") u e)),
    (
      apart (user_key (txt "user1")) (role_key u) refl,
      (λ e. b (sym (role_key_inj (txt "user1") u e)), (apart list_key (role_key u) refl, tt)),
    ),
  ),
)

module _ (kv : KvStore) where
  open kv use {Store, get_kv, IsPlain, IsReady}

  module _ (st : Store) (ready : IsReady st) (plain : ArePlain kv seeds) where
    admin_password : get_kv (set_all kv seeds st) (user_key (txt "admin")) ≡ some (txt "admin123")
    unfolding text_beq
    admin_password =
        get_kv-set_all kv (take 0 seeds) (user_key (txt "admin")) (txt "admin123") (drop 1 seeds) st
          ready plain
          (apart_each (drop 1 seeds) (user_key (txt "admin")) (refl, (refl, (refl, (refl, tt)))))

    admin_role : get_kv (set_all kv seeds st) (role_key (txt "admin")) ≡ some (txt "admin")
    unfolding text_beq
    admin_role =
        get_kv-set_all kv (take 1 seeds) (role_key (txt "admin")) (txt "admin") (drop 2 seeds) st
          ready plain
          (apart_each (drop 2 seeds) (role_key (txt "admin")) (refl, (refl, (refl, tt))))

    user1_role : get_kv (set_all kv seeds st) (role_key (txt "user1")) ≡ some (txt "user")
    unfolding text_beq
    user1_role =
        get_kv-set_all kv (take 3 seeds) (role_key (txt "user1")) (txt "user") (drop 4 seeds) st
          ready plain (apart_each (drop 4 seeds) (role_key (txt "user1")) (refl, tt))

    list_reset : get_kv (set_all kv seeds st) list_key ≡ some (txt "admin,user1")
    unfolding text_beq
    list_reset = get_kv-set_all kv (take 4 seeds) list_key (txt "admin,user1") [] st ready plain tt

  listing :
      (st : Store)
      → IsReady st
      → ArePlain kv seeds
      → admin_list_users kv (set_all kv seeds st)
        ≡ ok (listed (txt "admin") UserRole.admin ∷ listed (txt "user1") UserRole.user ∷ [])
  unfolding admin_list_users text_beq names_of parts_from role_of
  listing st ready plain =
      rw (list_reset st ready plain)
        (rw (admin_role st ready plain) (rw (user1_role st ready plain) refl))

  -- Let an account that is neither `admin` nor `user1` be stored with its password and role when the
  -- master starts. It still logs in with them afterwards. But the list of users is again `admin` and
  -- `user1` alone, and `admin` again has the password "admin123", whatever was stored before. This is
  -- of a store that is ready, and of texts that it keeps.
  pub restart_forgets_list :
      (f : Double) (hours : f.D) (now : ℕ) (u password : Text) (role : UserRole)
      (st jobs_db : Store)
      → IsReady st
      → ArePlain kv seeds
      → IsPlain (user_key u)
      → IsPlain (role_key u)
      → u ≢ txt "admin"
      → u ≢ txt "user1"
      → get_kv st (user_key u) ≡ some password
      → get_kv st (role_key u) ≡ some (role_name role)
      → let db = (new_MasterServer kv f hours now st jobs_db).admin_db in
        (login kv u password db ≡ ok (token u (granted role)))
        × (admin_list_users kv db
            ≡ ok (listed (txt "admin") UserRole.admin ∷ listed (txt "user1") UserRole.user ∷ []))
        × (login kv (txt "admin") (txt "admin123") db ≡ ok (token (txt "admin") UserRole.admin))
  unfolding new_MasterServer admin_list_users
  restart_forgets_list f hours now u password role st jobs_db ready plain pu pr a b e r =
      let user =
        get_kv-set_all_other kv seeds st (user_key u) ready plain pu (user-other u a b) ∙ e in
      let role_at =
        get_kv-set_all_other kv seeds st (role_key u) ready plain pr (role-other u a b) ∙ r in
      (
        login-granted kv u password (set_all kv seeds st) role user role_at,
        listing st ready plain,
        login-granted kv (txt "admin") (txt "admin123") (set_all kv seeds st) UserRole.admin
            (admin_password st ready plain) (admin_role st ready plain),
      )
