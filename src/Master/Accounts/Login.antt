-- ===== src/Master/Accounts/Login.antt =====
-- Accounts and who may log in.
use certos.Base.{
  ℕ, false, Option, none, some, ◌≡◌, ◌≢◌, ◌⊎◌, inl, inr, refl, sym, ap, ◌∙◌, ◌++◌, Text, txt,
  text_beq, text_beq_iff, Option-cases, Bool-cases, some_inj, text_eq,
}
use certos.Messages.{UserRole}
use certos.Master.KeyValue.{KvStore}
use certos.Master.Rpc.{ok, error, unauthenticated, already_exists}
use certos.Master.Accounts.{
  AuthToken, user_key, role_key, list_key, role_name, role_of, list_with, grant, login, create_user,
  written, enlist,
}

-- The role that a new account is given.
abbrev pub granted : UserRole → UserRole
granted UserRole.admin = UserRole.admin
granted _ = UserRole.user

-- The token of a user with a role.
abbrev pub token : Text → UserRole → AuthToken
token u role = record {
  access_token = txt "mock-jwt-for-" ++ u;
  token_type = txt "Bearer";
  user = record { username = u; role = role; created_at = 0 };
}

role_of-role_name : (role : UserRole) → role_of (some (role_name role)) ≡ granted role
unfolding role_of text_beq
role_of-role_name UserRole.unspecified = refl
role_of-role_name UserRole.user = refl
role_of-role_name UserRole.admin = refl
role_of-role_name UserRole.node = refl

module _ (kv : KvStore) where
  open kv use {Store, get_kv, set_kv, IsPlain, IsReady}

  wrong_password :
      {found : Option Text} {db_pass : Text} (password : Text)
      → found ≡ some db_pass
      → text_beq db_pass password ≡ false
      → found ≢ some password
  wrong_password {db_pass} password e differ h =
      let same = (text_beq_iff db_pass password).1 (some_inj (sym e ∙ h)) in cc

  -- `Login` grants a token exactly when the password is the one that is stored for the user.
  pub login_iff :
      (username password : Text) (st : Store)
      → ((get_kv st (user_key username) ≡ some password)
          × (login kv username password st ≡ ok (grant kv st username)))
        ⊎ ((get_kv st (user_key username) ≢ some password)
            × (login kv username password st ≡ error unauthenticated (txt "Invalid credentials")))
  unfolding login
  login_iff username password st = elim (Option-cases (get_kv st (user_key username))) [
    | inl e ↦ inr ((λ h. cc), rw (e, login) refl)
    | inr (db_pass, e) ↦ elim (Bool-cases (text_beq db_pass password)) [
      | inl same ↦
          let h = (text_beq_iff db_pass password).0 same in inl (cc, rw (e, login) (rw same refl))
      | inr differ ↦ inr (wrong_password password e differ, rw (e, login) (rw differ refl))
    ]
  ]

  -- The texts that creating an account writes are such as the store keeps.
  pub record ArePlain (username password : Text) (role : UserRole) (list : Option Text)
      : Type 0 where
    pub user : IsPlain (user_key username)
    pub secret : IsPlain password
    pub role_at : IsPlain (role_key username)
    pub name : IsPlain (role_name role)
    pub list_at : IsPlain list_key
    pub longer : (text : Text) → list_with username list ≡ some text → IsPlain text

apart : (s t : Text) → text_beq s t ≡ false → s ≢ t
apart s t h e = let same = (text_beq_iff s t).1 e in cc

user-role : (u : Text) → user_key u ≢ role_key u
unfolding text_beq
user-role u = apart (user_key u) (role_key u) refl

user-list : (u : Text) → user_key u ≢ list_key
unfolding text_beq
user-list u = apart (user_key u) list_key refl

role-list : (u : Text) → role_key u ≢ list_key
unfolding text_beq
role-list u = apart (role_key u) list_key refl

module _ (kv : KvStore) where
  open kv use {Store, get_kv, set_kv, IsPlain, IsReady}

  pub login-granted :
      (u password : Text) (st : Store) (role : UserRole)
      → get_kv st (user_key u) ≡ some password
      → get_kv st (role_key u) ≡ some (role_name role)
      → login kv u password st ≡ ok (token u (granted role))
  login-granted u password st role e r = elim (login_iff kv u password st) [
    | inl (_, h) ↦
        h ∙ ap (λ o. ok (token u (role_of o))) r ∙ ap (λ t. ok (token u t)) (role_of-role_name role)
    | inr (ne, _) ↦ absurd (ne e)
  ]

  login_refused :
      (u password other : Text) (st : Store)
      → get_kv st (user_key u) ≡ some password
      → other ≢ password
      → login kv u other st ≡ error unauthenticated (txt "Invalid credentials")
  login_refused u password other st e ne = elim (login_iff kv u other st) [
    | inl (e', _) ↦ absurd (ne (some_inj (sym e' ∙ e)))
    | inr (_, h) ↦ h
  ]

  module _ (u password : Text) (role : UserRole) (st : Store) where
    written-ready :
        IsReady st
        → ArePlain kv u password role (get_kv (written kv u password role st) list_key)
        → IsReady (written kv u password role st)
    written-ready ready plain =
        kv.set_kv-IsReady (set_kv st (user_key u) password).0 (role_key u) (role_name role)
          (kv.set_kv-IsReady st (user_key u) password ready plain.user plain.secret) plain.role_at
          plain.name

    written-user :
        IsReady st
        → ArePlain kv u password role (get_kv (written kv u password role st) list_key)
        → get_kv (written kv u password role st) (user_key u) ≡ some password
    written-user ready plain =
        kv.get_kv-set_kv_ne (set_kv st (user_key u) password).0 (role_key u) (role_name role)
          (user_key u) (kv.set_kv-IsReady st (user_key u) password ready plain.user plain.secret)
          plain.role_at plain.name plain.user (λ e. user-role u (sym e))
        ∙ kv.get_kv-set_kv st (user_key u) password ready plain.user plain.secret

    written-role :
        IsReady st
        → ArePlain kv u password role (get_kv (written kv u password role st) list_key)
        → get_kv (written kv u password role st) (role_key u) ≡ some (role_name role)
    written-role ready plain =
        kv.get_kv-set_kv (set_kv st (user_key u) password).0 (role_key u) (role_name role)
          (kv.set_kv-IsReady st (user_key u) password ready plain.user plain.secret) plain.role_at
          plain.name

  -- The change of the list leaves every other key.
  enlist_other :
      (u : Text) (st : Store) (j : Text)
      → IsReady st
      → IsPlain list_key
      → IsPlain j
      → j ≢ list_key
      → ((list : Text) → list_with u (get_kv st list_key) ≡ some list → IsPlain list)
      → get_kv (enlist kv u st) j ≡ get_kv st j
  unfolding enlist
  enlist_other u st j ready at plain ne longer =
      elim (Option-cases (list_with u (get_kv st list_key))) [
        | inl e ↦ rw (e, enlist) refl
        | inr (list, e) ↦
            rw (e, enlist)
              (kv.get_kv-set_kv_ne st list_key list j ready at (longer list e) plain
                λ q. ne (sym q))
      ]

  -- Creating an account that there is not yet succeeds. Then exactly its password logs in, with the
  -- role that was asked for (an administrator, or else a user), and creating it again, whatever the
  -- password, is refused and changes nothing. This is of a store that is ready, and of texts that
  -- it keeps.
  pub login-create_user :
      (now later : ℕ) (u password : Text) (role : UserRole) (st : Store)
      → IsReady st
      → ArePlain kv u password role (get_kv (written kv u password role st) list_key)
      → get_kv st (user_key u) ≡ none
      → let r = create_user kv now u password role st in
        (r.1 ≡ ok (record { username = u; role = role; created_at = now }))
        × (login kv u password r.0 ≡ ok (token u (granted role)))
        × ((other : Text)
            → other ≢ password
            → login kv u other r.0 ≡ error unauthenticated (txt "Invalid credentials"))
        × ((other : Text) (role' : UserRole)
            → create_user kv later u other role' r.0
              ≡ (r.0, error already_exists (txt "User already exists")))
  unfolding create_user
  login-create_user now later u password role st ready plain fresh =
      let w = written kv u password role st in
      let ready' = written-ready u password role st ready plain in
      let user =
        enlist_other u w (user_key u) ready' plain.list_at plain.user (user-list u) plain.longer
        ∙ written-user u password role st ready plain in
      let role_at =
        enlist_other u w (role_key u) ready' plain.list_at plain.role_at (role-list u) plain.longer
        ∙ written-role u password role st ready plain in
      let st' = enlist kv u w in
      rw fresh (
        refl,
        login-granted u password st' role user role_at,
        λ other ne. login_refused u password other st' user ne,
        λ other role'. rw user refl,
      )
