-- ===== src/Master/Accounts/Refused.antt =====
-- What the token manager makes of the tokens that `Login` gives out.
use certos.Base.{
  ℕ, ◌<◌, true, false, List, none, some, ◌≡◌, refl, sym, ap, ◌∙◌, ◌++◌, Text, txt, text_beq, subst,
  inl, inr,
}
use certos.Master.KeyValue.{KvStore}
use certos.Master.Rpc.{ok}
use certos.Master.Accounts.{AuthToken, grant, login}
use certos.Master.Accounts.Login.{login_iff}
use certos.Auth.{intercept, is_public}
use certos.Auth.Tokens.{JwtManager, JwtLibrary, dots, validate_token}

ok_inj : {A : Type 0} {a b : A} → ok a ≡ ok b → a ≡ b
ok_inj e = cc

mock_dots : (u : Text) → dots (txt "mock-jwt-for-" ++ u) ≡ dots u
unfolding dots
mock_dots u = refl

module _ (lib : JwtLibrary) (m : JwtManager) (now : ℕ) where
  -- A text that is no token is refused, and the call that brings it proceeds.
  refused :
      (token method : Text) (methods : List Text)
      → dots token < 2
      → is_public method methods ≡ false
      → (validate_token lib m now token ≡ none)
        × (intercept (validate_token lib m now) methods true method (some (txt "Bearer " ++ token))
            ≡ record { proceeded = 1; checked = some (token, none) })
  unfolding validate_token intercept text_beq
  refused token method methods few guarded =
      let none_decoded = lib.decode_dots token few in
      (rw none_decoded refl, rw guarded (rw none_decoded refl))

  -- The token that `Login` gives out is none: whatever the password, the secret and the time, the token
  -- manager refuses it, and a call that is not public proceeds with it all the same. This is of a user
  -- name with at most one dot.
  pub login_token_refused :
      (kv : KvStore) (u password : Text) (st : kv.Store) (token : AuthToken) (method : Text)
      (methods : List Text)
      → login kv u password st ≡ ok token
      → dots u < 2
      → is_public method methods ≡ false
      → (validate_token lib m now token.access_token ≡ none)
        × (intercept
              (validate_token lib m now)
              methods
              true
              method
              (some (txt "Bearer " ++ token.access_token))
            ≡ record { proceeded = 1; checked = some (token.access_token, none) })
  login_token_refused kv u password st token method methods granted few guarded =
      elim (login_iff kv u password st) [
        | inr (_, e) ↦ cc
        | inl (_, e) ↦
            let same : grant kv st u ≡ token = ok_inj (sym e ∙ granted) in
            let at : txt "mock-jwt-for-" ++ u ≡ token.access_token =
              ap (λ t. t.access_token) same in
            refused token.access_token method methods
              (subst (λ t. dots t < 2) at (rw (mock_dots u) few)) guarded
      ]
