-- ===== src/Auth/Tokens.antt =====
-- lib/auth/src/jwt_manager.cpp, over jwt-cpp as a parameter. Times are seconds of Unix time, as a token
-- keeps them. Log lines are left out.
pub mod Lifetime
pub mod Samples
mod Tests
use mathlib.Core.Option
use certos.Base.{
  ℕ, ◌+◌, ◌≤◌, ◌<◌, suc, ltb, Bool, true, false, [], ◌∷◌, Option, none, some, Text, txt, Dict,
  DistinctKeys, find, if◌then◌else◌, nat_beq, ◌≡◌, ◌≢◌,
}

pub record TokenClaims : Type 0 where
  pub user_id : Text
  pub username : Text
  pub role : Text
  pub expires_at : ℕ
  pub issued_at : ℕ

pub record JwtManager : Type 0 where
  pub secret : Text
  pub expiry_seconds : ℕ

-- The payload of a token: the registered claims that are used, and the others, which are texts here.
pub record Payload : Type 0 where
  pub issuer : Text
  pub issued_at : Option ℕ
  pub expires_at : Option ℕ
  pub claims : Dict Text

-- The number of dots.
unfoldable pub dots : Text → ℕ
dots [] = 0
dots (c ∷ s) = let rest = dots s in if nat_beq c b'.' then suc rest else rest

-- What the manager uses of jwt-cpp. `sign secret type p` is `sign` with hs256; `decode` throws (`none`)
-- on what is no token; `verify secret issuer now d` says that the verifier for hs256 with that issuer
-- throws nothing. The laws are those of its documentation: a token that it signed, of
-- claims with different names, is decoded to its times and, by name, its claims, and verified with the same secret and issuer from its issue to its expiry; one whose expiry
-- is past is refused; and a text with fewer than two dots is no token.
pub record JwtLibrary : Type 1 where
  pub Decoded : Type 0
  pub payload : Decoded → Payload
  pub sign : Text → Text → Payload → Text
  pub decode : Text → Option Decoded
  pub verify : Text → Text → ℕ → Decoded → Bool
  pub decode-sign :
      (secret type : Text) (p : Payload)
      → DistinctKeys p.claims
      → (d : Decoded) × (decode (sign secret type p) ≡ some d)
        × ((payload d).issued_at ≡ p.issued_at)
        × ((payload d).expires_at ≡ p.expires_at)
        × ((key : Text) → find key (payload d).claims ≡ find key p.claims)
  pub verify-sign :
      (secret type : Text) (p : Payload) (d : Decoded) (from to now : ℕ)
      → decode (sign secret type p) ≡ some d
      → p.issued_at ≡ some from
      → p.expires_at ≡ some to
      → from ≤ now
      → now ≤ to
      → verify secret p.issuer now d ≡ true
  pub verify_expired :
      (secret issuer : Text) (d : Decoded) (to now : ℕ)
      → (payload d).expires_at ≡ some to
      → to < now
      → verify secret issuer now d ≡ false
  pub decode_dots : (token : Text) → dots token < 2 → decode token ≡ none

abbrev pub new_JwtManager : Text → ℕ → JwtManager
new_JwtManager secret expiry_seconds = record { secret = secret; expiry_seconds = expiry_seconds }

infixl 5 ◌>>=◌
abbrev ◌>>=◌ {ℓ κ} : {A : Type ℓ} {B : Type κ} → Option A → (A → Option B) → Option B
none >>= f = none
some a >>= f = f a

module _ (lib : JwtLibrary) where
  open lib use {Decoded, payload, sign, decode, verify}

  -- What `create_token` signs.
  abbrev pub new_payload : JwtManager → ℕ → Text → Text → Text → Payload
  new_payload m now user_id username role = record {
    issuer = txt "certosc";
    issued_at = some now;
    expires_at = some (now + m.expiry_seconds);
    claims = (txt "user_id", user_id) ∷ (txt "username", username) ∷ (txt "role", role) ∷ [];
  }

  unfoldable pub create_token : JwtManager → ℕ → Text → Text → Text → Text
  create_token m now user_id username role =
      sign m.secret (txt "JWT") (new_payload m now user_id username role)

  -- The claims of a payload; `none` where a claim is missing, which throws.
  unfoldable pub read_claims : Payload → Option TokenClaims
  read_claims p = do
    user_id ← find (txt "user_id") p.claims
    username ← find (txt "username") p.claims
    role ← find (txt "role") p.claims
    expires_at ← p.expires_at
    issued_at ← p.issued_at
    some (record {
      user_id = user_id;
      username = username;
      role = role;
      expires_at = expires_at;
      issued_at = issued_at;
    })

  -- `none` is `std::nullopt`, also for whatever is thrown.
  unfoldable pub validate_token : JwtManager → ℕ → Text → Option TokenClaims
  unfolding read_claims
  validate_token m now token = do
    decoded ← decode token
    if verify m.secret (txt "certosc") now decoded then read_claims (payload decoded) else none
