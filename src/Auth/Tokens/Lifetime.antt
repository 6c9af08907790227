-- ===== src/Auth/Tokens/Lifetime.antt =====
-- How long a token is good, and which texts are none.
use certos.Base.{ℕ, ◌+◌, ◌≤◌, ◌<◌, none, some, ◌≡◌, refl, Text, txt, find, text_beq}
use certos.Auth.Tokens.{
  JwtManager, JwtLibrary, new_payload, create_token, read_claims, validate_token,
}

module _ (lib : JwtLibrary) (m : JwtManager) where
  -- A token is good from its issue to the end of its lifetime, and gives back the three texts and the
  -- two times; after that it is refused.
  pub validate_token-create_token :
      (now later : ℕ) (user_id username role : Text)
      → let token = create_token lib m now user_id username role in
        (now ≤ later
          → later ≤ now + m.expiry_seconds
          → validate_token lib m later token
            ≡ some (record {
              user_id = user_id;
              username = username;
              role = role;
              expires_at = now + m.expiry_seconds;
              issued_at = now;
            }))
        × (now + m.expiry_seconds < later → validate_token lib m later token ≡ none)
  unfolding create_token validate_token read_claims find text_beq
  validate_token-create_token now later user_id username role =
      let p = new_payload lib m now user_id username role in
      let (d, decoded, from_same, to_same, claims_same) =
        lib.decode-sign m.secret (txt "JWT") p (refl, (refl, (refl, tt))) in
      (
        λ from to. rw decoded (
            rw
              (lib.verify-sign m.secret (txt "JWT") p d now (now + m.expiry_seconds) later decoded
                refl refl from to)
              (rw
                (
                  claims_same (txt "user_id"),
                  claims_same (txt "username"),
                  claims_same (txt "role"),
                  to_same,
                  from_same,
                  read_claims,
                )
                refl)),
        λ past. rw decoded (
            rw
              (lib.verify_expired m.secret (txt "certosc") d (now + m.expiry_seconds) later to_same
                past)
              refl),
      )
