-- ===== src/Auth/Tokens/Tests.antt =====
-- A token of an hour.
use certos.Base.{◌≤◌, ◌<◌, ◌+◌, none, some, ◌≡◌, txt}
use certos.Auth.Tokens.{JwtManager, new_JwtManager, create_token, validate_token}
use certos.Auth.Tokens.Lifetime.{validate_token-create_token}
use certos.Auth.Tokens.Samples.{sample_jwt}

abbrev manager : JwtManager
manager = new_JwtManager (txt "secret") 3600

validate_token-create_token_example :
    let token = create_token sample_jwt manager 1000 (txt "u1") (txt "ann") (txt "user") in
    (1000 ≤ 4600
      → 4600 ≤ 1000 + 3600
      → validate_token sample_jwt manager 4600 token
        ≡ some (record {
          user_id = txt "u1";
          username = txt "ann";
          role = txt "user";
          expires_at = 1000 + 3600;
          issued_at = 1000;
        }))
    × (1000 + 3600 < 4600 → validate_token sample_jwt manager 4600 token ≡ none)
validate_token-create_token_example =
    validate_token-create_token sample_jwt manager 1000 4600 (txt "u1") (txt "ann") (txt "user")
