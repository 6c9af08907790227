-- ===== src/Auth/Interception.antt =====
-- What the interceptor stops: nothing.
use certos.Base.{
  Bool, true, false, List, Option, none, some, ◌≡◌, refl, Text, txt, ◌++◌, Bool-cases, inl, inr,
  text_beq,
}
use certos.Auth.{intercept, is_public}

lets_through :
    {C : Type 0} (validate_token : Text → Option C) (methods : List Text) (received : Bool)
    (method : Text) (header : Option Text)
    → (intercept validate_token methods received method header).proceeded ≡ 1
unfolding intercept
lets_through validate_token methods received method none = refl
lets_through validate_token methods false method (some t) = refl
lets_through validate_token methods true method (some t) =
    elim (Bool-cases (is_public method methods)) [ inl e ↦ rw e refl | inr e ↦ rw e refl ]

-- Every call proceeds, once: without a header, with a token that the token manager refuses, and at
-- every hook point. A token behind "Bearer " of a call that is not public is checked, as it was sent,
-- but the answer has no effect on that.
pub intercept_proceeds :
    {C : Type 0} (validate_token : Text → Option C) (methods : List Text) (received : Bool)
    (method : Text) (header : Option Text) (token : Text)
    → ((intercept validate_token methods received method header).proceeded ≡ 1)
      × (is_public method methods ≡ false
          → (intercept validate_token methods true method (some (txt "Bearer " ++ token))).checked
            ≡ some (token, validate_token token))
unfolding intercept text_beq
intercept_proceeds validate_token methods received method header token =
    (lets_through validate_token methods received method header, λ e. rw e refl)
