-- ===== src/Gateway/Paths.antt =====
-- Which requests are calls of the API.
use certos.Base.{
  true, false, ◌++◌, Option, some, ◌≡◌, refl, ◌∙◌, Text, txt, length, starts_with, ltb, Bool-cases,
  inl, inr,
}
use certos.Gateway.{Method, is_options, route, normalize, ends_in_slash, bearer_token, handle, call}
use certos.Gateway.Cuts.{found_at_start-starts_with}

pub normalize_other : (s : Text) → ends_in_slash s ≡ false → normalize s ≡ s
unfolding normalize
normalize_other s e = elim (Bool-cases (ltb 1 (length s))) [
  | inl l ↦ rw (l, e) refl
  | inr l ↦ rw l refl
]

-- A request for an API path, other than the browser's OPTIONS, whose header is "Bearer " and a token
-- becomes the call of its route with exactly that token.
pub handle_token :
    (method : Method) (path token : Text)
    → starts_with path (txt "/api/") ≡ true
    → is_options method ≡ false
    → handle method path (some (txt "Bearer " ++ token))
      ≡ call token (route method (normalize path))
unfolding handle bearer_token starts_with
handle_token method path token h e =
    rw
      (
        found_at_start-starts_with path (txt "/api/") ∙ h,
        e,
        found_at_start-starts_with (txt "Bearer " ++ token) (txt "Bearer "),
      )
      refl

-- A request for an API path, other than OPTIONS, becomes the call of its route.
pub handle_call :
    (method : Method) (path : Text) (authorization : Option Text)
    → starts_with path (txt "/api/") ≡ true
    → is_options method ≡ false
    → handle method path authorization
      ≡ call (bearer_token authorization) (route method (normalize path))
unfolding handle
handle_call method path authorization h e =
    rw (found_at_start-starts_with path (txt "/api/") ∙ h, e) refl
