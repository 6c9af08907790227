-- ===== src/Gateway/Service/Members.antt =====
-- The members of the JSON that the bridge makes.
use certos.Base.{
  false, [], ◌∷◌, ◌≡◌, ◌∙◌, refl, Text, txt, text_beq, if◌then◌else◌, Bool-cases, inl, inr,
}
use certos.Gateway.Json.{Json, IsJson, object, item}
use certos.Gateway.Bridge.{failure_json}

module _ (js : Json) (laws : IsJson js) where
  open js use {Object, of_bool}

  pub item-set :
      (key j : Text) (v : js.Value) (o : Object)
      → item js j (js.set key v o) ≡ (if text_beq key j then v else item js j o)
  item-set key j v o = elim (Bool-cases (text_beq key j)) [
    | inl e ↦ rw (laws.member-set key j v o, e, item) refl
    | inr e ↦ rw (laws.member-set key j v o, e, item) refl
  ]

  pub failure_says :
      (message : Text) → item js (txt "success") (failure_json js message) ≡ of_bool false
  unfolding text_beq
  failure_says message =
      item-set (txt "error") (txt "success") (js.of_text message)
        (object js ((txt "success", of_bool false) ∷ []))
      ∙ item-set (txt "success") (txt "success") (of_bool false) js.empty

  pub error_says :
      (message : Text) → item js (txt "error") (failure_json js message) ≡ js.of_text message
  unfolding text_beq
  error_says message =
      item-set (txt "error") (txt "error") (js.of_text message)
        (object js ((txt "success", of_bool false) ∷ []))
