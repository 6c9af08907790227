-- ===== src/Gateway/Tests.antt =====
-- Examples of requests to the gateway.
use certos.Base.{none, ◌≡◌, refl, txt}
use certos.Gateway.{get, post, upload, admin_review_request, route, handle}

slash_before_id : route post (txt "/api/v1/public/request/ab/upload") ≡ upload (txt "/ab")
unfolding route certos.Base.text_beq certos.Gateway.found_at_start certos.Base.find_text
    certos.Gateway.cut
slash_before_id = refl

first_letter_lost :
    route post (txt "/api/v1/admin/requests/ab/review") ≡ admin_review_request (txt "b")
unfolding route certos.Base.text_beq certos.Gateway.found_at_start certos.Base.find_text
    certos.Gateway.cut
first_letter_lost = refl

trailing_slash : handle get (txt "/api/v1/jobs/") none ≡ handle get (txt "/api/v1/jobs") none
unfolding handle certos.Gateway.found_at_start certos.Base.text_beq certos.Base.find_text
trailing_slash = refl
