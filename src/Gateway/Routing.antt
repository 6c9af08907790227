-- ===== src/Gateway/Routing.antt =====
-- What requests with an id in their path are taken for.
use certos.Base.{
  ℕ, suc, false, ◌∷◌, ◌++◌, ◌≡◌, refl, ap, ◌∙◌, Text, txt, length, starts_with, find_text,
  take-append, text_beq,
}
use certos.Gateway.{
  post, delete, upload, cancel_job, admin_review_request, admin_delete_user, route,
}
use certos.Gateway.Cuts.{NoSlash, find_word, cut-past, found_at_start-starts_with}

word : NoSlash (txt "upload")
word = ((λ q. cc), ((λ q. cc), ((λ q. cc), ((λ q. cc), ((λ q. cc), ((λ q. cc), tt))))))

-- The upload route cuts the id out one place too early: for the id that follows
-- "/api/v1/public/request/" it yields the id behind a slash. (This is of an id without a slash that
-- does not begin with "upload".)
pub upload_keeps_slash :
    (id : Text)
    → NoSlash id
    → starts_with id (txt "upload") ≡ false
    → route post (txt "/api/v1/public/request/" ++ id ++ txt "/upload") ≡ upload (b'/' ∷ id)
unfolding route text_beq starts_with find_text
upload_keeps_slash id h e =
    let found = find_word id (txt "upload") h word e in
    let taken = ap (λ s. upload (b'/' ∷ s)) (take-append id (txt "/upload")) in
    let path = txt "/api/v1/public/request/" ++ id ++ txt "/upload" in
    rw (found_at_start-starts_with path (txt "/api/v1/public/request/"), found)
      (ap upload (cut-past 22 (suc (length id)) path) ∙ taken)

review_word : NoSlash (txt "review")
review_word = ((λ q. cc), ((λ q. cc), ((λ q. cc), ((λ q. cc), ((λ q. cc), ((λ q. cc), tt))))))

-- The review route cuts the id out one place too late: for the id that follows
-- "/api/v1/admin/requests/" it yields the id without its first character. (This is of an id without a
-- slash that does not begin with "review".)
pub review_drops_first :
    (c : ℕ) (id : Text)
    → NoSlash (c ∷ id)
    → starts_with (c ∷ id) (txt "review") ≡ false
    → route post (txt "/api/v1/admin/requests/" ++ c ∷ id ++ txt "/review")
      ≡ admin_review_request id
unfolding route text_beq starts_with find_text
review_drops_first c id h e =
    let found = find_word (c ∷ id) (txt "review") h review_word e in
    let taken = ap admin_review_request (take-append id (txt "/review")) in
    let path = txt "/api/v1/admin/requests/" ++ c ∷ id ++ txt "/review" in
    rw
      (
        found_at_start-starts_with path (txt "/api/v1/public/request/"),
        found_at_start-starts_with path (txt "/api/v1/admin/requests/"),
        found,
      )
      (ap admin_review_request (cut-past 24 (length id) path) ∙ taken)

-- The other ids are cut out whole, whatever characters they have.
pub deleted_ids :
    (id : Text)
    → (route delete (txt "/api/v1/jobs/" ++ id) ≡ cancel_job id)
      × (route delete (txt "/api/v1/admin/users/" ++ id) ≡ admin_delete_user id)
unfolding route text_beq starts_with
deleted_ids id =
    let job = txt "/api/v1/jobs/" ++ id in
    let user = txt "/api/v1/admin/users/" ++ id in
    (
      rw (found_at_start-starts_with job (txt "/api/v1/jobs/")) refl,
      rw
          (
            found_at_start-starts_with user (txt "/api/v1/jobs/"),
            found_at_start-starts_with user (txt "/api/v1/admin/users/"),
          )
          refl,
    )
