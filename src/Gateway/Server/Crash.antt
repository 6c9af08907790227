-- ===== src/Gateway/Server/Crash.antt =====
-- How a client ends the gateway.
use certos.Base.{
  ℕ, Bool, true, List, [], ◌∷◌, ◌++◌, Option, none, some, ◌≡◌, refl, inl, inr, Text, arith,
  Option-cases, All, subst,
}
use certos.Config.{GatewayConfig}
use certos.Gateway.Json.{Json}
use certos.Gateway.Bridge.{MasterStub}
use certos.Gateway.Service.{Files}
use certos.Gateway.Server.{
  Phase, reading, answering_failure, HttpServer, Event, accepts, read_fails, written, put,
  on_accept, on_read_failure, on_written, failure_response, step, run,
}
use certos.Gateway.Server.Events.{Avoids, Sees, MaySee, Server, step-MaySee}

pub put_self : (n : ℕ) (p : Phase) (c : ℕ → Option Phase) → put n p c n ≡ some p
put_self n p c = ground arith

accepted :
    {S : Type 0} (s : HttpServer S) → s.accepting ≡ true → Sees s.next (some reading) (on_accept s)
unfolding on_accept
accepted s a = rw a (put_self s.next reading s.connections, omega arith)

refused :
    {S : Type 0} (n : ℕ) (s : HttpServer S)
    → Sees n (some reading) s
    → Sees n (some (answering_failure failure_response)) (on_read_failure n s)
unfolding on_read_failure
refused n s (e, lt) = rw (e, on_read_failure) (put_self n _ s.connections, lt)

thrown :
    {S : Type 0} (n : ℕ) (s : HttpServer S)
    → Sees n (some (answering_failure failure_response)) s
    → on_written n true s ≡ none
unfolding on_written
thrown n s (e, _) = rw (e, on_written) refl

module _ (js : Json) {M F : Type 0} (stub : MasterStub M) (files : Files F)
    (throws : Text → F → Bool) (config : GatewayConfig) where
  abbrev after :
      List Event → Server js stub files throws config → Option (Server js stub files throws config)
  after = run js stub files throws config

  -- What comes of a phase comes of it too when others have their events first.
  after_others :
      (n : ℕ) (p : Option Phase) (es fs : List Event) (s : Server js stub files throws config)
      → All (Avoids n) es
      → Sees n p s
      → ((t : Server js stub files throws config) → Sees n p t → after fs t ≡ none)
      → after (es ++ fs) s ≡ none
  unfolding run
  after_others n p [] fs s ne v ends = ends s v
  after_others n p (e ∷ es) fs s (ne, nes) v ends =
      let seen = step-MaySee js stub files throws config n p e s ne v in
      elim (Option-cases (step js stub files throws config e s)) [
        | inl over ↦ rw (over, run) refl
        | inr (t, next) ↦
            rw (next, run) (after_others n p es fs t nes (subst (MaySee n p) next seen) ends)
      ]

  thrown_step :
      (n : ℕ) (s : Server js stub files throws config)
      → Sees n (some (answering_failure failure_response)) s
      → step js stub files throws config (written n true) s ≡ none
  unfolding step
  thrown_step n s v = thrown n s v

  shut :
      (n : ℕ) (s : Server js stub files throws config)
      → Sees n (some (answering_failure failure_response)) s
      → after (written n true ∷ []) s ≡ none
  unfolding run
  shut n s v = rw (thrown_step n s v, run) refl

  -- Any client can end the gateway. It connects, sends what is no request (or is too large), and breaks
  -- the connection so that the shutdown after the answer fails; then an exception leaves the server's
  -- thread, and the process ends, whatever events of other connections come between.
  pub bad_request_ends_gateway :
      (s : Server js stub files throws config) (es fs : List Event)
      → s.accepting ≡ true
      → All (Avoids s.next) es
      → All (Avoids s.next) fs
      → after (accepts ∷ (es ++ read_fails s.next ∷ (fs ++ written s.next true ∷ []))) s ≡ none
  unfolding run step
  bad_request_ends_gateway s es fs a avoid_es avoid_fs =
      after_others s.next (some reading) es (read_fails s.next ∷ (fs ++ written s.next true ∷ []))
        (on_accept s) avoid_es (accepted s a)
        λ t v.
          after_others s.next (some (answering_failure failure_response)) fs
            (written s.next true ∷ []) (on_read_failure s.next t) avoid_fs (refused s.next t v)
            (shut s.next)
