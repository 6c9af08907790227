-- ===== src/Gateway/Server/Answers.antt =====
-- What a client is answered.
use certos.Base.{
  ℕ, ◌<◌, Bool, false, List, [], ◌∷◌, Option, none, some, ◌≡◌, refl, ap, ◌∙◌, inl, inr, Text,
  Bool-cases, All, if◌then◌else◌, subst,
}
use certos.Config.{GatewayConfig}
use certos.Gateway.{Action, handle}
use certos.Gateway.Json.{Json}
use certos.Gateway.Bridge.{MasterStub}
use certos.Gateway.Service.{Files, respond, join}
use certos.Gateway.Server.{
  Request, Phase, reading, answering, answering_failure, closed, Event, accepts, accept_fails,
  reads, read_fails, written, turn_to, on_accept, on_read_failure, on_written, is_thrown,
  handle_request, on_read, step, run, Beyond,
}
use certos.Gateway.Server.Events.{Avoids, Sees, MaySee, Server, run-MaySee}
use certos.Gateway.Server.Crash.{put_self}

-- A shutdown does not fail.
abbrev pub IsCalm : Event → Type 0
IsCalm (written n fails) = fails ≡ false
IsCalm _ = Unit

module _ (js : Json) {M F : Type 0} (stub : MasterStub M) (files : Files F)
    (throws : Text → F → Bool) (config : GatewayConfig) where
  abbrev pub after :
      List Event → Server js stub files throws config → Option (Server js stub files throws config)
  after = run js stub files throws config

  -- The response for a request, if it is no upgrade.
  abbrev pub answer : Request → Beyond js stub files throws config → Phase
  answer req beyond =
      if req.upgrade
      then closed
      else answering
          (respond js stub files config req.method req.target req.authorization req.body beyond).1

  handled :
      (n : ℕ) (req : Request) (s : Server js stub files throws config)
      → is_thrown js stub files throws config
          (handle req.method req.target req.authorization)
          s.beyond.1
        ≡ false
      → Sees n (some reading) s
      → (t : Server js stub files throws config) × (step js stub files throws config (reads n req) s
          ≡ some t)
        × Sees n (some (answer req s.beyond)) t
  unfolding step on_read handle_request
  handled n req s safe (e, lt) = elim (Bool-cases req.upgrade) [
    | inl u ↦ (
      turn_to n closed s,
      rw (e, on_read) (rw u refl),
      (put_self n closed s.connections ∙ rw u refl, lt),
    )
    | inr u ↦
        let r =
          respond js stub files config req.method req.target req.authorization req.body s.beyond in
        (
          record (turn_to n (answering r.1) s) { beyond = r.0 },
          rw (e, on_read) (rw u (rw safe refl)),
          (put_self n (answering r.1) s.connections ∙ rw u refl, lt),
        )
  ]

  calm_written :
      (n : ℕ) (q : Option Phase) (s : Server js stub files throws config)
      → s.connections n ≡ q
      → (t : Server js stub files throws config) × (on_written n false s ≡ some t)
  unfolding on_written
  calm_written n none s e = (s, rw (e, on_written) refl)
  calm_written n (some reading) s e = (s, rw (e, on_written) refl)
  calm_written n (some (answering res)) s e = (turn_to n closed s, rw (e, on_written) refl)
  calm_written n (some (answering_failure res)) s e = (turn_to n closed s, rw (e, on_written) refl)
  calm_written n (some closed) s e = (s, rw (e, on_written) refl)

  module _ (finds : (path : Text) (f : F) → throws path f ≡ false) where
    never_thrown :
        (action : Action) (f : F) → is_thrown js stub files throws config action f ≡ false
    unfolding is_thrown
    never_thrown Action.no_content f = refl
    never_thrown Action.preflight f = refl
    never_thrown (Action.static_file path) f = finds (join config.web_root path) f
    never_thrown (Action.call token route) f = refl

    calm_read :
        (n : ℕ) (req : Request) (q : Option Phase) (s : Server js stub files throws config)
        → s.connections n ≡ q
        → (t : Server js stub files throws config) × (on_read js stub files throws config n req s
            ≡ some t)
    unfolding on_read handle_request
    calm_read n req none s e = (s, rw (e, on_read) refl)
    calm_read n req (some reading) s e =
        let safe = never_thrown (handle req.method req.target req.authorization) s.beyond.1 in
        elim (Bool-cases req.upgrade) [
          | inl u ↦ (turn_to n closed s, rw (e, on_read) (rw u refl))
          | inr u ↦
              let r =
                respond js stub files config req.method req.target req.authorization req.body
                  s.beyond in
              (
                record (turn_to n (answering r.1) s) { beyond = r.0 },
                rw (e, on_read) (rw u (rw safe refl)),
              )
        ]
    calm_read n req (some (answering res)) s e = (s, rw (e, on_read) refl)
    calm_read n req (some (answering_failure res)) s e = (s, rw (e, on_read) refl)
    calm_read n req (some closed) s e = (s, rw (e, on_read) refl)

    calm_step :
        (e : Event) (s : Server js stub files throws config)
        → IsCalm e
        → (t : Server js stub files throws config) × (step js stub files throws config e s ≡ some t)
    unfolding step
    calm_step accepts s h = (on_accept s, refl)
    calm_step accept_fails s h = (s, refl)
    calm_step (reads n req) s h = calm_read n req (s.connections n) s refl
    calm_step (read_fails n) s h = (on_read_failure n s, refl)
    calm_step (written n fails) s h =
        let (t, e) = calm_written n (s.connections n) s refl in
        (t, ap (λ b. on_written n b s) h ∙ e)

    goes_on :
        (es : List Event) (s : Server js stub files throws config)
        → All IsCalm es
        → (t : Server js stub files throws config) × (after es s ≡ some t)
    unfolding run
    goes_on [] s h = (s, refl)
    goes_on (e ∷ es) s (h, hs) =
        let (t, first) = calm_step e s h in
        let (u, rest) = goes_on es t hs in (u, rw (first, run) rest)

    -- Where looking for a file never throws and every shutdown succeeds, the gateway goes on whatever
    -- happens. A request that is read on a connection then gets the answer of the routes, in the state
    -- that they find at that time, and keeps it until it is written, whatever comes on other connections;
    -- but a request for a WebSocket gets none, and its connection is closed.
    pub request_answered :
        (n : ℕ) (req : Request) (es : List Event) (s : Server js stub files throws config)
        → s.connections n ≡ some reading
        → n < s.next
        → All (Avoids n) es
        → All IsCalm es
        → (t : Server js stub files throws config) × (after (reads n req ∷ es) s ≡ some t)
          × (t.connections n ≡ some (answer req s.beyond))
    unfolding run
    request_answered n req es s at lt avoid calm =
        let safe = never_thrown (handle req.method req.target req.authorization) s.beyond.1 in
        let (u, first, seen) = handled n req s safe (at, lt) in
        let (t, rest) = goes_on es u calm in
        let later =
          run-MaySee js stub files throws config n (some (answer req s.beyond)) es u avoid seen in
        (t, rw (first, run) rest, (subst (MaySee n (some (answer req s.beyond))) rest later).0)
