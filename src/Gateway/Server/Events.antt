-- ===== src/Gateway/Server/Events.antt =====
-- Connections do not disturb one another.
use certos.Base.{
  ℕ, ◌+◌, ◌<◌, Bool, true, false, List, [], ◌∷◌, Option, none, some, ◌≡◌, ◌≢◌, refl, ◌∙◌, inl, inr,
  Text, arith, Option-cases, Bool-cases, All, if◌then◌else◌, subst,
}
use certos.Config.{GatewayConfig}
use certos.Gateway.{handle}
use certos.Gateway.Json.{Json}
use certos.Gateway.Bridge.{MasterStub}
use certos.Gateway.Service.{Files}
use certos.Gateway.Server.{
  Request, Phase, reading, answering, answering_failure, closed, HttpServer, Event, accepts,
  accept_fails, reads, read_fails, written, put, turn_to, on_accept, on_read_failure, on_written,
  is_thrown, handle_request, on_read, step, run, Beyond,
}

-- The event is of another connection, or of none.
abbrev pub Avoids : ℕ → Event → Type 0
Avoids n (reads k req) = k ≢ n
Avoids n (read_fails k) = k ≢ n
Avoids n (written k fails) = k ≢ n
Avoids n _ = Unit

put_ne : (k n : ℕ) (p : Phase) (c : ℕ → Option Phase) → k ≢ n → put k p c n ≡ c n
put_ne k n p c ne = ground arith

-- What one connection sees of a change: its phase, and that its number has been given.
abbrev pub Sees : {S : Type 0} → ℕ → Option Phase → HttpServer S → Type 0
Sees n p s = (s.connections n ≡ p) × (n < s.next)

turn_to-Sees :
    {S : Type 0} (k n : ℕ) (q : Phase) (p : Option Phase) (s : HttpServer S)
    → k ≢ n
    → Sees n p s
    → Sees n p (turn_to k q s)
turn_to-Sees k n q p s ne (e, lt) = (put_ne k n q s.connections ne ∙ e, lt)

accept-Sees :
    {S : Type 0} (n : ℕ) (p : Option Phase) (accepting : Bool) (s : HttpServer S)
    → Sees n p s
    → Sees n p (
        if accepting
        then record (turn_to s.next reading s) { next = s.next + 1; accepting = true }
        else s)
accept-Sees n p true s (e, lt) =
    (put_ne s.next n reading s.connections (λ q. absurd (omega arith)) ∙ e, omega arith)
accept-Sees n p false s v = v

on_accept-Sees :
    {S : Type 0} (n : ℕ) (p : Option Phase) (s : HttpServer S) → Sees n p s → Sees n p (on_accept s)
unfolding on_accept
on_accept-Sees n p s v = accept-Sees n p s.accepting s v

-- The handlers for another connection, by the phase that they find.
on_read_failure-Sees :
    {S : Type 0} (k n : ℕ) (p q : Option Phase) (s : HttpServer S)
    → k ≢ n
    → Sees n p s
    → s.connections k ≡ q
    → Sees n p (on_read_failure k s)
unfolding on_read_failure
on_read_failure-Sees k n p none s ne v e = rw (e, on_read_failure) v
on_read_failure-Sees k n p (some reading) s ne v e =
    rw (e, on_read_failure) (turn_to-Sees k n _ p s ne v)
on_read_failure-Sees k n p (some (answering res)) s ne v e = rw (e, on_read_failure) v
on_read_failure-Sees k n p (some (answering_failure res)) s ne v e = rw (e, on_read_failure) v
on_read_failure-Sees k n p (some closed) s ne v e = rw (e, on_read_failure) v

-- Where the process goes on, it is so too.
abbrev pub MaySee : {S : Type 0} → ℕ → Option Phase → Option (HttpServer S) → Type 0
MaySee n p none = Unit
MaySee n p (some t) = Sees n p t

on_written-MaySee :
    {S : Type 0} (k n : ℕ) (fails : Bool) (p q : Option Phase) (s : HttpServer S)
    → k ≢ n
    → Sees n p s
    → s.connections k ≡ q
    → MaySee n p (on_written k fails s)
unfolding on_written
on_written-MaySee k n fails p none s ne v e = rw (e, on_written) v
on_written-MaySee k n fails p (some reading) s ne v e = rw (e, on_written) v
on_written-MaySee k n fails p (some (answering res)) s ne v e =
    rw (e, on_written) (turn_to-Sees k n closed p s ne v)
on_written-MaySee k n true p (some (answering_failure res)) s ne v e = rw (e, on_written) tt
on_written-MaySee k n false p (some (answering_failure res)) s ne v e =
    rw (e, on_written) (turn_to-Sees k n closed p s ne v)
on_written-MaySee k n fails p (some closed) s ne v e = rw (e, on_written) v

module _ (js : Json) {M F : Type 0} (stub : MasterStub M) (files : Files F)
    (throws : Text → F → Bool) (config : GatewayConfig) where
  abbrev pub Server : Type 0
  Server = HttpServer (Beyond js stub files throws config)

  handle_request-MaySee :
      (k n : ℕ) (req : Request) (p : Option Phase) (s : Server)
      → k ≢ n
      → Sees n p s
      → MaySee n p (handle_request js stub files throws config k req s)
  unfolding handle_request
  handle_request-MaySee k n req p s ne v = elim (Bool-cases req.upgrade) [
    | inl u ↦ rw u (turn_to-Sees k n closed p s ne v)
    | inr u ↦
        elim (Bool-cases (
          is_thrown js stub files throws config (handle req.method req.target req.authorization)
            s.beyond.1)) [
              | inl t ↦ rw u (rw t tt)
              | inr t ↦ rw u (rw t (put_ne k n _ s.connections ne ∙ v.0, v.1))
            ]
  ]

  on_read-MaySee :
      (k n : ℕ) (req : Request) (p q : Option Phase) (s : Server)
      → k ≢ n
      → Sees n p s
      → s.connections k ≡ q
      → MaySee n p (on_read js stub files throws config k req s)
  unfolding on_read
  on_read-MaySee k n req p none s ne v e = rw (e, on_read) v
  on_read-MaySee k n req p (some reading) s ne v e =
      rw (e, on_read) (handle_request-MaySee k n req p s ne v)
  on_read-MaySee k n req p (some (answering res)) s ne v e = rw (e, on_read) v
  on_read-MaySee k n req p (some (answering_failure res)) s ne v e = rw (e, on_read) v
  on_read-MaySee k n req p (some closed) s ne v e = rw (e, on_read) v

  pub step-MaySee :
      (n : ℕ) (p : Option Phase) (e : Event) (s : Server)
      → Avoids n e
      → Sees n p s
      → MaySee n p (step js stub files throws config e s)
  unfolding step
  step-MaySee n p accepts s ne v = on_accept-Sees n p s v
  step-MaySee n p accept_fails s ne v = v
  step-MaySee n p (reads k req) s ne v = on_read-MaySee k n req p (s.connections k) s ne v refl
  step-MaySee n p (read_fails k) s ne v = on_read_failure-Sees k n p (s.connections k) s ne v refl
  step-MaySee n p (written k fails) s ne v =
      on_written-MaySee k n fails p (s.connections k) s ne v refl

  -- Events of others leave a connection in its phase, or the process has ended.
  pub run-MaySee :
      (n : ℕ) (p : Option Phase) (es : List Event) (s : Server)
      → All (Avoids n) es
      → Sees n p s
      → MaySee n p (run js stub files throws config es s)
  unfolding run
  run-MaySee n p [] s ne v = v
  run-MaySee n p (e ∷ es) s (ne, nes) v =
      let seen = step-MaySee n p e s ne v in
      elim (Option-cases (step js stub files throws config e s)) [
        | inl over ↦ rw (over, run) tt
        | inr (t, next) ↦ rw (next, run) (run-MaySee n p es t nes (subst (MaySee n p) next seen))
      ]
