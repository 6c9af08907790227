-- ===== src/Master/System/Invariant/Engine.antt =====
-- The start and the stop of the scheduler keep the invariant of the master.
use certos.Base.{
  ℕ, Bool, true, false, Option, none, some, ◌≡◌, ◌⊎◌, refl, sym, inl, inr, some_inj, All,
}
use certos.Master.Scheduler.Engine.{
  Phase, tests, looks_for_jobs, decays, looks_for_nodes, places, sleeps, over, SchedulerEngine,
  start, stop_begins, joined, stop_joins,
}
use certos.Master.System.{System, Platform, with_engine, IsRegistered}
use certos.Master.System.Invariant.{Inv, is_going, chosen}

-- What `start` leaves when the process goes on: the engine as it was, or a new thread.
start_cases :
    (running : Bool) (old interval_ms : ℕ) (thread : Option Phase) (engine : SchedulerEngine)
    → start interval_ms (record { running = running; interval_ms = old; thread = thread })
      ≡ some engine
    → (engine ≡ record { running = running; interval_ms = old; thread = thread })
      ⊎ (engine ≡ record { running = true; interval_ms = interval_ms; thread = some tests })
unfolding start
start_cases true old interval_ms thread engine e = inl (sym (some_inj e))
start_cases false old interval_ms none engine e = inr (sym (some_inj e))
start_cases false old interval_ms (some p) engine e = cc

stop_begins_stops :
    (running : Bool) (interval_ms : ℕ) (thread : Option Phase)
    → stop_begins (record { running = running; interval_ms = interval_ms; thread = thread })
      ≡ record { running = false; interval_ms = interval_ms; thread = thread }
unfolding stop_begins
stop_begins_stops true interval_ms thread = refl
stop_begins_stops false interval_ms thread = refl

joined-chosen : (thread : Option Phase) → chosen (joined thread) ≡ chosen thread
unfolding chosen
joined-chosen none = refl
joined-chosen (some tests) = refl
joined-chosen (some looks_for_jobs) = refl
joined-chosen (some (decays jobs)) = refl
joined-chosen (some (looks_for_nodes jobs)) = refl
joined-chosen (some (places jobs nodes)) = refl
joined-chosen (some sleeps) = refl
joined-chosen (some over) = refl

joined-is_going : (thread : Option Phase) → is_going thread ≡ true → is_going (joined thread) ≡ true
unfolding is_going
joined-is_going none e = e
joined-is_going (some tests) e = e
joined-is_going (some looks_for_jobs) e = e
joined-is_going (some (decays jobs)) e = e
joined-is_going (some (looks_for_nodes jobs)) e = e
joined-is_going (some (places jobs nodes)) e = e
joined-is_going (some sleeps) e = e
joined-is_going (some over) e = e

module _ {pf : Platform} (s : System pf) (v : Inv s) where
  -- A change of the engine that adds no candidates.
  with_engine-Inv :
      (engine : SchedulerEngine)
      → All (λ node. IsRegistered node.node_id s.parts.node_registry) (chosen engine.thread)
      → (engine.running ≡ true → is_going engine.thread ≡ true)
      → Inv (with_engine engine s)
  with_engine-Inv engine c g = record {
    jobs = v.jobs;
    nodes = v.nodes;
    named = v.named;
    placed = v.placed;
    candidates = c;
    going = g;
  }

  pub start-Inv :
      (interval_ms : ℕ) (engine : SchedulerEngine)
      → start interval_ms s.engine ≡ some engine
      → Inv (with_engine engine s)
  unfolding is_going chosen
  start-Inv interval_ms engine e =
      elim (start_cases s.engine.running s.engine.interval_ms interval_ms s.engine.thread engine
        e) [ inl same ↦ rw same v | inr new ↦ rw new (with_engine-Inv _ tt (λ _. refl)) ]

  pub stop_begins-Inv : Inv (with_engine (stop_begins s.engine) s)
  stop_begins-Inv =
      rw (stop_begins_stops s.engine.running s.engine.interval_ms s.engine.thread)
        (with_engine-Inv _ v.candidates (λ r. cc))

  pub stop_joins-Inv : Inv (with_engine (stop_joins s.engine) s)
  unfolding stop_joins
  stop_joins-Inv =
      with_engine-Inv (stop_joins s.engine) (rw (joined-chosen s.engine.thread) v.candidates)
        (λ r. joined-is_going s.engine.thread (v.going r))
