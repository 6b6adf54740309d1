-- ===== src/Server/Shutdown.antt =====
-- The end of `run` in src/server.rs.
use redis_driver_for_per_wor.Prelude.{
  ◌≡◌, refl, ◌∙◌, Bool, true, false, List, [], ◌∷◌, Option, none, some, arith, inl, inr, List-cases,
  if◌then◌else◌,
}
use redis_driver_for_per_wor.Json.{Json, Number}
use redis_driver_for_per_wor.Service.Handlers.{SessionFactory, SessionService, Serde}
use redis_driver_for_per_wor.Server.{Server}
use redis_driver_for_per_wor.Server.Dispatch.{object_params, handle_message}
use redis_driver_for_per_wor.Server.Steps.{
  Step, idle, stopped, ended, wrote, turned, completed, step-Step,
}
use redis_driver_for_per_wor.Server.Schedule.{
  Event, receive, step, receive_frame, run, complete_task, shutdown, write_frame,
}

module _ {S W : Type 0} where
  -- A closed gate, and what may not change behind it.
  record Silent (s next : Server S W) : Type 0 where
    shut : next.sink.is_open ≡ false
    written : next.sink.written ≡ s.sink.written
    sessions : next.sessions ≡ s.sessions

  write_frame-Silent : (s : Server S W) → s.sink.is_open ≡ false → Silent s (write_frame s)
  unfolding write_frame
  write_frame-Silent s down = elim (List-cases s.sink.queue) [
    | inl done ↦ record {
      shut = rw (write_frame, done) down;
      written = rw (write_frame, done) refl;
      sessions = rw (write_frame, done) refl;
    }
    | inr (r, rest, e) ↦ record {
      shut = rw (write_frame, e, down) refl;
      written = rw (write_frame, e, down) refl;
      sessions = rw (write_frame, e, down) refl;
    }
  ]

  guarded :
      {s x y : Server S W} (b : Bool)
      → Silent s x
      → (b ≡ false → Silent s y)
      → Silent s (if b then x else y)
  guarded true h k = h
  guarded false h k = k refl

  module _ (factory : SessionFactory S W) (service : SessionService S W) (serde : Serde) where
    Step-Silent :
        {s next : Server S W} {id : Option (Option Number)}
        → Step factory service s id next
        → s.sink.is_open ≡ false
        → Silent s next
    unfolding shutdown complete_task
    Step-Silent idle down = record { shut = down; written = refl; sessions = refl }
    Step-Silent (stopped _) down = record { shut = down; written = refl; sessions = refl }
    Step-Silent ended down = record { shut = refl; written = refl; sessions = refl }
    Step-Silent wrote down = write_frame-Silent _ down
    Step-Silent (turned up turn) down = absurd (ground arith)
    Step-Silent {s = s} (completed i t o w f) down = record {
      shut = rw down refl;
      written = rw down refl;
      sessions = refl;
    }

    run-Silent :
        (events : List (Event W)) (s : Server S W)
        → s.sink.is_open ≡ false
        → Silent s (run factory service serde events s)
    unfolding run
    run-Silent [] s down = record { shut = down; written = refl; sessions = refl }
    run-Silent (e ∷ events) s down =
        let one = Step-Silent (step-Step factory service serde s e) down in
        let rest = run-Silent events (step factory service serde e s) one.shut in
        record {
          shut = rest.shut;
          written = rest.written ∙ one.written;
          sessions = rest.sessions ∙ one.sessions;
        }

    -- Once the server shuts down, at the end of the input or on a terminal error, nothing that was
    -- queued or that a task still finishes is written, whatever is scheduled afterwards, and no
    -- session is opened or closed.
    pub run-shutdown :
        (events : List (Event W)) (s : Server S W)
        → ((run factory service serde events (shutdown s)).sink.written ≡ s.sink.written)
          × ((run factory service serde events (shutdown s)).sessions ≡ s.sessions)
    unfolding shutdown
    run-shutdown events s =
        let quiet = run-Silent events (shutdown s) refl in (quiet.written, quiet.sessions)

    receive_frame_malformed :
        (frame : Option Json) (s : Server S W)
        → object_params frame ≡ none
        → receive_frame factory service serde frame s ≡ shutdown s
    unfolding receive_frame handle_message
    receive_frame_malformed none s bad = refl
    receive_frame_malformed (some message) s bad = rw (receive_frame, handle_message, bad) refl

    step_malformed :
        (frame : Option Json) (s : Server S W)
        → object_params frame ≡ none
        → Silent s (step factory service serde (receive frame) s)
    unfolding step shutdown
    step_malformed frame s bad =
        guarded s.sink.is_open
          (rw (receive_frame_malformed frame s bad)
            (record { shut = refl; written = refl; sessions = refl }))
          (λ down. record { shut = down; written = refl; sessions = refl })

    -- A frame that is not JSON, or not a JSON object, shuts the server down: nothing is written after
    -- it, whatever is scheduled.
    pub receive_malformed :
        (frame : Option Json) (events : List (Event W)) (s : Server S W)
        → object_params frame ≡ none
        → (run factory service serde (receive frame ∷ events) s).sink.written ≡ s.sink.written
    unfolding run
    receive_malformed frame events s bad =
        let one = step_malformed frame s bad in (run-Silent events _ one.shut).written ∙ one.written
