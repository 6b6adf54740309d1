-- ===== src/Server/Gate.antt =====
-- The initialization gate of src/server.rs.
use redis_driver_for_per_wor.Prelude.{
  ℕ, ◌≡◌, ◌≢◌, refl, true, false, List, [], ◌∷◌, Option, some, inl, inr, Bool-cases, List-cases,
  get_elem?,
}
use redis_driver_for_per_wor.Json.{Number}
use redis_driver_for_per_wor.Service.Handlers.{SessionFactory, SessionService, Serde}
use redis_driver_for_per_wor.Server.{Server, Task, new_server}
use redis_driver_for_per_wor.Server.Turn.{
  ignored, cancelling, replied, started, opened, not_opened, closed, spawned,
}
use redis_driver_for_per_wor.Server.Steps.{
  Step, idle, stopped, ended, wrote, turned, completed, run_invariant,
}
use redis_driver_for_per_wor.Server.Schedule.{Event, run, complete_task, shutdown, write_frame}

no_task :
    {S : Type 0} (i : ℕ) (t : Task S) (tasks : List (Task S))
    → tasks ≡ []
    → get_elem? tasks i ≢ some t
no_task i t [] e h = cc
no_task i t (u ∷ tasks) e h = cc

module _ {S W : Type 0} where
  -- A server that is not initialized holds nothing, and its backend is the one that it began with.
  record Idle (w : W) (s : Server S W) : Type 0 where
    no_sessions : s.initialized ≡ false → s.sessions ≡ []
    no_tasks : s.initialized ≡ false → s.tasks ≡ []
    same_world : s.initialized ≡ false → s.world ≡ w

  busy : {w : W} {s : Server S W} → s.initialized ≡ true → Idle w s
  busy up = record { no_sessions = λ down. cc; no_tasks = λ down. cc; same_world = λ down. cc }

  write_frame-Idle : (w : W) (s : Server S W) → Idle w s → Idle w (write_frame s)
  unfolding write_frame
  write_frame-Idle w s h =
      let record { no_sessions = a; no_tasks = b; same_world = c } = h in
      elim (List-cases s.sink.queue) [
        | inl done ↦ rw (write_frame, done) h
        | inr (r, rest, e) ↦ elim (Bool-cases s.sink.is_open) [
          | inl up ↦
              rw (write_frame, e, up) (record { no_sessions = a; no_tasks = b; same_world = c })
          | inr down ↦
              rw (write_frame, e, down) (record { no_sessions = a; no_tasks = b; same_world = c })
        ]
      ]

  Step-Idle :
      {factory : SessionFactory S W} {service : SessionService S W} (w : W) (s next : Server S W)
      (id : Option (Option Number))
      → Step factory service s id next
      → Idle w s
      → Idle w next
  unfolding shutdown complete_task
  Step-Idle w s next id idle h = h
  Step-Idle w s next id (stopped _) h = h
  Step-Idle w s next id ended h = record {
    no_sessions = h.no_sessions;
    no_tasks = h.no_tasks;
    same_world = h.same_world;
  }
  Step-Idle w s next id wrote h = write_frame-Idle w s h
  Step-Idle w s next id (completed i t o v f) h = record {
    no_sessions = h.no_sessions;
    no_tasks = λ down. absurd (no_task i t s.tasks (h.no_tasks down) f);
    same_world = λ down. absurd (no_task i t s.tasks (h.no_tasks down) f);
  }
  Step-Idle w s next id (turned up ignored) h = h
  Step-Idle w s next id (turned up (cancelling k t f)) h = record {
    no_sessions = h.no_sessions;
    no_tasks = h.no_tasks;
    same_world = h.same_world;
  }
  Step-Idle w s next id (turned up (replied r)) h = record {
    no_sessions = h.no_sessions;
    no_tasks = h.no_tasks;
    same_world = h.same_world;
  }
  Step-Idle w s next id (turned up (started r f)) h = busy refl
  Step-Idle w s next id (turned up (not_opened r t e v i f)) h = busy i
  Step-Idle w s next id (turned up (opened r t f session v i g)) h = busy i
  Step-Idle w s next id (turned up (closed r n session i f)) h = busy i
  Step-Idle w s next id (turned up (spawned m rest n session k i f)) h = busy i

  -- Until an initialize has succeeded, no message opens a session, starts a task or touches the
  -- backend, whatever is scheduled.
  pub run_uninitialized :
      (factory : SessionFactory S W) (service : SessionService S W) (serde : Serde) (w : W)
      (events : List (Event W))
      → (run factory service serde events (new_server w)).initialized ≡ false
      → ((run factory service serde events (new_server w)).sessions ≡ [])
        × ((run factory service serde events (new_server w)).tasks ≡ [])
        × ((run factory service serde events (new_server w)).world ≡ w)
  run_uninitialized factory service serde w events down =
      let start : Idle w (new_server {S = S} w) = record {
        no_sessions = λ _. refl;
        no_tasks = λ _. refl;
        same_world = λ _. refl;
      } in
      let h =
        run_invariant factory service serde (Idle w) (Step-Idle w) events (new_server w) start in
      (h.no_sessions down, h.no_tasks down, h.same_world down)
