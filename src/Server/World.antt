-- ===== src/Server/World.antt =====
-- What opens, closes and handlers keep of the world, every run of src/server.rs keeps.
use redis_driver_for_per_wor.Prelude.{
  ℕ, subst, ap, Bool, true, false, List, [], ◌∷◌, Option, none, some, String, if◌then◌else◌, inl,
  inr, Bool-cases, Option-cases, List-cases, All, All-intro, get_elem?,
}
use redis_driver_for_per_wor.Json.{Json, Number, as_object}
use redis_driver_for_per_wor.Service.Handlers.{SessionFactory, SessionService, Serde}
use redis_driver_for_per_wor.Server.{Server, is_cancelled}
use redis_driver_for_per_wor.Server.Dispatch.{handle_message}
use redis_driver_for_per_wor.Server.Requested.{
  Asks, TasksRun, TasksRun-get_elem?, TasksRun-remove_at, handle_object-TasksRun,
}
use redis_driver_for_per_wor.Server.Methods.{run_session_method}
use redis_driver_for_per_wor.Server.Turn.{
  Turn, ignored, cancelling, replied, started, opened, not_opened, closed, spawned,
}
use redis_driver_for_per_wor.Server.Turn.Sound.{handle_object-Turn}
use redis_driver_for_per_wor.Server.Schedule.{
  Event, receive, finish, interrupt, flush, hang_up, step, run, receive_frame, finish_task,
  interrupt_task, complete_task, shutdown, write_frame,
}
use redis_driver_for_per_wor.Server.Handled.{ServiceKeeps, run_session_method-Kept}

module _ {W : Type 0} (P : W → Type 0) where
  -- An event that drops a handler where it stands leaves a world with the property.
  abbrev pub Leaves : Event W → Type 0
  Leaves (interrupt i w) = P w
  Leaves _ = Unit

module _ {S W : Type 0} (P : W → Type 0) (Q : String → Type 0) (factory : SessionFactory S W)
    (service : SessionService S W) (serde : Serde) where
  -- An open leaves what it found, and so do a close and every method that may be asked for.
  pub record AllKeep : Type 0 where
    pub open_session : (target : String) (w : W) → P w → P (factory.open_session target w).1
    pub close : (session : S) (w : W) → P w → P (service.close session w)
    pub runs :
        (method : String) (rest : Json) (session : S) (w : W)
        → Q method
        → P w
        → P (run_session_method service serde method rest session w).1

  -- The world has the property, and only such methods are in flight.
  pub record Kept (s : Server S W) : Type 0 where
    pub world : P s.world
    pub tasks : TasksRun Q s.tasks

  Turn-Kept :
      {s next : Server S W} {id : Option (Option Number)}
      → Turn factory service s id next
      → AllKeep
      → P s.world
      → P next.world
  Turn-Kept ignored k h = h
  Turn-Kept (cancelling n token f) k h = h
  Turn-Kept (replied r) k h = h
  Turn-Kept (started r f) k h = h
  Turn-Kept {s = s} (not_opened r target e w i f) k h =
      subst P (ap (λ o. o.1) f) (k.open_session target s.world h)
  Turn-Kept {s = s} (opened r target info session w i f) k h =
      subst P (ap (λ o. o.1) f) (k.open_session target s.world h)
  Turn-Kept {s = s} (closed r n session i f) k h = k.close session s.world h
  Turn-Kept (spawned m rest n session id i f) k h = h

  module _ (keeps : AllKeep) where
    receive_frame-Kept :
        (frame : Option Json) (s : Server S W)
        → Asks Q {W = W} (receive frame)
        → Kept s
        → Kept (receive_frame factory service serde frame s)
    unfolding receive_frame handle_message shutdown
    receive_frame-Kept none s a h = record { world = h.world; tasks = h.tasks }
    receive_frame-Kept (some message) s a h = elim (Option-cases (as_object message)) [
      | inl bad ↦
          rw (receive_frame, handle_message, bad) (record { world = h.world; tasks = h.tasks })
      | inr (obj, good) ↦
          rw (receive_frame, handle_message, good)
            (record {
              world = Turn-Kept (handle_object-Turn serde s obj) keeps h.world;
              tasks =
                  handle_object-TasksRun Q factory service serde s h.tasks obj
                    (rw (Asks, good) at a);
            })
    ]

    finish_task-Kept :
        (i : ℕ) (s : Server S W) → Kept s → Kept (finish_task factory service serde i s)
    unfolding finish_task complete_task
    finish_task-Kept i s h = elim (Option-cases (get_elem? s.tasks i)) [
      | inl gone ↦ rw (finish_task, gone) h
      | inr (t, found) ↦
          rw (finish_task, found)
            (record {
              world =
                  keeps.runs t.method t.rest t.session s.world
                    (TasksRun-get_elem? Q i s.tasks t found h.tasks) h.world;
              tasks = TasksRun-remove_at Q i s.tasks h.tasks;
            })
    ]

    interrupt_task-Kept :
        (i : ℕ) (w : W) (s : Server S W)
        → P w
        → Kept s
        → Kept (interrupt_task factory service serde i w s)
    unfolding interrupt_task complete_task
    interrupt_task-Kept i w s left h = elim (Option-cases (get_elem? s.tasks i)) [
      | inl gone ↦ rw (interrupt_task, gone) h
      | inr (t, found) ↦ elim (Bool-cases (is_cancelled t.token s.cancelled)) [
        | inl hit ↦
            rw (interrupt_task, found, hit)
              (record { world = left; tasks = TasksRun-remove_at Q i s.tasks h.tasks })
        | inr miss ↦ rw (interrupt_task, found, miss) h
      ]
    ]

    write_frame-Kept : (s : Server S W) → Kept s → Kept (write_frame s)
    unfolding write_frame
    write_frame-Kept s h = elim (List-cases s.sink.queue) [
      | inl done ↦ rw (write_frame, done) h
      | inr (r, rest, e) ↦ elim (Bool-cases s.sink.is_open) [
        | inl up ↦ rw (write_frame, e, up) (record { world = h.world; tasks = h.tasks })
        | inr down ↦ rw (write_frame, e, down) (record { world = h.world; tasks = h.tasks })
      ]
    ]

    receive_open-Kept :
        (frame : Option Json) (s : Server S W) (is_open : Bool)
        → Asks Q {W = W} (receive frame)
        → Kept s
        → Kept (if is_open then receive_frame factory service serde frame s else s)
    receive_open-Kept frame s true a h = receive_frame-Kept frame s a h
    receive_open-Kept frame s false a h = h

    step-Kept :
        (e : Event W) (s : Server S W)
        → Leaves P e
        → Asks Q e
        → Kept s
        → Kept (step factory service serde e s)
    unfolding step shutdown
    step-Kept (receive frame) s l a h = receive_open-Kept frame s s.sink.is_open a h
    step-Kept (finish i) s l a h = finish_task-Kept i s h
    step-Kept (interrupt i w) s l a h = interrupt_task-Kept i w s l h
    step-Kept flush s l a h = write_frame-Kept s h
    step-Kept hang_up s l a h = record { world = h.world; tasks = h.tasks }

    -- A property of the world that opens, closes and the methods asked for keep holds after every run,
    -- if the dropped handlers keep it too.
    pub run-Kept :
        (events : List (Event W)) (s : Server S W)
        → All (Leaves P) events
        → All (Asks Q) events
        → Kept s
        → Kept (run factory service serde events s)
    unfolding run
    run-Kept [] s l a h = h
    run-Kept (e ∷ events) s l a h = run-Kept events _ l.1 a.1 (step-Kept e s l.0 a.0 h)

-- Any method at all.
abbrev pub Any : String → Type 0
Any method = Unit

Asks-Any : {W : Type 0} (e : Event W) → Asks Any e
Asks-Any (receive none) = tt
Asks-Any (receive (some message)) = elim (Option-cases (as_object message)) [
  | inl bad ↦ rw (Asks, bad) tt
  | inr (obj, good) ↦ rw (Asks, good) tt
]
Asks-Any (finish i) = tt
Asks-Any (interrupt i w) = tt
Asks-Any flush = tt
Asks-Any hang_up = tt

module _ {S W : Type 0} (P : W → Type 0) (factory : SessionFactory S W)
    (service : SessionService S W) (serde : Serde) where
  -- Whatever is asked for: what every open and every handler keeps, every run keeps.
  pub run-world :
      ((target : String) (w : W) → P w → P (factory.open_session target w).1)
      → ServiceKeeps P service
      → (events : List (Event W)) (s : Server S W) → All (Leaves P) events
      → P s.world
      → P (run factory service serde events s).world
  run-world opens handlers events s left h =
      let keeps : AllKeep P Any factory service serde = record {
        open_session = opens;
        close = handlers.close;
        runs = λ method rest session w any.
            run_session_method-Kept P service serde method rest session w handlers;
      } in
      (run-Kept P Any factory service serde keeps events s left
        (All-intro (Asks Any) Asks-Any events)
        (record { world = h; tasks = All-intro (λ t. Any t.method) (λ t. tt) s.tasks })).world
