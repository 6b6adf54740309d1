-- ===== src/Server/Steps.antt =====
-- The steps of the schedules of src/server.rs: a relation, and that every event makes one of them.
use redis_driver_for_per_wor.Prelude.{
  ℕ, ◌≡◌, refl, Bool, true, false, Option, none, some, Result, get_elem?, inl, inr, if◌then◌else◌,
  Bool-cases, Option-cases, List, [], ◌∷◌,
}
use redis_driver_for_per_wor.Json.{Json, Number, as_object, get}
use redis_driver_for_per_wor.Service.Errors.{ServiceError}
use redis_driver_for_per_wor.Service.Handlers.{SessionFactory, SessionService, Serde}
use redis_driver_for_per_wor.Server.{Server, Task, is_cancelled}
use redis_driver_for_per_wor.Server.Dispatch.{request_id, handle_message}
use redis_driver_for_per_wor.Server.Turn.{Turn, answer_id}
use redis_driver_for_per_wor.Server.Turn.Sound.{handle_object-Turn}
use redis_driver_for_per_wor.Server.Schedule.{
  Event, receive, finish, interrupt, flush, hang_up, step, run, receive_frame, finish_task,
  interrupt_task, complete_task, shutdown, write_frame,
}

-- The id of the answer that an event asks for, if it asks for one.
abbrev pub asks : {W : Type 0} → Event W → Option (Option Number)
asks (receive (some message)) = elim (as_object message) [
  | none ↦ none
  | some obj ↦ answer_id (request_id (get obj "id"))
]
asks _ = none

module _ {S W : Type 0} (factory : SessionFactory S W) (service : SessionService S W) where
  pub data Step (s : Server S W) : Option (Option Number) → Server S W → Type 0 where
    idle : Step s none s
    stopped : {id : Option (Option Number)} → s.sink.is_open ≡ false → Step s id s
    ended : {id : Option (Option Number)} → Step s id (shutdown s)
    wrote : Step s none (write_frame s)
    turned :
        {id : Option (Option Number)} {next : Server S W}
        → s.sink.is_open ≡ true
        → Turn factory service s id next
        → Step s id next
    completed :
        (i : ℕ) (t : Task S) (o : Result ServiceError Json) (w : W)
        → get_elem? s.tasks i ≡ some t
        → Step s none (complete_task i t o w s)

  guarded :
      {s x y : Server S W} {id : Option (Option Number)} (b : Bool)
      → (b ≡ true → Step s id x)
      → (b ≡ false → Step s id y)
      → Step s id (if b then x else y)
  guarded true h k = h refl
  guarded false h k = k refl

  module _ (serde : Serde) (s : Server S W) where
    receive-Step :
        (frame : Option Json)
        → s.sink.is_open ≡ true
        → Step s (asks {W = W} (receive frame)) (receive_frame factory service serde frame s)
    unfolding receive_frame handle_message
    receive-Step none up = ended
    receive-Step (some message) up = elim (Option-cases (as_object message)) [
      | inl bad ↦ rw (receive_frame, handle_message, bad) ended
      | inr (obj, good) ↦
          rw (asks, receive_frame, handle_message, good)
            (turned up (handle_object-Turn serde s obj))
    ]

    finish-Step : (i : ℕ) → Step s none (finish_task factory service serde i s)
    unfolding finish_task
    finish-Step i = elim (Option-cases (get_elem? s.tasks i)) [
      | inl gone ↦ rw (finish_task, gone) idle
      | inr (t, found) ↦ rw (finish_task, found) (completed i t _ _ found)
    ]

    interrupt-Step : (i : ℕ) (w : W) → Step s none (interrupt_task factory service serde i w s)
    unfolding interrupt_task
    interrupt-Step i w = elim (Option-cases (get_elem? s.tasks i)) [
      | inl gone ↦ rw (interrupt_task, gone) idle
      | inr (t, found) ↦ elim (Bool-cases (is_cancelled t.token s.cancelled)) [
        | inl hit ↦ rw (interrupt_task, found, hit) (completed i t _ w found)
        | inr miss ↦ rw (interrupt_task, found, miss) idle
      ]
    ]

    pub step-Step : (e : Event W) → Step s (asks e) (step factory service serde e s)
    unfolding step
    step-Step (receive frame) = guarded s.sink.is_open (receive-Step frame) (λ down. stopped down)
    step-Step (finish i) = finish-Step i
    step-Step (interrupt i w) = interrupt-Step i w
    step-Step flush = wrote
    step-Step hang_up = ended

  -- What every step preserves, every run preserves.
  pub run_invariant {ℓ} :
      (serde : Serde) (Inv : Server S W → Type ℓ)
      → ((s next : Server S W) (id : Option (Option Number)) → Step s id next → Inv s → Inv next)
      → (events : List (Event W)) (s : Server S W) → Inv s
      → Inv (run factory service serde events s)
  unfolding run
  run_invariant serde Inv keeps [] s h = h
  run_invariant serde Inv keeps (e ∷ events) s h =
      run_invariant serde Inv keeps events _ (keeps s _ (asks e) (step-Step serde s e) h)
