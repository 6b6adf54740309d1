-- ===== src/Server/Cancel.antt =====
-- Cancellation in src/server.rs: a cancelled request is answered as such, and no other is.
pub mod Tokens
use redis_driver_for_per_wor.Prelude.{
  ℕ, suc, ◌+◌, ◌≤◌, ◌<◌, ◌≡◌, refl, sym, ap, ◌∙◌, Bool, true, false, List, [], ◌∷◌, ◌++◌, map,
  Option, none, some, arith, inl, inr, Bool-cases, List-cases, Option-cases, eqb, eqb_refl, eqb_iff,
  if◌then◌else◌, any, ◌||◌, String, get_elem?, Result, ok, err,
}
use redis_driver_for_per_wor.Assoc.{Assoc, lookup}
use redis_driver_for_per_wor.Json.{Json, Number, as_object}
use redis_driver_for_per_wor.Dto.Request.{CancelRequest}
use redis_driver_for_per_wor.Service.Errors.{ServiceError, canceled}
use redis_driver_for_per_wor.Service.Handlers.{SessionFactory, SessionService, Serde}
use redis_driver_for_per_wor.Server.{Server, Task, Sink, is_cancelled, send, service_error_response}
use redis_driver_for_per_wor.Server.Dispatch.{handle_cancel}
use redis_driver_for_per_wor.Server.Turn.{
  Turn, ignored, cancelling, replied, started, opened, not_opened, closed, spawned,
}
use redis_driver_for_per_wor.Server.Steps.{
  Step, idle, stopped, ended, wrote, turned, completed, step-Step, run_invariant,
}
use redis_driver_for_per_wor.Server.Schedule.{
  Event, receive, step, run, complete_task, shutdown, write_frame, finish_task, answer,
}

is_cancelled-append :
    (token : ℕ) (more cancelled : List ℕ)
    → is_cancelled token cancelled ≡ true
    → is_cancelled token (more ++ cancelled) ≡ true
is_cancelled-append token [] cancelled h = h
is_cancelled-append token (t ∷ more) cancelled h =
    ground (arith, is_cancelled-append token more cancelled h)

module _ {S W : Type 0} where
  Step-is_cancelled :
      {factory : SessionFactory S W} {service : SessionService S W} (token : ℕ)
      (s next : Server S W) (id : Option (Option Number))
      → Step factory service s id next
      → is_cancelled token s.cancelled ≡ true
      → is_cancelled token next.cancelled ≡ true
  unfolding shutdown complete_task write_frame
  Step-is_cancelled token s next id idle h = h
  Step-is_cancelled token s next id (stopped _) h = h
  Step-is_cancelled token s next id ended h =
      is_cancelled-append token (map (λ entry. entry.1) s.registry) s.cancelled h
  Step-is_cancelled token s next id wrote h = elim (List-cases s.sink.queue) [
    | inl done ↦ rw (write_frame, done) h
    | inr (r, rest, e) ↦ elim (Bool-cases s.sink.is_open) [
      | inl up ↦ rw (write_frame, e, up) h
      | inr down ↦ rw (write_frame, e, down) h
    ]
  ]
  Step-is_cancelled token s next id (completed i t o w f) h = h
  Step-is_cancelled token s next id (turned up ignored) h = h
  Step-is_cancelled token s next id (turned up (cancelling k t f)) h =
      is_cancelled-append token (t ∷ []) s.cancelled h
  Step-is_cancelled token s next id (turned up (replied r)) h = h
  Step-is_cancelled token s next id (turned up (started r f)) h = h
  Step-is_cancelled token s next id (turned up (not_opened r t e w i f)) h = h
  Step-is_cancelled token s next id (turned up (opened r t f session w i g)) h = h
  Step-is_cancelled token s next id (turned up (closed r n session i f)) h = h
  Step-is_cancelled token s next id (turned up (spawned m rest n session k i f)) h = h

  module _ (factory : SessionFactory S W) (service : SessionService S W) (serde : Serde) where
    complete_task_cancelled :
        (i : ℕ) (task : Task S) (o : Result ServiceError Json) (w : W) (s : Server S W)
        → is_cancelled task.token s.cancelled ≡ true
        → (complete_task i task o w s).sink
          ≡ send
              (service_error_response (some task.id) task.method (canceled "request canceled"))
              s.sink
    unfolding complete_task answer
    complete_task_cancelled i task o w s hit = rw (complete_task, hit) refl

    -- A cancel of a request in flight makes its answer the cancellation error, -32800: whatever is
    -- scheduled in between and whatever its handler returns, the task with the request's token sends
    -- that error, with the id and the method of the request, when it ends.
    pub finish_task-handle_cancel :
        (params : Json) (request : CancelRequest) (token i : ℕ) (task : Task S)
        (s later : Server S W) (events : List (Event W))
        → Serde.cancel_request serde params ≡ some request
        → lookup request.id s.registry ≡ some token
        → later
          ≡ run factory service serde events (handle_cancel factory service serde (some params) s)
        → get_elem? later.tasks i ≡ some task
        → task.token ≡ token
        → (finish_task factory service serde i later).sink
          ≡ send
              (service_error_response (some task.id) task.method (canceled "request canceled"))
              later.sink
    unfolding finish_task handle_cancel
    finish_task-handle_cancel params request token i task s later events d found e here same =
        let start = handle_cancel factory service serde (some params) s in
        let hit : is_cancelled token start.cancelled ≡ true =
          rw (handle_cancel, d, found) (ground (arith, eqb_refl token)) in
        let kept : is_cancelled token later.cancelled ≡ true = rw e (
          run_invariant factory service serde (λ x. is_cancelled token x.cancelled ≡ true)
            (Step-is_cancelled token) events start hit) in
        rw (finish_task, here) (complete_task_cancelled i task _ _ later (rw same kept))
