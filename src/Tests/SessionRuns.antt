-- ===== src/Tests/SessionRuns.antt =====
-- Runs of the session and cancellation requests of src/server.rs.
use redis_driver_for_per_wor.Prelude.{List, ◌<◌, ℕ, ◌≡◌, refl, [], ◌∷◌, none, some, arith}
use redis_driver_for_per_wor.Assoc.{lookup, insert, remove}
use redis_driver_for_per_wor.Json
use redis_driver_for_per_wor.Dto.Result.{DatabaseInfo}
use redis_driver_for_per_wor.Json.{
  Json, Number, number, unsigned, null, get, Members, no_members, member, string, number, unsigned,
}
use redis_driver_for_per_wor.Service.Errors.{canceled}
use redis_driver_for_per_wor.Server.{Server, is_cancelled, send, service_error_response}
use redis_driver_for_per_wor.Server.Dispatch.{
  handle_object, handle_cancel, handle_close, handle_message, handle_identified, handle_request,
  handle_initialize, spawn_session_method, handle_open, refuse,
}
use redis_driver_for_per_wor.Server.Schedule.{
  Event, receive, flush, run, step, receive_frame, write_frame, finish_task,
}
use redis_driver_for_per_wor.Tests.Fixtures.{
  factory, service, serde, events, two_tasks, params, task, request,
}
use redis_driver_for_per_wor.Prelude.{eqb, if◌then◌else◌}
use redis_driver_for_per_wor.Protocol.{result_response, err_invalid_params}
use redis_driver_for_per_wor.Server.Sessions.Lifetime.{handle_open_fresh, handle_close_forever}
use redis_driver_for_per_wor.Server.Cancel.{finish_task-handle_cancel}
use redis_driver_for_per_wor.Server.Cancel.Tokens.{handle_cancel_other}

abbrev between : List (Event ℕ)
between = flush ∷ receive (some (request 5 "perk/v1/close" (params "session_id" 2))) ∷ []

abbrev info : DatabaseInfo
info = record { product = "Redis"; version = "7.2" }

abbrev open_later : Server ℕ ℕ → Server ℕ ℕ
open_later = handle_open factory service serde (some null) (unsigned 6)

abbrev opened_next : Server ℕ ℕ
opened_next = handle_open factory service serde (some null) (unsigned 5) two_tasks

abbrev closed_next : Server ℕ ℕ
closed_next = run factory service serde between opened_next

handle_open_fresh_example :
    (first : ℕ) × (second : ℕ) × (first < second)
    × (opened_next.sink ≡ send (result_response (some (unsigned 5)) null) two_tasks.sink)
    × ((open_later closed_next).sink
        ≡ send (result_response (some (unsigned 6)) null) closed_next.sink)
    × (lookup first two_tasks.sessions ≡ none)
    × (lookup second closed_next.sessions ≡ none)
    × ((n : ℕ)
        → lookup n opened_next.sessions
          ≡ (if eqb first n then some 10 else lookup n two_tasks.sessions))
    × ((n : ℕ)
        → lookup n (open_later closed_next).sessions
          ≡ (if eqb second n then some 120 else lookup n closed_next.sessions))
unfolding run step receive_frame handle_message handle_object handle_identified handle_request
    handle_initialize handle_open handle_close spawn_session_method write_frame lookup insert remove
    get
handle_open_fresh_example =
    handle_open_fresh factory service serde 0 events between (some null) (some null) (unsigned 5)
      (unsigned 6) two_tasks closed_next (record { target = "redis://localhost" })
      (record { target = "redis://localhost" }) info info 10 120 20 130 refl refl refl refl refl
      refl (omega arith)

abbrev after_close : Server ℕ ℕ
after_close =
    run factory service serde events
      (handle_close factory service serde (some (params "session_id" 1)) (unsigned 5) two_tasks)

handle_close_forever_example :
    (lookup 1 after_close.sessions ≡ none)
    × (handle_close factory service serde (some (params "session_id" 1)) (unsigned 6) after_close
        ≡ refuse
            (some (unsigned 6))
            err_invalid_params
            "invalid params: unknown session_id"
            "perk/v1/close"
            after_close)
unfolding run step receive_frame handle_message handle_object handle_identified handle_request
    handle_initialize handle_open spawn_session_method write_frame lookup insert remove get
handle_close_forever_example =
    handle_close_forever factory service serde (some (params "session_id" 1)) (unsigned 5)
      (unsigned 6) two_tasks (record { session_id = 1 }) 0 events refl refl (omega arith, tt)
      (omega arith)

abbrev cancelled_first : Server ℕ ℕ
cancelled_first =
    run factory service serde (flush ∷ [])
      (handle_cancel factory service serde (some (params "id" 3)) two_tasks)

finish_task-handle_cancel_example :
    (finish_task factory service serde 0 cancelled_first).sink
    ≡ send
        (service_error_response (some (unsigned 3)) "perk/v1/execute" (canceled "request canceled"))
        cancelled_first.sink
unfolding run step receive_frame handle_message handle_object handle_identified handle_request
    handle_initialize handle_open spawn_session_method write_frame lookup insert remove get
    handle_cancel Json.remove
finish_task-handle_cancel_example =
    finish_task-handle_cancel factory service serde (params "id" 3) (record { id = 3 }) 0 0
      (task 3 0) two_tasks cancelled_first (flush ∷ []) refl refl refl refl refl

handle_cancel_other_example :
    is_cancelled 1 (handle_cancel factory service serde (some (params "id" 3)) two_tasks).cancelled
    ≡ is_cancelled 1 two_tasks.cancelled
unfolding run step receive_frame handle_message handle_object handle_identified handle_request
    handle_initialize handle_open spawn_session_method write_frame lookup insert remove get
    Json.remove
handle_cancel_other_example =
    handle_cancel_other factory service serde 0 events (params "id" 3) (record { id = 3 }) 0 1
      (task 3 0) (task 4 1) two_tasks refl refl refl refl (omega arith) refl
