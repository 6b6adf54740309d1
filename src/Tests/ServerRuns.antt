-- ===== src/Tests/ServerRuns.antt =====
-- Runs of the whole server of src/server.rs.
use redis_driver_for_per_wor.Prelude.{ℕ, ◌+◌, ◌≤◌, ◌≡◌, refl, true, List, [], ◌∷◌, some}
use redis_driver_for_per_wor.Prelude.{◌++◌, replicate}
use redis_driver_for_per_wor.Protocol.{Response}
use redis_driver_for_per_wor.Server.Drain.{count-run_drained}
use redis_driver_for_per_wor.Assoc.{lookup, insert, remove}
use redis_driver_for_per_wor.Json.{
  number, unsigned, null, get, Members, no_members, member, string, number, unsigned,
}
use redis_driver_for_per_wor.Server.Dispatch.{
  handle_object, handle_message, handle_identified, handle_request, handle_initialize,
  spawn_session_method, handle_open, request_id,
}
use redis_driver_for_per_wor.Server.Turn.{Turn, answer_id}
use redis_driver_for_per_wor.Server.Turn.Sound.{handle_object-Turn}
use redis_driver_for_per_wor.Server.Schedule.{
  Event, receive, finish, flush, hang_up, run, step, receive_frame, write_frame, finish_task,
  shutdown,
}
use redis_driver_for_per_wor.Server.Tally.{tally, count, asked}
use redis_driver_for_per_wor.Server.Answers.{tally-run, tally-run_le}
use redis_driver_for_per_wor.Server.Gate.{run_uninitialized}
use redis_driver_for_per_wor.Server.Shutdown.{run-shutdown, receive_malformed}
use redis_driver_for_per_wor.Tests.Fixtures.{
  factory, service, serde, events, server, two_tasks, open_first, execute,
}

-- Two answers are owed to the initialize and the open, and two tasks run.
two_tasks_test : tally (λ id. true) two_tasks ≡ 4
unfolding run step receive_frame handle_message handle_object handle_identified handle_request
    handle_initialize handle_open spawn_session_method write_frame lookup insert remove get tally
    count
two_tasks_test = refl

tally-run_example :
    tally (λ id. true) (run factory service serde events server)
    ≡ asked (λ id. true) events + tally (λ id. true) server
unfolding run step receive_frame handle_message handle_object handle_identified handle_request
    handle_initialize handle_open spawn_session_method write_frame lookup insert remove get
tally-run_example = tally-run (λ id. true) factory service serde events server refl

tally-run_le_example :
    tally (λ id. true) (run factory service serde (hang_up ∷ events) server)
    ≤ asked (λ id. true) (hang_up ∷ events) + tally (λ id. true) server
tally-run_le_example = tally-run_le (λ id. true) factory service serde (hang_up ∷ events) server

abbrev early : List (Event ℕ)
early = receive (some open_first) ∷ flush ∷ receive (some (execute 3)) ∷ finish 0 ∷ []

run_uninitialized_example :
    ((run factory service serde early server).sessions ≡ [])
    × ((run factory service serde early server).tasks ≡ [])
    × ((run factory service serde early server).world ≡ 0)
unfolding run step receive_frame handle_message handle_object handle_identified handle_request
    handle_initialize handle_open spawn_session_method write_frame lookup insert remove get
    finish_task
run_uninitialized_example = run_uninitialized factory service serde 0 early refl

run-shutdown_example :
    ((run factory service serde (finish 0 ∷ flush ∷ []) (shutdown two_tasks)).sink.written
      ≡ two_tasks.sink.written)
    × ((run factory service serde (finish 0 ∷ flush ∷ []) (shutdown two_tasks)).sessions
        ≡ two_tasks.sessions)
run-shutdown_example = run-shutdown factory service serde (finish 0 ∷ flush ∷ []) two_tasks

receive_malformed_example :
    (run factory service serde (receive (some null) ∷ finish 0 ∷ flush ∷ []) two_tasks).sink.written
    ≡ two_tasks.sink.written
receive_malformed_example =
    receive_malformed factory service serde (some null) (finish 0 ∷ flush ∷ []) two_tasks refl

abbrev unversioned : Members
unversioned = member "id" (number (unsigned 7)) (member "method" (string "perk/v1/open") no_members)

handle_object-Turn_example :
    Turn factory service server
      (answer_id (request_id (get unversioned "id")))
      (handle_object factory service serde unversioned server)
handle_object-Turn_example = handle_object-Turn serde server unversioned

count-run_drained_example :
    (n k : ℕ) × (count
        (λ (r : Response). true)
        (run factory service serde
          (events ++ (replicate n (finish 0) ++ replicate k flush))
          server).sink.written
      ≡ asked (λ id. true) events)
unfolding run step receive_frame handle_message handle_object handle_identified handle_request
    handle_initialize handle_open spawn_session_method write_frame lookup insert remove get
count-run_drained_example = count-run_drained factory service serde (λ id. true) 0 events refl
