-- ===== src/Server/Schedule.antt =====
-- `run`, `serve`, the spawned tasks and the writer of src/server.rs, as steps that a schedule orders.
use redis_driver_for_per_wor.Prelude.{
  ℕ, suc, Bool, false, List, [], ◌∷◌, ◌++◌, Option, none, some, map, if◌then◌else◌, Result, ok, err,
  get_elem?, take, drop,
}
use redis_driver_for_per_wor.Assoc.{remove}
use redis_driver_for_per_wor.Json.{Json}
use redis_driver_for_per_wor.Protocol.{Response, result_response}
use redis_driver_for_per_wor.Service.Errors.{ServiceError, canceled}
use redis_driver_for_per_wor.Service.Handlers.{SessionFactory, SessionService, Serde}
use redis_driver_for_per_wor.Server.{Server, Task, is_cancelled, send, service_error_response}
use redis_driver_for_per_wor.Server.Methods.{run_session_method}
use redis_driver_for_per_wor.Server.Dispatch.{handle_message}

-- What happens next. `receive` carries the frame's JSON, or nothing for text that is not JSON;
-- `finish i` lets the handler of the i-th task run to its end; `interrupt i w` drops the handler of a
-- cancelled task where it stands, which leaves the world `w`; `flush` lets the writer take one frame;
-- `hang_up` is the end of the input, or a terminal error of the reader.
pub data Event (W : Type 0) : Type 0 where
  receive : Option Json → Event W
  finish : ℕ → Event W
  interrupt : ℕ → W → Event W
  flush : Event W
  hang_up : Event W

abbrev pub remove_at {ℓ} : {A : Type ℓ} → ℕ → List A → List A
remove_at i xs = take i xs ++ drop (suc i) xs

-- The response of a task, from the outcome of its handler.
unfoldable pub answer : {S : Type 0} → Task S → Bool → Result ServiceError Json → Response
answer task cancelled outcome =
    elim (if cancelled then err (canceled "request canceled") else outcome) [
      | ok value ↦ result_response (some task.id) value
      | err e ↦ service_error_response (some task.id) task.method e
    ]

module _ {S W : Type 0} where
  -- The end of the spawned future: it answers and leaves the registry.
  unfoldable pub complete_task : ℕ → Task S → Result ServiceError Json → W → Server S W → Server S W
  complete_task i task outcome w s =
      let response = answer task (is_cancelled task.token s.cancelled) outcome in
      record s {
        world = w;
        sink = send response s.sink;
        registry = remove task.key s.registry;
        tasks = remove_at i s.tasks;
      }

  -- The end of `run`: every registered token is cancelled and the sink is closed.
  unfoldable pub shutdown : Server S W → Server S W
  shutdown s = record s {
    cancelled = map (λ entry. entry.1) s.registry ++ s.cancelled;
    sink = record s.sink { is_open = false };
  }

  unfoldable pub write_frame : Server S W → Server S W
  write_frame s = elim s.sink.queue [
    | [] ↦ s
    | frame ∷ rest ↦
        if s.sink.is_open
        then record s {
          sink = record s.sink { queue = rest; written = s.sink.written ++ frame ∷ [] };
        }
        else record s { sink = record s.sink { queue = rest } }
  ]

module _ {S W : Type 0} (factory : SessionFactory S W) (service : SessionService S W)
    (serde : Serde) where
  -- One turn of the frame loop; a malformed frame ends the server.
  unfoldable pub receive_frame : Option Json → Server S W → Server S W
  receive_frame none s = shutdown s
  receive_frame (some message) s = elim (handle_message factory service serde message s) [
    | ok next ↦ next
    | err e ↦ shutdown s
  ]

  unfoldable pub finish_task : ℕ → Server S W → Server S W
  finish_task i s = elim (get_elem? s.tasks i) [
    | none ↦ s
    | some task ↦
        let (outcome, w) =
          run_session_method service serde task.method task.rest task.session s.world in
        complete_task i task outcome w s
  ]

  unfoldable pub interrupt_task : ℕ → W → Server S W → Server S W
  interrupt_task i w s = elim (get_elem? s.tasks i) [
    | none ↦ s
    | some task ↦
        if is_cancelled task.token s.cancelled
        then complete_task i task (err (canceled "request canceled")) w s
        else s
  ]

  -- The frame loop has ended once the sink is closed.
  unfoldable pub step : Event W → Server S W → Server S W
  step (receive frame) s = if s.sink.is_open then receive_frame frame s else s
  step (finish i) s = finish_task i s
  step (interrupt i w) s = interrupt_task i w s
  step flush s = write_frame s
  step hang_up s = shutdown s

  unfoldable pub run : List (Event W) → Server S W → Server S W
  run [] s = s
  run (e ∷ events) s = run events (step e s)
