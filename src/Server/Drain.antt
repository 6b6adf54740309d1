-- ===== src/Server/Drain.antt =====
-- Every request to src/server.rs can be answered: the tasks and the writer empty the server.
use redis_driver_for_per_wor.Prelude.{
  ℕ, zero, suc, ◌+◌, ◌≡◌, refl, ap, ◌∙◌, Bool, true, List, [], ◌∷◌, ◌++◌, Option, some, arith,
  length, replicate, inl, inr, Bool-cases, get_elem?,
}
use redis_driver_for_per_wor.Json.{Number}
use redis_driver_for_per_wor.Protocol.{Response}
use redis_driver_for_per_wor.Service.Handlers.{SessionFactory, SessionService, Serde}
use redis_driver_for_per_wor.Server.{Server, Task, Sink, send, new_server}
use redis_driver_for_per_wor.Server.Schedule.{
  Event, finish, flush, step, run, finish_task, complete_task, write_frame, remove_at,
}
use redis_driver_for_per_wor.Server.Tally.{count, tally, asked}
use redis_driver_for_per_wor.Server.Answers.{tally-run}

asked-append :
    {W : Type 0} (p : Option Number → Bool) (xs ys : List (Event W))
    → asked p (xs ++ ys) ≡ asked p xs + asked p ys
unfolding asked
asked-append p [] ys = omega arith
asked-append p (e ∷ xs) ys = omega (arith, asked-append p xs ys)

asked-finish :
    (W : Type 0) (p : Option Number → Bool) (n : ℕ) → asked {W = W} p (replicate n (finish 0)) ≡ 0
unfolding asked
asked-finish W p zero = refl
asked-finish W p (suc n) = omega (arith, asked-finish W p n)

asked-flush :
    (W : Type 0) (p : Option Number → Bool) (n : ℕ) → asked {W = W} p (replicate n flush) ≡ 0
unfolding asked
asked-flush W p zero = refl
asked-flush W p (suc n) = omega (arith, asked-flush W p n)

send-is_open : (r : Response) (sink : Sink) → Sink.is_open (send r sink) ≡ sink.is_open
send-is_open r sink = elim (Bool-cases sink.is_open) [
  | inl up ↦ rw up refl
  | inr down ↦ rw down refl
]

module _ {S W : Type 0} (factory : SessionFactory S W) (service : SessionService S W)
    (serde : Serde) where
  run-append :
      (xs ys : List (Event W)) (s : Server S W)
      → run factory service serde (xs ++ ys) s
        ≡ run factory service serde ys (run factory service serde xs s)
  unfolding run
  run-append [] ys s = refl
  run-append (e ∷ xs) ys s = run-append xs ys (step factory service serde e s)

  finish_first :
      (s : Server S W) (t : Task S) (rest : List (Task S))
      → s.tasks ≡ t ∷ rest
      → ((step factory service serde (finish 0) s).tasks ≡ rest)
        × ((step factory service serde (finish 0) s).sink.is_open ≡ s.sink.is_open)
  unfolding step finish_task complete_task
  finish_first s t rest e =
      let first : get_elem? s.tasks 0 ≡ some t = ap (λ l. get_elem? l 0) e in
      rw (finish_task, first) ((ap (λ l. remove_at 0 l) e, send-is_open _ s.sink))

  flush_first :
      (s : Server S W) (r : Response) (rest : List Response)
      → s.sink.is_open ≡ true
      → s.sink.queue ≡ r ∷ rest
      → ((step factory service serde flush s).sink.queue ≡ rest)
        × ((step factory service serde flush s).tasks ≡ s.tasks)
        × ((step factory service serde flush s).sink.is_open ≡ true)
  unfolding step write_frame
  flush_first s r rest up e =
      (rw (write_frame, e, up) refl, rw (write_frame, e, up) refl, rw (write_frame, e, up) refl)

  drain_tasks :
      (tasks : List (Task S)) (s : Server S W)
      → s.tasks ≡ tasks
      → ((run factory service serde (replicate (length tasks) (finish 0)) s).tasks ≡ [])
        × ((run factory service serde (replicate (length tasks) (finish 0)) s).sink.is_open
            ≡ s.sink.is_open)
  unfolding run
  drain_tasks [] s e = (e, refl)
  drain_tasks (t ∷ rest) s e =
      let (fewer, same) = finish_first s t rest e in
      let (none_left, open_after) =
        drain_tasks rest (step factory service serde (finish 0) s) fewer in
      (none_left, open_after ∙ same)

  drain_queue :
      (queue : List Response) (s : Server S W)
      → s.sink.is_open ≡ true
      → s.sink.queue ≡ queue
      → ((run factory service serde (replicate (length queue) flush) s).sink.queue ≡ [])
        × ((run factory service serde (replicate (length queue) flush) s).tasks ≡ s.tasks)
        × ((run factory service serde (replicate (length queue) flush) s).sink.is_open ≡ true)
  unfolding run
  drain_queue [] s up e = (e, refl, up)
  drain_queue (r ∷ rest) s up e =
      let (fewer, same, still) = flush_first s r rest up e in
      let (none_left, kept, open_after) =
        drain_queue rest (step factory service serde flush s) still fewer in
      (none_left, kept ∙ same, open_after)

  -- After any schedule that has not shut the new server down, some number of task ends and then some
  -- number of writes, with no new frame, bring every answer out: for any set of ids, the responses
  -- written are then exactly as many as the schedule asked for.
  pub count-run_drained :
      (p : Option Number → Bool) (w : W) (events : List (Event W))
      → (run factory service serde events (new_server w)).sink.is_open ≡ true
      → (n k : ℕ) × (count
            (λ (r : Response). p r.id)
            (run factory service serde
              (events ++ (replicate n (finish 0) ++ replicate k flush))
              (new_server w)).sink.written
          ≡ asked p events)
  unfolding tally count
  count-run_drained p w events up =
      let start : Server S W = new_server w in
      let s = run factory service serde events start in
      let (idle, open_idle) = drain_tasks s.tasks s refl in
      let t = run factory service serde (replicate (length s.tasks) (finish 0)) s in
      let (empty, kept, open_empty) = drain_queue t.sink.queue t (open_idle ∙ up) refl in
      let finishes : List (Event W) = replicate (length s.tasks) (finish 0) in
      let flushes : List (Event W) = replicate (length t.sink.queue) flush in
      let final = run factory service serde (events ++ (finishes ++ flushes)) start in
      let whole : final ≡ run factory service serde flushes t =
        run-append events (finishes ++ flushes) start ∙ run-append finishes flushes s in
      let no_queue =
        ap (λ x. count (λ (r : Response). p r.id) x.sink.queue) whole
        ∙ ap (λ l. count (λ (r : Response). p r.id) l) empty in
      let no_tasks =
        ap (λ x. count (λ (u : Task S). p (some u.id)) x.tasks) whole
        ∙ ap (λ l. count (λ (u : Task S). p (some u.id)) l) (kept ∙ idle) in
      let total =
        tally-run p factory service serde (events ++ (finishes ++ flushes)) start
          (ap (λ x. x.sink.is_open) whole ∙ open_empty) in
      (
        length s.tasks,
        length t.sink.queue,
        omega (
          arith,
          total,
          no_queue,
          no_tasks,
          asked-append p events (finishes ++ flushes),
          asked-append p finishes flushes,
          asked-finish W p (length s.tasks),
          asked-flush W p (length t.sink.queue),
        ),
      )
