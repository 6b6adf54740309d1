-- ===== src/Server/Answers.antt =====
-- Every request that src/server.rs accepts is answered once.
use redis_driver_for_per_wor.Prelude.{
  ℕ, ◌+◌, ◌≤◌, ◌≡◌, refl, ap, Bool, true, false, List, [], ◌∷◌, Option, some, Result, ok, err,
  get_elem?, arith, inl, inr, Bool-cases, List-cases,
}
use redis_driver_for_per_wor.Json.{Json, Number}
use redis_driver_for_per_wor.Protocol.{Response}
use redis_driver_for_per_wor.Service.Errors.{ServiceError}
use redis_driver_for_per_wor.Service.Handlers.{SessionFactory, SessionService, Serde}
use redis_driver_for_per_wor.Server.{Server, Task, is_cancelled}
use redis_driver_for_per_wor.Server.Dispatch.{reply}
use redis_driver_for_per_wor.Server.Turn.{
  Turn, ignored, cancelling, replied, started, opened, not_opened, closed, spawned,
}
use redis_driver_for_per_wor.Server.Steps.{
  Step, idle, stopped, ended, wrote, turned, completed, step-Step,
}
use redis_driver_for_per_wor.Server.Schedule.{
  Event, step, run, complete_task, shutdown, write_frame, answer,
}
use redis_driver_for_per_wor.Server.Tally.{
  bit, count, count-append, count-remove_at, tally, owed_by, asked,
}

answer-id :
    {S : Type 0} (t : Task S) (cancelled : Bool) (o : Result ServiceError Json)
    → Response.id (answer t cancelled o) ≡ some t.id
unfolding answer
answer-id t true o = refl
answer-id t false (ok v) = refl
answer-id t false (err e) = refl

module _ {S W : Type 0} (p : Option Number → Bool) where
  -- A transition that owes or gives `n` more answers, with the gate left as it is.
  pub record Charges (n : ℕ) (s next : Server S W) : Type 0 where
    pub gate : next.sink.is_open ≡ s.sink.is_open
    pub owed : tally p next ≡ n + tally p s

  reply-Charges :
      (r : Response) (s base : Server S W)
      → s.sink.is_open ≡ true
      → base.sink ≡ s.sink
      → base.tasks ≡ s.tasks
      → Charges (bit (p r.id)) s (reply r base)
  unfolding tally count
  reply-Charges r s base up sink tasks =
      rw (sink, tasks, up)
        (record {
          gate = refl;
          owed = omega (arith, count-append (λ (r : Response). p r.id) s.sink.queue (r ∷ []));
        })

  module _ {factory : SessionFactory S W} {service : SessionService S W} where
    Turn-Charges :
        {s next : Server S W} {id : Option (Option Number)}
        → Turn factory service s id next
        → s.sink.is_open ≡ true
        → Charges (owed_by p id) s next
    unfolding tally count
    Turn-Charges ignored up = record { gate = refl; owed = omega arith }
    Turn-Charges (cancelling k token h) up = record { gate = refl; owed = omega arith }
    Turn-Charges {s = s} (replied r) up = reply-Charges r s s up refl refl
    Turn-Charges {s = s} (started r h) up = reply-Charges r s _ up refl refl
    Turn-Charges {s = s} (not_opened r t e w i h) up = reply-Charges r s _ up refl refl
    Turn-Charges {s = s} (opened r t f n w i h) up = reply-Charges r s _ up refl refl
    Turn-Charges {s = s} (closed r n c i h) up = reply-Charges r s _ up refl refl
    Turn-Charges {s = s} (spawned m rest n c id i h) up = record {
      gate = refl;
      owed = omega (arith, count-append (λ (t : Task S). p (some t.id)) s.tasks (_ ∷ []));
    }

  -- A step asks for at most `n` answers more, and for exactly `n` if the gate is open after it.
  record Owes (n : ℕ) (s next : Server S W) : Type 0 where
    at_most : tally p next ≤ n + tally p s
    exactly : next.sink.is_open ≡ true → (s.sink.is_open ≡ true) × (tally p next ≡ n + tally p s)

  complete_task-Owes :
      (i : ℕ) (t : Task S) (o : Result ServiceError Json) (w : W) (s : Server S W)
      → get_elem? s.tasks i ≡ some t
      → Owes 0 s (complete_task i t o w s)
  unfolding tally count complete_task
  complete_task-Owes i t o w s h =
      let response = answer t (is_cancelled t.token s.cancelled) o in
      let removed = count-remove_at (λ (t : Task S). p (some t.id)) i s.tasks t h in
      let queued = count-append (λ (r : Response). p r.id) s.sink.queue (response ∷ []) in
      let same = ap (λ id. bit (p id)) (answer-id t (is_cancelled t.token s.cancelled) o) in
      elim (Bool-cases s.sink.is_open) [
        | inl up ↦
            rw (complete_task, up)
              (record {
                at_most = omega (arith, removed, queued, same);
                exactly = λ _. (refl, omega (arith, removed, queued, same));
              })
        | inr down ↦
            rw (complete_task, down)
              (record { at_most = omega (arith, removed); exactly = λ e. cc })
      ]

  write_frame-Owes : (s : Server S W) → Owes 0 s (write_frame s)
  unfolding write_frame tally count
  write_frame-Owes s = elim (List-cases s.sink.queue) [
    | inl done ↦
        let none_left = ap (λ q. count (λ (r : Response). p r.id) q) done in
        rw (write_frame, done)
          (record {
            at_most = omega (arith, none_left);
            exactly = λ up. (up, omega (arith, none_left));
          })
    | inr (r, rest, e) ↦
        let moved = count-append (λ (r : Response). p r.id) s.sink.written (r ∷ []) in
        elim (Bool-cases s.sink.is_open) [
          | inl up ↦
              rw (write_frame, e, up)
                (record {
                  at_most = omega (arith, moved);
                  exactly = λ _. (refl, omega (arith, moved));
                })
          | inr down ↦
              rw (write_frame, e, down) (record { at_most = omega arith; exactly = λ e. cc })
        ]
  ]

  module _ (factory : SessionFactory S W) (service : SessionService S W) where
    Step-Owes :
        {s next : Server S W} {id : Option (Option Number)}
        → Step factory service s id next
        → Owes (owed_by p id) s next
    unfolding tally shutdown
    Step-Owes idle = record { at_most = omega arith; exactly = λ up. (up, omega arith) }
    Step-Owes (stopped down) = record { at_most = omega arith; exactly = λ up. cc }
    Step-Owes ended = record { at_most = omega arith; exactly = λ up. cc }
    Step-Owes {s = s} wrote = write_frame-Owes s
    Step-Owes (completed i t o w h) = complete_task-Owes i t o w _ h
    Step-Owes (turned up turn) =
        let record { gate = gate; owed = owed } = Turn-Charges turn up in
        record { at_most = omega (arith, owed); exactly = λ _. (up, owed) }

    module _ (serde : Serde) where
      -- However a run is scheduled, the answers with ids in any given set, counting those written,
      -- those queued and the tasks that still owe one, are at most those asked for before and during
      -- the run: nothing is answered twice, and nothing that was not asked.
      pub tally-run_le :
          (events : List (Event W)) (s : Server S W)
          → tally p (run factory service serde events s) ≤ asked p events + tally p s
      unfolding run asked
      tally-run_le [] s = omega arith
      tally-run_le (e ∷ events) s = omega (
        arith,
        tally-run_le events (step factory service serde e s),
        Owes.at_most (Step-Owes (step-Step factory service serde s e)),
      )

      tally-run_open :
          (events : List (Event W)) (s : Server S W)
          → (run factory service serde events s).sink.is_open ≡ true
          → (s.sink.is_open ≡ true)
            × (tally p (run factory service serde events s) ≡ asked p events + tally p s)
      unfolding run asked
      tally-run_open [] s up = (up, omega arith)
      tally-run_open (e ∷ events) s up =
          let (open_next, rest) = tally-run_open events (step factory service serde e s) up in
          let (open_now, first) =
            Owes.exactly (Step-Owes (step-Step factory service serde s e)) open_next in
          (open_now, omega (arith, rest, first))

      -- However a run is scheduled, as long as the server has not shut down, the answers with ids in
      -- any given set, counting those written, those queued and the tasks that still owe one, are
      -- exactly those from before the run and those asked for in it: none is lost or given twice.
      pub tally-run :
          (events : List (Event W)) (s : Server S W)
          → (run factory service serde events s).sink.is_open ≡ true
          → tally p (run factory service serde events s) ≡ asked p events + tally p s
      tally-run events s up = (tally-run_open events s up).1
