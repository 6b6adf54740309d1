-- ===== src/Server/Cancel/Tokens.antt =====
-- Cancellation tokens of src/server.rs: the tasks in flight have distinct ones.
use redis_driver_for_per_wor.Prelude.{
  ℕ, zero, suc, ◌+◌, ◌≤◌, ◌<◌, ◌≡◌, ◌≢◌, refl, List, [], ◌∷◌, ◌++◌, Option, some, arith, inl, inr,
  Bool-cases, List-cases, get_elem?,
}
use redis_driver_for_per_wor.Assoc.{lookup}
use redis_driver_for_per_wor.Json.{Json, Number}
use redis_driver_for_per_wor.Dto.Request.{CancelRequest}
use redis_driver_for_per_wor.Service.Handlers.{SessionFactory, SessionService, Serde}
use redis_driver_for_per_wor.Server.{Server, Task, is_cancelled, new_server}
use redis_driver_for_per_wor.Server.Dispatch.{handle_cancel}
use redis_driver_for_per_wor.Server.Turn.{
  ignored, cancelling, replied, started, opened, not_opened, closed, spawned,
}
use redis_driver_for_per_wor.Server.Steps.{
  Step, idle, stopped, ended, wrote, turned, completed, run_invariant,
}
use redis_driver_for_per_wor.Server.Schedule.{
  Event, run, complete_task, shutdown, write_frame, remove_at,
}

module _ {S : Type 0} where
  -- The tokens rise along the list, from `low` on and below `high`.
  abbrev Rising : ℕ → ℕ → List (Task S) → Type 0
  Rising low high [] = low ≤ high
  Rising low high (t ∷ tasks) = (low ≤ t.token) × Rising (suc t.token) high tasks

  Rising-lower :
      (low lower high : ℕ) (tasks : List (Task S))
      → lower ≤ low
      → Rising low high tasks
      → Rising lower high tasks
  Rising-lower low lower high [] le h = omega arith
  Rising-lower low lower high (t ∷ tasks) le h = (omega arith, h.1)

  Rising-append :
      (low high : ℕ) (tasks : List (Task S)) (t : Task S)
      → t.token ≡ high
      → Rising low high tasks
      → Rising low (high + 1) (tasks ++ t ∷ [])
  Rising-append low high [] t e h = (omega arith, omega arith)
  Rising-append low high (u ∷ tasks) t e h = (h.0, Rising-append (suc u.token) high tasks t e h.1)

  Rising-remove_at :
      (i low high : ℕ) (tasks : List (Task S))
      → Rising low high tasks
      → Rising low high (remove_at i tasks)
  Rising-remove_at zero low high [] h = h
  Rising-remove_at (suc i) low high [] h = h
  Rising-remove_at zero low high (t ∷ tasks) h =
      Rising-lower (suc t.token) low high tasks (omega arith) h.1
  Rising-remove_at (suc i) low high (t ∷ tasks) h =
      (h.0, Rising-remove_at i (suc t.token) high tasks h.1)

  Rising-token :
      (i low high : ℕ) (tasks : List (Task S)) (t : Task S)
      → Rising low high tasks
      → get_elem? tasks i ≡ some t
      → low ≤ t.token
  Rising-token i low high [] t h e = cc
  Rising-token zero low high (u ∷ tasks) t h e = ground arith
  Rising-token (suc i) low high (u ∷ tasks) t h e =
      omega (arith, Rising-token i (suc u.token) high tasks t h.1 e)

  Rising-distinct :
      (i j low high : ℕ) (tasks : List (Task S)) (t u : Task S)
      → Rising low high tasks
      → i < j
      → get_elem? tasks i ≡ some t
      → get_elem? tasks j ≡ some u
      → t.token < u.token
  Rising-distinct i j low high [] t u h lt e f = cc
  Rising-distinct i zero low high (v ∷ tasks) t u h lt e f = absurd (omega arith)
  Rising-distinct zero (suc j) low high (v ∷ tasks) t u h lt e f =
      ground (arith, Rising-token j (suc v.token) high tasks u h.1 f)
  Rising-distinct (suc i) (suc j) low high (v ∷ tasks) t u h lt e f =
      Rising-distinct i j (suc v.token) high tasks t u h.1 (omega arith) e f

module _ {S W : Type 0} where
  abbrev pub InOrder : Server S W → Type 0
  InOrder s = Rising 0 s.next_token s.tasks

  Step-InOrder :
      {factory : SessionFactory S W} {service : SessionService S W} (s next : Server S W)
      (id : Option (Option Number))
      → Step factory service s id next
      → InOrder s
      → InOrder next
  unfolding shutdown complete_task write_frame
  Step-InOrder s next id idle h = h
  Step-InOrder s next id (stopped _) h = h
  Step-InOrder s next id ended h = h
  Step-InOrder s next id wrote h = elim (List-cases s.sink.queue) [
    | inl done ↦ rw (write_frame, done) h
    | inr (r, rest, e) ↦ elim (Bool-cases s.sink.is_open) [
      | inl up ↦ rw (write_frame, e, up) h
      | inr down ↦ rw (write_frame, e, down) h
    ]
  ]
  Step-InOrder s next id (completed i t o w f) h = Rising-remove_at i 0 s.next_token s.tasks h
  Step-InOrder s next id (turned up ignored) h = h
  Step-InOrder s next id (turned up (cancelling k t f)) h = h
  Step-InOrder s next id (turned up (replied r)) h = h
  Step-InOrder s next id (turned up (started r f)) h = h
  Step-InOrder s next id (turned up (not_opened r t e w i f)) h = h
  Step-InOrder s next id (turned up (opened r t f session w i g)) h = h
  Step-InOrder s next id (turned up (closed r n session i f)) h = h
  Step-InOrder s next id (turned up (spawned m rest n session k i f)) h =
      Rising-append 0 s.next_token s.tasks _ refl h

  module _ (factory : SessionFactory S W) (service : SessionService S W) (serde : Serde) where
    -- In every state that a server reaches, a cancel of the request of one task in flight leaves
    -- each other task in flight as it was, cancelled or not.
    pub handle_cancel_other :
        (w : W) (events : List (Event W)) (params : Json) (request : CancelRequest) (i j : ℕ)
        (task other : Task S) (s : Server S W)
        → s ≡ run factory service serde events (new_server w)
        → Serde.cancel_request serde params ≡ some request
        → get_elem? s.tasks i ≡ some task
        → get_elem? s.tasks j ≡ some other
        → i ≢ j
        → lookup request.id s.registry ≡ some task.token
        → is_cancelled other.token (handle_cancel factory service serde (some params) s).cancelled
          ≡ is_cancelled other.token s.cancelled
    unfolding handle_cancel
    handle_cancel_other w events params request i j task other s e d here there apart found =
        let sorted : InOrder s = rw e (
          run_invariant factory service serde InOrder Step-InOrder events (new_server w)
            (omega arith)) in
        rw (handle_cancel, d, found)
          (ground (
            arith,
            Rising-distinct i j 0 s.next_token s.tasks task other sorted,
            Rising-distinct j i 0 s.next_token s.tasks other task sorted,
          ))
