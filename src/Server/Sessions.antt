-- ===== src/Server/Sessions.antt =====
-- Session ids of src/server.rs: issued once, known until closed.
pub mod Lifetime
use redis_driver_for_per_wor.Prelude.{
  ℕ, zero, suc, ◌+◌, ◌%◌, ◌^◌, ◌≤◌, ◌<◌, ◌≡◌, refl, sym, ap, ◌∙◌, subst, Bool, true, false, List,
  [], ◌∷◌, Option, none, some, arith, length, String, inl, inr, Bool-cases, List-cases, eqb,
  eqb_refl, eqb_iff, if◌then◌else◌, Result, ok, err,
}
use redis_driver_for_per_wor.Assoc.{
  Assoc, lookup, insert, remove, lookup-remove, lookup-insert, Below, Below-remove, Below-suc,
  lookup-Below, lookup-lt,
}
use redis_driver_for_per_wor.Dto.Result.{DatabaseInfo}
use redis_driver_for_per_wor.Dto.Request.{OpenRequest, CloseRequest}
use redis_driver_for_per_wor.Json.{Json, Number}
use redis_driver_for_per_wor.Service.Errors.{ServiceError}
use redis_driver_for_per_wor.Protocol.{Response, result_response, err_invalid_params}
use redis_driver_for_per_wor.Service.Handlers.{SessionFactory, SessionService, Serde}
use redis_driver_for_per_wor.Server.{Server, Task, Sink, send}
use redis_driver_for_per_wor.Server.Dispatch.{
  reply, refuse, handle_open, handle_close, decode_params,
}
use redis_driver_for_per_wor.Server.Turn.{
  Turn, ignored, cancelling, replied, started, opened, not_opened, closed, spawned, opened_session,
  closed_session,
}
use redis_driver_for_per_wor.Server.Steps.{
  Step, idle, stopped, ended, wrote, turned, completed, step-Step,
}
use redis_driver_for_per_wor.Server.Schedule.{
  Event, step, run, complete_task, shutdown, write_frame,
}
use redis_driver_for_per_wor.Server.Turn.Sound.{handle_object-Turn}

Below-insert : {S : Type 0} (n : ℕ) (v : S) (m : Assoc S) → Below n m → Below (n + 1) (insert n v m)
unfolding insert
Below-insert n v m h = (omega arith, Below-suc n (n + 1) _ (omega arith) (Below-remove n n m h))

pub no_wrap : (n : ℕ) → n + 1 < 2 ^ 64 → (n + 1) % 2 ^ 64 ≡ n + 1
no_wrap n h = omega (arith, h)

module _ {S W : Type 0} where
  -- Every live session has an id that was issued before the next one.
  abbrev pub IssuedBelow : Server S W → Type 0
  IssuedBelow s = Below s.next_session_id s.sessions

  -- `n` was issued, and no session has it any more.
  pub record Retired (n : ℕ) (s : Server S W) : Type 0 where
    pub issued : n < s.next_session_id
    pub gone : lookup n s.sessions ≡ none

  -- What one step may do to the session table, while ids are left.
  pub record Keeps (s next : Server S W) : Type 0 where
    pub little : next.next_session_id ≤ s.next_session_id + 1
    pub grows : s.next_session_id ≤ next.next_session_id
    pub below : IssuedBelow s → IssuedBelow next
    pub retired : (n : ℕ) → Retired n s → Retired n next

  same_table :
      (s next : Server S W)
      → next.next_session_id ≡ s.next_session_id
      → next.sessions ≡ s.sessions
      → Keeps s next
  same_table s next e f = record {
    little = omega arith;
    grows = omega arith;
    below = λ h. rw (e, f) h;
    retired = λ n r. record { issued = omega (arith, r.issued); gone = rw f r.gone };
  }

  pub reply-Keeps : {s base : Server S W} (r : Response) → Keeps s base → Keeps s (reply r base)
  reply-Keeps r k = record {
    little = k.little;
    grows = k.grows;
    below = k.below;
    retired =
        λ n q. let after = k.retired n q in record { issued = after.issued; gone = after.gone };
  }

  write_frame-table : (s : Server S W) → Keeps s (write_frame s)
  unfolding write_frame
  write_frame-table s = elim (List-cases s.sink.queue) [
    | inl done ↦ same_table s _ (rw (write_frame, done) refl) (rw (write_frame, done) refl)
    | inr (r, rest, e) ↦ elim (Bool-cases s.sink.is_open) [
      | inl up ↦ same_table s _ (rw (write_frame, e, up) refl) (rw (write_frame, e, up) refl)
      | inr down ↦ same_table s _ (rw (write_frame, e, down) refl) (rw (write_frame, e, down) refl)
    ]
  ]

  pub opened-Keeps :
      (session : S) (w : W) (s : Server S W)
      → s.next_session_id + 1 < 2 ^ 64
      → Keeps s (opened_session session w s)
  opened-Keeps session w s h = record {
    little = omega (arith, no_wrap s.next_session_id h);
    grows = omega (arith, no_wrap s.next_session_id h);
    below =
        λ b. rw (no_wrap s.next_session_id h) (Below-insert s.next_session_id session s.sessions b);
    retired = λ n r. record {
      issued = omega (arith, no_wrap s.next_session_id h, r.issued);
      gone = ground (arith, lookup-insert s.next_session_id n session s.sessions, r.issued, r.gone);
    };
  }

  closed-Keeps :
      (service : SessionService S W) (n : ℕ) (session : S) (s : Server S W)
      → Keeps s (closed_session service n session s)
  closed-Keeps service n session s = record {
    little = omega arith;
    grows = omega arith;
    below = Below-remove s.next_session_id n s.sessions;
    retired = λ k r. record {
      issued = r.issued;
      gone = ground (arith, lookup-remove n k s.sessions, r.gone);
    };
  }

  module _ {factory : SessionFactory S W} {service : SessionService S W} where
    Step-Keeps :
        {s next : Server S W} {id : Option (Option Number)}
        → Step factory service s id next
        → s.next_session_id + 1 < 2 ^ 64
        → Keeps s next
    unfolding complete_task shutdown
    Step-Keeps idle h = same_table _ _ refl refl
    Step-Keeps (stopped down) h = same_table _ _ refl refl
    Step-Keeps ended h = same_table _ _ refl refl
    Step-Keeps wrote h = write_frame-table _
    Step-Keeps (completed i t o w f) h = same_table _ _ refl refl
    Step-Keeps (turned up ignored) h = same_table _ _ refl refl
    Step-Keeps (turned up (cancelling k token f)) h = same_table _ _ refl refl
    Step-Keeps (turned up (replied r)) h = same_table _ _ refl refl
    Step-Keeps (turned up (started r f)) h = same_table _ _ refl refl
    Step-Keeps (turned up (not_opened r t e w i f)) h = same_table _ _ refl refl
    Step-Keeps {s = s} (turned up (opened r t f session w i g)) h =
        reply-Keeps r (opened-Keeps session w s h)
    Step-Keeps {s = s} (turned up (closed r n session i f)) h =
        reply-Keeps r (closed-Keeps service n session s)
    Step-Keeps (turned up (spawned m rest n session id i f)) h = same_table _ _ refl refl

  module _ (factory : SessionFactory S W) (service : SessionService S W) (serde : Serde) where
    -- What one step keeps of the table, runs keep that do not exhaust the ids.
    pub run_table :
        (events : List (Event W)) (s : Server S W)
        → s.next_session_id + length events < 2 ^ 64
        → (IssuedBelow s → IssuedBelow (run factory service serde events s))
          × ((n : ℕ) → Retired n s → Retired n (run factory service serde events s))
    unfolding run
    run_table [] s h = ((λ b. b), λ n r. r)
    run_table (e ∷ events) s h =
        let one = Step-Keeps (step-Step factory service serde s e) (omega (arith, h)) in
        let rest =
          run_table events (step factory service serde e s) (omega (arith, h, one.little)) in
        ((λ b. rest.0 (one.below b)), λ n r. rest.1 n (one.retired n r))

    -- A run never takes an id back, and issues at most one for an event.
    pub run_issued :
        (events : List (Event W)) (s : Server S W)
        → s.next_session_id + length events < 2 ^ 64
        → let later = run factory service serde events s in
          (s.next_session_id ≤ later.next_session_id)
          × (later.next_session_id ≤ s.next_session_id + length events)
    unfolding run
    run_issued [] s h = (omega arith, omega arith)
    run_issued (e ∷ events) s h =
        let one = Step-Keeps (step-Step factory service serde s e) (omega (arith, h)) in
        let rest =
          run_issued events (step factory service serde e s) (omega (arith, h, one.little)) in
        (omega (arith, rest.0, one.grows), omega (arith, rest.1, one.little))
