-- ===== src/Server/Turn.antt =====
-- What a message can do to the server of src/server.rs: a relation, and that `handle_object` is in it.
pub mod Sound
use redis_driver_for_per_wor.Prelude.{
  ℕ, ◌+◌, ◌%◌, ◌^◌, ◌≡◌, refl, Bool, true, false, ◌⊎◌, [], ◌∷◌, ◌++◌, Option, none, some,
  if◌then◌else◌, ok, err, String, inl, inr, Option-cases, Result-cases,
}
use redis_driver_for_per_wor.Json.{Json, Number, Members, get}
use redis_driver_for_per_wor.Assoc.{lookup, insert, remove}
use redis_driver_for_per_wor.Protocol.{Response}
use redis_driver_for_per_wor.Service.Errors.{ServiceError}
use redis_driver_for_per_wor.Service.Handlers.{SessionFactory, SessionService, Serde}
use redis_driver_for_per_wor.Dto.Result.{DatabaseInfo}
use redis_driver_for_per_wor.Server.{Server, registry_key}
use redis_driver_for_per_wor.Server.Dispatch.{
  RequestId, absent, integer, invalid, request_id, reply, handle_cancel, handle_initialize,
  handle_build_target, handle_open, handle_close, spawn_session_method, handle_request,
  handle_identified, handle_object, decode_params, object_params, session_id,
}

-- The ids of the answers that an `id` member asks for.
abbrev pub answer_id : RequestId → Option (Option Number)
answer_id absent = none
answer_id (integer id) = some (some id)
answer_id invalid = some none

abbrev pub opened_session : {S W : Type 0} → S → W → Server S W → Server S W
opened_session session w s = record s {
  world = w;
  next_session_id = (s.next_session_id + 1) % 2 ^ 64;
  sessions = insert s.next_session_id session s.sessions;
}

abbrev pub closed_session : {S W : Type 0} → SessionService S W → ℕ → S → Server S W → Server S W
closed_session service n session s = record s {
  sessions = remove n s.sessions;
  world = service.close session s.world;
}

abbrev pub spawned_task : {S W : Type 0} → String → Json → S → Number → Server S W → Server S W
spawned_task method rest session id s = record s {
  registry = insert (registry_key id) s.next_token s.registry;
  next_token = s.next_token + 1;
  tasks =
      s.tasks
      ++ record {
        method = method;
        rest = rest;
        session = session;
        token = s.next_token;
        id = id;
        key = registry_key id;
      }
        ∷ [];
}

module _ {S W : Type 0} (factory : SessionFactory S W) (service : SessionService S W) where
  -- One turn of the frame loop: the id of the answer that it owes, if any, and what it leaves.
  pub data Turn (s : Server S W) : Option (Option Number) → Server S W → Type 0 where
    ignored : Turn s none s
    cancelling :
        (k token : ℕ)
        → lookup k s.registry ≡ some token
        → Turn s none (record s { cancelled = token ∷ s.cancelled })
    replied : (r : Response) → Turn s (some r.id) (reply r s)
    started :
        (r : Response)
        → s.initialized ≡ false
        → Turn s (some r.id) (reply r (record s { initialized = true }))
    not_opened :
        (r : Response) (target : String) (e : ServiceError) (w : W)
        → s.initialized ≡ true
        → factory.open_session target s.world ≡ (err e, w)
        → Turn s (some r.id) (reply r (record s { world = w }))
    opened :
        (r : Response) (target : String) (info : DatabaseInfo) (session : S) (w : W)
        → s.initialized ≡ true
        → factory.open_session target s.world ≡ (ok (info, session), w)
        → Turn s (some r.id) (reply r (opened_session session w s))
    closed :
        (r : Response) (n : ℕ) (session : S)
        → s.initialized ≡ true
        → lookup n s.sessions ≡ some session
        → Turn s (some r.id) (reply r (closed_session service n session s))
    spawned :
        (method : String) (rest : Json) (n : ℕ) (session : S) (id : Number)
        → s.initialized ≡ true
        → lookup n s.sessions ≡ some session
        → Turn s (some (some id)) (spawned_task method rest session id s)
