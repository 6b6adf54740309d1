-- ===== src/Server/Turn/Sound.antt =====
-- `handle_object` of src/server.rs makes one of the turns of the relation.
use redis_driver_for_per_wor.Prelude.{
  ◌≡◌, refl, Bool, true, false, ◌⊎◌, Option, none, some, if◌then◌else◌, String, inl, inr,
  Option-cases, Result-cases,
}
use redis_driver_for_per_wor.Json.{Json, Number, Members, get}
use redis_driver_for_per_wor.Assoc.{lookup}
use redis_driver_for_per_wor.Service.Handlers.{SessionFactory, SessionService, Serde}
use redis_driver_for_per_wor.Server.{Server}
use redis_driver_for_per_wor.Server.Dispatch.{
  RequestId, absent, integer, invalid, request_id, handle_cancel, handle_initialize,
  handle_build_target, handle_open, handle_close, spawn_session_method, handle_request,
  handle_identified, handle_object, decode_params, object_params, session_id,
}
use redis_driver_for_per_wor.Server.Turn.{
  Turn, ignored, cancelling, replied, started, opened, not_opened, closed, spawned, answer_id,
}

pub RequestId-cases :
    (r : RequestId) → (r ≡ absent) ⊎ ((id : Number) × (r ≡ integer id)) ⊎ (r ≡ invalid)
RequestId-cases absent = inl refl
RequestId-cases (integer id) = inr (inl (id, refl))
RequestId-cases invalid = inr (inr refl)

module _ {S W : Type 0} {factory : SessionFactory S W} {service : SessionService S W} where
  either :
      {s x y : Server S W} {id : Option (Option Number)} (b : Bool)
      → (b ≡ true → Turn factory service s id x)
      → (b ≡ false → Turn factory service s id y)
      → Turn factory service s id (if b then x else y)
  either true h k = h refl
  either false h k = k refl

  module _ (serde : Serde) (s : Server S W) where
    handle_cancel-Turn :
        (params : Option Json)
        → Turn factory service s none (handle_cancel factory service serde params s)
    unfolding handle_cancel
    handle_cancel-Turn none = ignored
    handle_cancel-Turn (some v) = elim (Option-cases (Serde.cancel_request serde v)) [
      | inl bad ↦ rw (handle_cancel, bad) ignored
      | inr (request, good) ↦ elim (Option-cases (lookup request.id s.registry)) [
        | inl gone ↦ rw (handle_cancel, good, gone) ignored
        | inr (token, found) ↦ rw (handle_cancel, good, found) (cancelling request.id token found)
      ]
    ]

    handle_build_target-Turn :
        (params : Option Json) (id : Number)
        → Turn factory service s
            (some (some id))
            (handle_build_target factory service serde params id s)
    unfolding handle_build_target
    handle_build_target-Turn params id =
        elim (Result-cases (decode_params (Serde.form_values serde) params)) [
          | inl (values, good) ↦ rw (handle_build_target, good) (replied _)
          | inr (e, bad) ↦ rw (handle_build_target, bad) (replied _)
        ]

    handle_initialize-Turn :
        (params : Option Json) (id : Number)
        → s.initialized ≡ false
        → Turn factory service s
            (some (some id))
            (handle_initialize factory service serde params id s)
    unfolding handle_initialize
    handle_initialize-Turn none id h = replied _
    handle_initialize-Turn (some v) id h = elim (Option-cases (Serde.initialize_params serde v)) [
      | inl bad ↦ rw (handle_initialize, bad) (replied _)
      | inr (version, good) ↦ rw (handle_initialize, good) (search (either, started, replied))
    ]

    module _ (up : s.initialized ≡ true) where
      handle_open-Turn :
          (params : Option Json) (id : Number)
          → Turn factory service s (some (some id)) (handle_open factory service serde params id s)
      unfolding handle_open
      handle_open-Turn params id =
          elim (Result-cases (decode_params (Serde.open_request serde) params)) [
            | inr (e, bad) ↦ rw (handle_open, bad) (replied _)
            | inl (request, good) ↦
                elim (Result-cases (factory.open_session request.target s.world).0) [
                  | inl ((info, session), e) ↦
                      rw (handle_open, good, e)
                        (opened _ request.target info session _ up
                          (λ i. (e i, (factory.open_session request.target s.world).1)))
                  | inr (failure, e) ↦
                      rw (handle_open, good, e)
                        (not_opened _ request.target failure _ up
                          (λ i. (e i, (factory.open_session request.target s.world).1)))
                ]
          ]

      handle_close-Turn :
          (params : Option Json) (id : Number)
          → Turn factory service s (some (some id)) (handle_close factory service serde params id s)
      unfolding handle_close
      handle_close-Turn params id =
          elim (Result-cases (decode_params (Serde.close_request serde) params)) [
            | inr (e, bad) ↦ rw (handle_close, bad) (replied _)
            | inl (request, good) ↦ elim (Option-cases (lookup request.session_id s.sessions)) [
              | inl gone ↦ rw (handle_close, good, gone) (replied _)
              | inr (session, found) ↦
                  rw (handle_close, good, found) (closed _ request.session_id session up found)
            ]
          ]

      spawn_session_method-Turn :
          (method : String) (params : Option Json) (id : Number)
          → Turn factory service s
              (some (some id))
              (spawn_session_method factory service serde method params id s)
      unfolding spawn_session_method
      spawn_session_method-Turn method params id = elim (Option-cases (object_params params)) [
        | inl bad ↦ rw (spawn_session_method, bad) (replied _)
        | inr (obj, good) ↦ elim (Option-cases (session_id obj)) [
          | inl missing ↦ rw (spawn_session_method, good, missing) (replied _)
          | inr (n, named) ↦ elim (Option-cases (lookup n s.sessions)) [
            | inl gone ↦ rw (spawn_session_method, good, named, gone) (replied _)
            | inr (session, found) ↦
                rw (spawn_session_method, good, named, found)
                  (spawned method _ n session id up found)
          ]
        ]
      ]

      handle_request-Turn :
          (method : String) (params : Option Json) (id : Number)
          → Turn factory service s
              (some (some id))
              (handle_request factory service serde method params id s)
      unfolding handle_request
      handle_request-Turn method params id =
          search
            (
              either, replied, handle_build_target-Turn, handle_open-Turn, handle_close-Turn,
              spawn_session_method-Turn,
            )
            depth 12

    handle_identified-Turn :
        (method : String) (params : Option Json) (id : Number)
        → Turn factory service s
            (some (some id))
            (handle_identified factory service serde method params id s)
    unfolding handle_identified
    handle_identified-Turn method params id =
        search (either, replied, handle_request-Turn, handle_initialize-Turn)

    -- Every message that is an object makes one of the turns, with the answer that its id asks for.
    pub handle_object-Turn :
        (obj : Members)
        → Turn factory service s
            (answer_id (request_id (get obj "id")))
            (handle_object factory service serde obj s)
    unfolding handle_object
    handle_object-Turn obj = elim (RequestId-cases (request_id (get obj "id"))) [
      | inl missing ↦ rw (handle_object, missing) (search (either, ignored, handle_cancel-Turn))
      | inr (inl (id, found)) ↦
          rw (handle_object, found) (search (either, replied, handle_identified-Turn))
      | inr (inr bad) ↦ rw (handle_object, bad) (replied _)
    ]
