-- ===== src/Server/Requested.antt =====
-- The methods of the tasks in src/server.rs are those of the messages received.
use redis_driver_for_per_wor.Prelude.{
  ℕ, suc, zero, ◌≡◌, subst, Bool, true, false, List, [], ◌∷◌, Option, none, some, String,
  if◌then◌else◌, inl, inr, Option-cases, Result-cases, All, All-append, get_elem?, arith,
}
use redis_driver_for_per_wor.Assoc.{lookup}
use redis_driver_for_per_wor.Json.{Json, Members, Number, as_object, get}
use redis_driver_for_per_wor.Service.Handlers.{SessionFactory, SessionService, Serde}
use redis_driver_for_per_wor.Server.{Server, Task}
use redis_driver_for_per_wor.Server.Dispatch.{
  decode_params, handle_build_target, handle_cancel, handle_close, handle_identified,
  handle_initialize, handle_object, handle_open, handle_request, object_params, request_id,
  session_id, spawn_session_method, text_member, text_or_empty,
}
use redis_driver_for_per_wor.Server.Turn.Sound.{RequestId-cases}
use redis_driver_for_per_wor.Server.Schedule.{Event, receive, remove_at}

-- The method that a message names.
abbrev pub method_of : Members → String
method_of obj = text_or_empty (text_member obj "method")

module _ (Q : String → Type 0) where
  -- Every task in flight runs such a method.
  abbrev pub TasksRun : {S : Type 0} → List (Task S) → Type 0
  TasksRun {S} tasks = All (λ (t : Task S). Q t.method) tasks

  -- A message asks for such a method.
  abbrev pub Asks : {W : Type 0} → Event W → Type 0
  Asks (receive (some message)) = elim (as_object message) [
    | none ↦ Unit {0}
    | some obj ↦ Q (method_of obj)
  ]
  Asks _ = Unit

  module _ {S : Type 0} where
    pub TasksRun-remove_at :
        (i : ℕ) (tasks : List (Task S)) → TasksRun tasks → TasksRun (remove_at i tasks)
    TasksRun-remove_at zero [] h = tt
    TasksRun-remove_at (suc i) [] h = tt
    TasksRun-remove_at zero (t ∷ tasks) h = h.1
    TasksRun-remove_at (suc i) (t ∷ tasks) h = (h.0, TasksRun-remove_at i tasks h.1)

    pub TasksRun-get_elem? :
        (i : ℕ) (tasks : List (Task S)) (t : Task S)
        → get_elem? tasks i ≡ some t
        → TasksRun tasks
        → Q t.method
    TasksRun-get_elem? i [] t found h = cc
    TasksRun-get_elem? zero (u ∷ tasks) t found h =
        let e : u ≡ t = ground arith in subst (λ (t : Task S). Q t.method) e h.0
    TasksRun-get_elem? (suc i) (u ∷ tasks) t found h = TasksRun-get_elem? i tasks t found h.1

  module _ {S W : Type 0} where
    either :
        (b : Bool) (x y : Server S W)
        → TasksRun x.tasks
        → TasksRun y.tasks
        → TasksRun (Server.tasks (if b then x else y))
    either true x y p q = p
    either false x y p q = q

  module _ {S W : Type 0} (factory : SessionFactory S W) (service : SessionService S W)
      (serde : Serde) (s : Server S W) (h : TasksRun s.tasks) where
    handle_cancel-TasksRun :
        (params : Option Json) → TasksRun (handle_cancel factory service serde params s).tasks
    unfolding handle_cancel
    handle_cancel-TasksRun none = h
    handle_cancel-TasksRun (some v) = elim (Option-cases (Serde.cancel_request serde v)) [
      | inl bad ↦ rw (handle_cancel, bad) h
      | inr (request, good) ↦ elim (Option-cases (lookup request.id s.registry)) [
        | inl gone ↦ rw (handle_cancel, good, gone) h
        | inr (token, found) ↦ rw (handle_cancel, good, found) h
      ]
    ]

    handle_build_target-TasksRun :
        (params : Option Json) (id : Number)
        → TasksRun (handle_build_target factory service serde params id s).tasks
    unfolding handle_build_target
    handle_build_target-TasksRun params id =
        elim (Result-cases (decode_params (Serde.form_values serde) params)) [
          | inl (values, good) ↦ rw (handle_build_target, good) h
          | inr (e, bad) ↦ rw (handle_build_target, bad) h
        ]

    handle_initialize-TasksRun :
        (params : Option Json) (id : Number)
        → TasksRun (handle_initialize factory service serde params id s).tasks
    unfolding handle_initialize
    handle_initialize-TasksRun none id = h
    handle_initialize-TasksRun (some v) id = elim (Option-cases (Serde.initialize_params serde v)) [
      | inl bad ↦ rw (handle_initialize, bad) h
      | inr (version, good) ↦ rw (handle_initialize, good) (search (either, h))
    ]

    handle_open-TasksRun :
        (params : Option Json) (id : Number)
        → TasksRun (handle_open factory service serde params id s).tasks
    unfolding handle_open
    handle_open-TasksRun params id =
        elim (Result-cases (decode_params (Serde.open_request serde) params)) [
          | inr (e, bad) ↦ rw (handle_open, bad) h
          | inl (request, good) ↦
              elim (Result-cases (factory.open_session request.target s.world).0) [
                | inl (opened, e) ↦ rw (handle_open, good, e) h
                | inr (failure, e) ↦ rw (handle_open, good, e) h
              ]
        ]

    handle_close-TasksRun :
        (params : Option Json) (id : Number)
        → TasksRun (handle_close factory service serde params id s).tasks
    unfolding handle_close
    handle_close-TasksRun params id =
        elim (Result-cases (decode_params (Serde.close_request serde) params)) [
          | inr (e, bad) ↦ rw (handle_close, bad) h
          | inl (request, good) ↦ elim (Option-cases (lookup request.session_id s.sessions)) [
            | inl gone ↦ rw (handle_close, good, gone) h
            | inr (session, found) ↦ rw (handle_close, good, found) h
          ]
        ]

    spawn_session_method-TasksRun :
        (method : String) (params : Option Json) (id : Number)
        → Q method
        → TasksRun (spawn_session_method factory service serde method params id s).tasks
    unfolding spawn_session_method
    spawn_session_method-TasksRun method params id q = elim (Option-cases (object_params params)) [
      | inl bad ↦ rw (spawn_session_method, bad) h
      | inr (obj, good) ↦ elim (Option-cases (session_id obj)) [
        | inl missing ↦ rw (spawn_session_method, good, missing) h
        | inr (n, named) ↦ elim (Option-cases (lookup n s.sessions)) [
          | inl gone ↦ rw (spawn_session_method, good, named, gone) h
          | inr (session, found) ↦
              rw (spawn_session_method, good, named, found)
                (All-append (λ (t : Task S). Q t.method) s.tasks _ h (q, tt))
        ]
      ]
    ]

    handle_request-TasksRun :
        (method : String) (params : Option Json) (id : Number)
        → Q method
        → TasksRun (handle_request factory service serde method params id s).tasks
    unfolding handle_request
    handle_request-TasksRun method params id q =
        search
          (
            either, handle_build_target-TasksRun, handle_open-TasksRun, handle_close-TasksRun,
            spawn_session_method-TasksRun,
          )
          depth 14

    handle_identified-TasksRun :
        (method : String) (params : Option Json) (id : Number)
        → Q method
        → TasksRun (handle_identified factory service serde method params id s).tasks
    unfolding handle_identified
    handle_identified-TasksRun method params id q =
        search (either, handle_request-TasksRun, handle_initialize-TasksRun)

    pub handle_object-TasksRun :
        (obj : Members)
        → Q (method_of obj)
        → TasksRun (handle_object factory service serde obj s).tasks
    unfolding handle_object
    handle_object-TasksRun obj q = elim (RequestId-cases (request_id (get obj "id"))) [
      | inl missing ↦ rw (handle_object, missing) (search (either, handle_cancel-TasksRun))
      | inr (inl (id, found)) ↦
          rw (handle_object, found) (search (either, handle_identified-TasksRun))
      | inr (inr bad) ↦ rw (handle_object, bad) h
    ]
