-- ===== src/Server/Sessions/Lifetime.antt =====
-- The life of one session of src/server.rs: opened under a fresh id, closed for good.
use redis_driver_for_per_wor.Prelude.{
  ℕ, ◌+◌, ◌^◌, ◌<◌, ◌≡◌, refl, ap, List, Option, none, some, arith, length, eqb, if◌then◌else◌, ok,
}
use redis_driver_for_per_wor.Assoc.{lookup, lookup-remove, lookup-insert, lookup-Below, lookup-lt}
use redis_driver_for_per_wor.Dto.Result.{DatabaseInfo}
use redis_driver_for_per_wor.Dto.Request.{OpenRequest, CloseRequest}
use redis_driver_for_per_wor.Json.{Json, Number}
use redis_driver_for_per_wor.Protocol.{result_response, err_invalid_params}
use redis_driver_for_per_wor.Service.Handlers.{SessionFactory, SessionService, Serde}
use redis_driver_for_per_wor.Server.{Server, new_server, send}
use redis_driver_for_per_wor.Server.Dispatch.{
  reply, refuse, handle_open, handle_close, decode_params,
}
use redis_driver_for_per_wor.Server.Schedule.{Event, run}
use redis_driver_for_per_wor.Server.Sessions.{
  IssuedBelow, Retired, run_table, run_issued, reply-Keeps, opened-Keeps, no_wrap,
}
use redis_driver_for_per_wor.Server.Turn.{opened_session}

module _ {S W : Type 0} (factory : SessionFactory S W) (service : SessionService S W)
    (serde : Serde) where
  -- What `open` answers with.
  abbrev opened_result : ℕ → DatabaseInfo → Json
  opened_result n info = Serde.open_result serde (record { session_id = n; info = info })

  handle_open-ok :
      (params : Option Json) (id : Number) (s : Server S W) (request : OpenRequest)
      (info : DatabaseInfo) (session : S) (w : W)
      → decode_params (Serde.open_request serde) params ≡ ok request
      → factory.open_session request.target s.world ≡ (ok (info, session), w)
      → handle_open factory service serde params id s
        ≡ reply
            (result_response (some id) (opened_result s.next_session_id info))
            (opened_session session w s)
  unfolding handle_open
  handle_open-ok params id s request info session w d o =
      let moved : (factory.open_session request.target s.world).1 ≡ w = ap (λ p. p.1) o in
      rw (handle_open, d, o, moved) refl

  -- From the start of the server, an open that succeeds after any schedule answers with an id that
  -- no live session has. A second open that succeeds after any further schedule answers with a larger
  -- id, also when the first session was closed in between, and again with one that no live session
  -- has. The first id names the first session once it is open, the second id the second session once
  -- that is open, and every other session keeps the id it had. It needs fewer events than there
  -- are ids.
  pub handle_open_fresh :
      (world : W) (before between : List (Event W)) (params params' : Option Json) (id id' : Number)
      (s later : Server S W) (request request' : OpenRequest) (info info' : DatabaseInfo)
      (session session' : S) (w w' : W)
      → s ≡ run factory service serde before (new_server world)
      → decode_params (Serde.open_request serde) params ≡ ok request
      → factory.open_session request.target s.world ≡ (ok (info, session), w)
      → later ≡ run factory service serde between (handle_open factory service serde params id s)
      → decode_params (Serde.open_request serde) params' ≡ ok request'
      → factory.open_session request'.target later.world ≡ (ok (info', session'), w')
      → length before + length between + 2 < 2 ^ 64
      → (first : ℕ) × (second : ℕ) × (first < second)
        × ((handle_open factory service serde params id s).sink
            ≡ send (result_response (some id) (opened_result first info)) s.sink)
        × ((handle_open factory service serde params' id' later).sink
            ≡ send (result_response (some id') (opened_result second info')) later.sink)
        × (lookup first s.sessions ≡ none)
        × (lookup second later.sessions ≡ none)
        × ((n : ℕ)
            → lookup n (handle_open factory service serde params id s).sessions
              ≡ (if eqb first n then some session else lookup n s.sessions))
        × ((n : ℕ)
            → lookup n (handle_open factory service serde params' id' later).sessions
              ≡ (if eqb second n then some session' else lookup n later.sessions))
  handle_open_fresh world before between params params' id id' s later request request' info info'
        session session' w w' ran d o ran' d' o' few =
      let start : Server S W = new_server world in
      let issued = run_issued factory service serde before start (omega (arith, few)) in
      let same : (run factory service serde before start).next_session_id ≡ s.next_session_id =
        cc ran in
      let below : IssuedBelow s =
        rw ran ((run_table factory service serde before start (omega (arith, few))).0 tt) in
      let next = handle_open factory service serde params id s in
      let opened : next
          ≡ reply (result_response (some id) (opened_result s.next_session_id info))
              (opened_session session w s) =
        handle_open-ok params id s request info session w d o in
      let keeps =
        reply-Keeps (result_response (some id) (opened_result s.next_session_id info))
          (opened-Keeps session w s (omega (arith, few, issued.1, same))) in
      let grown : next.next_session_id ≡ s.next_session_id + 1 =
        rw opened (no_wrap s.next_session_id (omega (arith, few, issued.1, same))) in
      let room : next.next_session_id + length between < 2 ^ 64 =
        omega (arith, grown, few, issued.1, same) in
      let issued' = run_issued factory service serde between next room in
      let same' : (run factory service serde between next).next_session_id ≡ later.next_session_id =
        cc ran' in
      let below' : IssuedBelow later =
        rw ran'
          ((run_table factory service serde between next room).0 (rw opened (keeps.below below))) in
      let opened' = handle_open-ok params' id' later request' info' session' w' d' o' in
      (
        s.next_session_id,
        later.next_session_id,
        omega (arith, issued'.0, same', grown),
        rw opened refl,
        rw opened' refl,
        lookup-Below s.next_session_id s.sessions below,
        lookup-Below later.next_session_id later.sessions below',
        (λ n. rw opened (lookup-insert s.next_session_id n session s.sessions)),
        (λ n. rw opened' (lookup-insert later.next_session_id n session' later.sessions)),
      )

  handle_close_unknown :
      (params : Option Json) (id : Number) (s : Server S W) (request : CloseRequest)
      → decode_params (Serde.close_request serde) params ≡ ok request
      → lookup request.session_id s.sessions ≡ none
      → handle_close factory service serde params id s
        ≡ refuse (some id) err_invalid_params "invalid params: unknown session_id" "perk/v1/close" s
  unfolding handle_close
  handle_close_unknown params id s request d gone = rw (handle_close, d, gone) refl

  -- A close of a live session retires its id for good: whatever is scheduled after it, the id
  -- names no session and a second close is answered as an unknown session. It needs the ids of the
  -- table to have been issued already, and fewer events than there are ids left.
  pub handle_close_forever :
      (params : Option Json) (id again : Number) (s : Server S W) (request : CloseRequest)
      (session : S) (events : List (Event W))
      → decode_params (Serde.close_request serde) params ≡ ok request
      → lookup request.session_id s.sessions ≡ some session
      → IssuedBelow s
      → s.next_session_id + length events < 2 ^ 64
      → let later =
          run factory service serde events (handle_close factory service serde params id s) in
        (lookup request.session_id later.sessions ≡ none)
        × (handle_close factory service serde params again later
            ≡ refuse
                (some again)
                err_invalid_params
                "invalid params: unknown session_id"
                "perk/v1/close"
                later)
  unfolding handle_close
  handle_close_forever params id again s request session events d found b few =
      let next = handle_close factory service serde params id s in
      let retired : Retired request.session_id next =
        rw (handle_close, d, found)
          (record {
            issued = lookup-lt request.session_id s.next_session_id s.sessions session b found;
            gone = ground (arith, lookup-remove request.session_id request.session_id s.sessions);
          }) in
      let same : next.next_session_id ≡ s.next_session_id = rw (handle_close, d, found) refl in
      let later =
        (run_table factory service serde events next (omega (arith, same, few))).1 _ retired in
      (
        later.gone,
        handle_close_unknown params again (run factory service serde events next) request d
            later.gone,
      )
