-- ===== src/Redis/Handlers/Closed.antt =====
-- A closed session of src/redis_service.rs refuses every request that needs the server.
use redis_driver_for_per_wor.Prelude.{
  ℕ, pos, suc, ◌≡◌, refl, Bool, true, false, not, List, [], ◌∷◌, Option, none, some, String, ◌==◌,
  Result, ok, err, inl, inr, Bool-cases, eqb_refl,
}
use redis_driver_for_per_wor.Assoc.{lookup-insert}
use redis_driver_for_per_wor.Dto.Request.{
  BrowseTableRequest, StatementRequest, WorkspaceViewRequest,
}
use redis_driver_for_per_wor.Dto.Write.{RowWriteRequest}
use redis_driver_for_per_wor.Reply.Value.{Reply}
use redis_driver_for_per_wor.RowWrite.{RowWrite, delete, update, parse_row_write}
use redis_driver_for_per_wor.Service.Errors.{ServiceError, canceled, connection}
use redis_driver_for_per_wor.Statement.{Statement, keys_table, parse_statement, redis, select_keys}
use redis_driver_for_per_wor.Statement.Verbs.{is_read_only}
use redis_driver_for_per_wor.Text.{strip_prefix, upper}
use redis_driver_for_per_wor.Redis.{Crate, RedisError, RedisService, World, slot_of}
use redis_driver_for_per_wor.Redis.Action.{Action, lift, reject_if, ◌>>=◌, ◌>>◌}
use redis_driver_for_per_wor.Redis.Browse.{browse_page, run_select, scan_command, scan_keys}
use redis_driver_for_per_wor.Redis.Errors.{contains}
use redis_driver_for_per_wor.Redis.Guidance.{attach_wrongtype_guidance, run_command_guided}
use redis_driver_for_per_wor.Redis.Handlers.{
  apply_write, browse_table, execute, execute_read_only, execute_statement, is_schema, list_schema,
  read_statement, unknown_table, row_write, run_tokens, workspace_view,
}
use redis_driver_for_per_wor.Redis.Open.{IsClosed, with_connection_closed}
use redis_driver_for_per_wor.Redis.Query.{close, convert, query, run_command, value}
use redis_driver_for_per_wor.Redis.Rows.{
  script_args, unwrap_or, write_update, delete_row, editable, free_destination, insert_row, invoke,
  update_row,
}
use redis_driver_for_per_wor.Redis.View.{
  Race, server_view, collect_fields, read_section, race_section,
}

closed : ServiceError
closed = connection "session closed"

-- The action fails, and changes nothing.
abbrev pub Refused : {W A : Type 0} → Action W A → W → Type 0
Refused m w = (e : ServiceError) × (m w ≡ some (err e, w))

>>=-Refused :
    {W A D : Type 0} (m : Action W A) (f : A → Action W D) (w : W)
    → Refused m w
    → Refused (m >>= f) w
>>=-Refused m f w (e, failed) = (e, rw failed refl)

reject_if-Refused :
    {W D : Type 0} (test : Bool) (e : ServiceError) (m : Action W D) (w : W)
    → Refused m w
    → Refused (reject_if test e >> m) w
reject_if-Refused true e m w h = (e, refl)
reject_if-Refused false e m w h = h

lift-Refused :
    {W A D : Type 0} (r : Result ServiceError A) (f : A → Action W D) (w : W)
    → ((a : A) → Refused (f a) w)
    → Refused (lift r >>= f) w
lift-Refused (ok a) f w h = h a
lift-Refused (err e) f w h = (e, refl)

module _ {C B : Type 0} (crate : Crate C B) (this : RedisService) (w : World C B)
    (is_closed : IsClosed this w) where
  query-Refused :
      {A : Type 0} (f : Reply → Result RedisError A) (cmd : List String)
      → query crate this f cmd w ≡ some (err closed, w)
  unfolding query closed
  query-Refused f cmd =
      with_connection_closed crate this (λ c b. convert f (crate.query_async c cmd b)) w is_closed

  run_command_closed :
      (tokens : List String) → run_command crate this tokens w ≡ some (err closed, w)
  unfolding run_command
  run_command_closed tokens = rw (query-Refused value tokens) refl

  run_tokens-Refused : (tokens : List String) → Refused (run_tokens crate this tokens) w
  unfolding run_command_guided attach_wrongtype_guidance closed contains strip_prefix
  run_tokens-Refused tokens = (closed, rw (run_command_closed tokens) refl)

  run_select-Refused :
      (fuel offset : ℕ) (limit : Option ℕ)
      → Refused (run_select crate this (suc fuel) offset limit) w
  unfolding run_select browse_page scan_keys
  run_select-Refused fuel offset limit =
      (closed, rw (query-Refused value (scan_command (pos 0))) refl)

  execute_statement-Refused :
      (fuel : ℕ) (statement : Statement)
      → Refused (execute_statement crate this (suc fuel) statement) w
  execute_statement-Refused fuel (redis []) = (_, refl)
  execute_statement-Refused fuel (redis (verb ∷ arguments)) = run_tokens-Refused (verb ∷ arguments)
  execute_statement-Refused fuel (select_keys offset limit) = run_select-Refused fuel offset limit

  read_statement-Refused :
      (fuel : ℕ) (statement : Statement)
      → Refused (read_statement crate this (suc fuel) statement) w
  read_statement-Refused fuel (redis []) = (_, refl)
  read_statement-Refused fuel (redis (verb ∷ arguments)) =
      elim (Bool-cases (is_read_only (upper verb))) [
        | inl allowed ↦ rw allowed (run_tokens-Refused (verb ∷ arguments))
        | inr refused ↦ rw refused (_, refl)
      ]
  read_statement-Refused fuel (select_keys offset limit) = run_select-Refused fuel offset limit

  delete_row-Refused : (key : String) → Refused (delete_row crate this key) w
  unfolding delete_row
  delete_row-Refused key = (closed, rw (run_command_closed ("DEL" ∷ key ∷ [])) refl)

  insert_row-Refused : (key new : String) → Refused (insert_row crate this key new) w
  unfolding insert_row
  insert_row-Refused key new =
      (closed, rw (run_command_closed ("SET" ∷ key ∷ new ∷ "NX" ∷ [])) refl)

  invoke-Refused : (key : String) (args : List String) → Refused (invoke crate this key args) w
  unfolding invoke
  invoke-Refused key args = (_, with_connection_closed crate this _ w is_closed)

  written-Refused :
      (key : String) (rename_to new expected : Option String)
      → Refused (write_update crate this key rename_to new expected) w
  unfolding free_destination
  written-Refused key rename_to new expected =
      let destination = unwrap_or rename_to key in
      elim (Bool-cases (destination == key)) [
        | inl same ↦ rw same (
            >>=-Refused (invoke crate this key (script_args destination expected new)) _ w
              (invoke-Refused key (script_args destination expected new)))
        | inr other ↦
            rw (other, query-Refused crate.from_i64 ("EXISTS" ∷ destination ∷ [])) (closed, refl)
      ]

  update_row-Refused :
      (key : String) (rename_to new : Option String)
      → Refused (update_row crate this key rename_to new) w
  unfolding update_row editable
  update_row-Refused key rename_to none = written-Refused key rename_to none none
  update_row-Refused key rename_to (some new) =
      (closed, rw (query-Refused crate.from_string ("TYPE" ∷ key ∷ [])) refl)

  apply_write-Refused : (write : RowWrite) → Refused (apply_write crate this write) w
  apply_write-Refused (delete key) =
      >>=-Refused (delete_row crate this key) _ w (delete_row-Refused key)
  apply_write-Refused (update key rename_to value) =
      >>=-Refused (update_row crate this key rename_to value) _ w
        (update_row-Refused key rename_to value)
  apply_write-Refused (RowWrite.insert key value) =
      >>=-Refused (insert_row crate this key value) _ w (insert_row-Refused key value)

  race_section-Refused :
      (section : String) (race : Race) → Refused (race_section crate this section race) w
  race_section-Refused section Race.replied =
      (closed, query-Refused crate.from_string ("INFO" ∷ section ∷ []))
  race_section-Refused section Race.unsent = (_, refl)
  race_section-Refused section Race.dropped = (
    canceled "request canceled",
    rw (query-Refused crate.from_string ("INFO" ∷ section ∷ [])) refl,
  )

  server_view-Refused : (races : String → Race) → Refused (server_view crate this races) w
  unfolding server_view collect_fields read_section
  server_view-Refused races =
      let (e, failed) = race_section-Refused "server" (races "server") in (e, rw failed refl)

-- Every handler that needs the server fails, and changes nothing.
pub record Refuses {C B : Type 0} (crate : Crate C B) (this : RedisService) (w : World C B)
    : Type 0 where
  pub executes : (fuel : ℕ) (r : StatementRequest) → Refused (execute crate this (suc fuel) r) w
  pub reads :
      (fuel : ℕ) (r : StatementRequest) → Refused (execute_read_only crate this (suc fuel) r) w
  pub lists : list_schema crate this w ≡ some (err (connection "session closed"), w)
  pub browses :
      (fuel : ℕ) (r : BrowseTableRequest) → Refused (browse_table crate this (suc fuel) r) w
  pub writes : (r : RowWriteRequest) → Refused (row_write crate this r) w
  pub views :
      (races : String → Race) (r : WorkspaceViewRequest)
      → Refused (workspace_view crate this races r) w

module _ {C B : Type 0} (crate : Crate C B) (this : RedisService) where
  pub closed-Refuses : (w : World C B) → IsClosed this w → Refuses crate this w
  unfolding execute execute_read_only list_schema browse_table row_write workspace_view closed
  closed-Refuses w h = record {
    executes = λ fuel r.
        lift-Refused (parse_statement crate.split r.statement)
          (execute_statement crate this (suc fuel)) w
          (execute_statement-Refused crate this w h fuel);
    reads = λ fuel r.
        lift-Refused (parse_statement crate.split r.statement)
          (read_statement crate this (suc fuel)) w (read_statement-Refused crate this w h fuel);
    lists = rw (query-Refused crate this w h crate.from_i64 ("DBSIZE" ∷ [])) refl;
    browses = λ fuel r.
        reject_if-Refused (not (r.table == keys_table)) (unknown_table r.table) _ w
          (run_select-Refused crate this w h fuel _ r.options.limit);
    writes = λ r.
        lift-Refused (parse_row_write r) (apply_write crate this) w
          (apply_write-Refused crate this w h);
    views = λ races r. reject_if-Refused (not (r.view_id == "server")) _ _ w (
        reject_if-Refused (is_schema r.target.kind) _ _ w
          (server_view-Refused crate this w h races));
  }

  pub close-IsClosed : (locked : Bool) (w : World C B) → IsClosed this (close crate this locked w)
  unfolding close slot_of
  close-IsClosed locked w =
      rw (lookup-insert this.slot this.slot _ w.slots, eqb_refl this.slot) refl

  -- Once a session is closed, whether or not a command was in flight and holds the connection, every
  -- handler that needs the server fails, and leaves the server and all sessions as they are; listing
  -- the schema says that the session is closed.
  pub close-Refuses :
      (locked : Bool) (w : World C B) → Refuses crate this (close crate this locked w)
  close-Refuses locked w = closed-Refuses (close crate this locked w) (close-IsClosed locked w)
