-- ===== src/Redis/Handlers/Slots.antt =====
-- The handlers of src/redis_service.rs act on the server alone: what they keep of the sessions.
use redis_driver_for_per_wor.Prelude.{
  ℕ, ℤ, List, [], ◌∷◌, Option, none, some, String, ◌==◌, Result, inl, inr, Bool-cases, Option-cases,
}
use redis_driver_for_per_wor.Dto.Request.{StatementRequest}
use redis_driver_for_per_wor.Dto.Result.{QueryResult}
use redis_driver_for_per_wor.Dto.Write.{RowWriteRequest}
use redis_driver_for_per_wor.Reply.Value.{Reply}
use redis_driver_for_per_wor.RowWrite.{RowWrite, delete, update, parse_row_write}
use redis_driver_for_per_wor.Statement.{Statement, parse_statement, redis, select_keys}
use redis_driver_for_per_wor.Redis.{Crate, RedisError, RedisService, World, slot_of}
use redis_driver_for_per_wor.Redis.Action.{lift, reject_if}
use redis_driver_for_per_wor.Redis.Browse.{run_select}
use redis_driver_for_per_wor.Redis.Handlers.{
  apply_write, execute, execute_statement, row_write, run_tokens,
}
use redis_driver_for_per_wor.Redis.Handlers.Readers.{ReadersKeep, readers_keep, reject_if-Keeps}
use redis_driver_for_per_wor.Redis.Handlers.Commands.{
  run_command-Keeps, run_select-Keeps, run_tokens-Keeps,
}
use redis_driver_for_per_wor.Redis.Keeps.{Keeps, lift-Keeps, pure-Keeps, raise-Keeps, >>=-Keeps}
use redis_driver_for_per_wor.Redis.Query.{query, run_command, with_connection}
use redis_driver_for_per_wor.Redis.Rows.{
  checked_destination, current_of, delete_row, editable, expected_value, free_destination,
  insert_row, invoke, script_args, unwrap_or, update_row, write_update,
}

-- `P` does not look at the server.
module _ {C B : Type 0} (crate : Crate C B) (this : RedisService) (P : World C B → Type 0)
    (apart : (w : World C B) (b : B) → P w → P (record w { backend = b })) where
  with_connection-Keeps :
      (A : Type 0) (call : C → B → Result RedisError A × B)
      → Keeps P (with_connection crate this call)
  unfolding Keeps with_connection
  with_connection-Keeps A call w p = elim (Bool-cases (slot_of this w).closed) [
    | inl shut ↦ rw shut p
    | inr live ↦ elim (Option-cases (slot_of this w).conn) [
      | inl missing ↦ rw (live, missing) p
      | inr (conn, found) ↦ rw (live, found) (apart w (call conn w.backend).1 p)
    ]
  ]

  abbrev Any : List String → Type 0
  Any cmd = Unit

  query-Keeps :
      (A : Type 0) (f : Reply → Result RedisError A) (cmd : List String)
      → Any cmd
      → Keeps P (query crate this f cmd)
  unfolding query
  query-Keeps A f cmd t = with_connection-Keeps A _

  tokens-Keeps : (tokens : List String) → Keeps P (run_tokens crate this tokens)
  tokens-Keeps tokens = run_tokens-Keeps crate this P Any (λ cmd r. tt) query-Keeps tokens tt

  command-Keeps : (tokens : List String) → Keeps P (run_command crate this tokens)
  command-Keeps tokens = run_command-Keeps crate this P Any (λ cmd r. tt) query-Keeps tokens tt

  select-Keeps :
      (fuel offset : ℕ) (limit : Option ℕ) → Keeps P (run_select crate this fuel offset limit)
  select-Keeps = run_select-Keeps crate this P Any (λ cmd r. tt) query-Keeps

  execute_statement-Keeps :
      (fuel : ℕ) (statement : Statement) → Keeps P (execute_statement crate this fuel statement)
  execute_statement-Keeps fuel (redis []) = raise-Keeps QueryResult P _
  execute_statement-Keeps fuel (redis (verb ∷ arguments)) = tokens-Keeps (verb ∷ arguments)
  execute_statement-Keeps fuel (select_keys offset limit) = select-Keeps fuel offset limit

  delete_row-Keeps : (key : String) → Keeps P (delete_row crate this key)
  unfolding delete_row
  delete_row-Keeps key =
      >>=-Keeps P (run_command crate this ("DEL" ∷ key ∷ [])) _ (command-Keeps ("DEL" ∷ key ∷ []))
        (λ found. >>=-Keeps P (lift _) _ (lift-Keeps P _) (λ n. pure-Keeps P _))

  insert_row-Keeps : (key new : String) → Keeps P (insert_row crate this key new)
  unfolding insert_row
  insert_row-Keeps key new =
      >>=-Keeps P (run_command crate this ("SET" ∷ key ∷ new ∷ "NX" ∷ [])) _
        (command-Keeps ("SET" ∷ key ∷ new ∷ "NX" ∷ [])) (λ found. lift-Keeps P _)

  editable-Keeps : (key : String) → Keeps P (editable crate this key)
  unfolding editable
  editable-Keeps key =
      >>=-Keeps P (query crate this crate.from_string ("TYPE" ∷ key ∷ [])) _
        (query-Keeps String _ ("TYPE" ∷ key ∷ []) tt)
        (λ type_. >>=-Keeps P (reject_if _ _) _ (reject_if-Keeps P _ _) (λ u.
          >>=-Keeps P (query crate this _ ("GET" ∷ key ∷ [])) _
            (query-Keeps Reply _ ("GET" ∷ key ∷ []) tt)
            (λ found.
              >>=-Keeps P (lift (current_of crate this key found)) _ (lift-Keeps P _) (λ current.
                >>=-Keeps P (reject_if _ _) _ (reject_if-Keeps P _ _) (λ v. pure-Keeps P _)))))

  expected_value-Keeps :
      (key : String) (new : Option String) → Keeps P (expected_value crate this key new)
  expected_value-Keeps key none = pure-Keeps P none
  expected_value-Keeps key (some new) =
      >>=-Keeps P (editable crate this key) _ (editable-Keeps key) (λ current. pure-Keeps P _)

  free_destination-Keeps :
      (destination : String) → Keeps P (free_destination crate this destination)
  unfolding free_destination
  free_destination-Keeps destination =
      >>=-Keeps P (query crate this crate.from_i64 ("EXISTS" ∷ destination ∷ [])) _
        (query-Keeps ℤ _ ("EXISTS" ∷ destination ∷ []) tt) (λ exists. reject_if-Keeps P _ _)

  checked_destination-Keeps :
      (key destination : String) → Keeps P (checked_destination crate this key destination)
  checked_destination-Keeps key destination = elim (Bool-cases (destination == key)) [
    | inl same ↦ rw same (pure-Keeps P tt)
    | inr other ↦ rw other (free_destination-Keeps destination)
  ]

  invoke-Keeps : (key : String) (args : List String) → Keeps P (invoke crate this key args)
  unfolding invoke
  invoke-Keeps key args = with_connection-Keeps ℤ _

  write_update-Keeps :
      (key : String) (rename_to new expected : Option String)
      → Keeps P (write_update crate this key rename_to new expected)
  write_update-Keeps key rename_to new expected =
      let destination = unwrap_or rename_to key in
      >>=-Keeps P (checked_destination crate this key destination) _
        (checked_destination-Keeps key destination)
        (λ u.
          >>=-Keeps P (invoke crate this key (script_args destination expected new)) _
            (invoke-Keeps key _) (λ affected. pure-Keeps P _))

  update_row-Keeps :
      (key : String) (rename_to new : Option String)
      → Keeps P (update_row crate this key rename_to new)
  unfolding update_row
  update_row-Keeps key rename_to new =
      >>=-Keeps P (expected_value crate this key new) _ (expected_value-Keeps key new)
        (write_update-Keeps key rename_to new)

  apply_write-Keeps : (write : RowWrite) → Keeps P (apply_write crate this write)
  apply_write-Keeps (delete key) =
      >>=-Keeps P (delete_row crate this key) _ (delete_row-Keeps key) (λ done. pure-Keeps P _)
  apply_write-Keeps (update key rename_to value) =
      >>=-Keeps P (update_row crate this key rename_to value) _
        (update_row-Keeps key rename_to value) (λ done. pure-Keeps P _)
  apply_write-Keeps (RowWrite.insert key value) =
      >>=-Keeps P (insert_row crate this key value) _ (insert_row-Keeps key value)
        (λ done. pure-Keeps P _)

  -- Every handler that talks to the server keeps it.
  pub record HandlersKeep : Type 0 where
    pub executes : (fuel : ℕ) (r : StatementRequest) → Keeps P (execute crate this fuel r)
    pub writes : (r : RowWriteRequest) → Keeps P (row_write crate this r)
    pub readers : ReadersKeep crate this P

  pub handlers_keep : HandlersKeep
  unfolding execute row_write
  handlers_keep = record {
    executes = λ fuel r.
        >>=-Keeps P (lift (parse_statement crate.split r.statement)) _ (lift-Keeps P _)
          (execute_statement-Keeps fuel);
    writes = λ r. >>=-Keeps P (lift (parse_row_write r)) _ (lift-Keeps P _) apply_write-Keeps;
    readers = readers_keep crate this P Any (λ cmd r. tt) query-Keeps;
  }
