-- ===== src/Redis/Handlers/Readers.antt =====
-- The reading handlers of src/redis_service.rs: what they keep.
use redis_driver_for_per_wor.Prelude.{
  ℕ, ◌-◌, ◌≡◌, refl, ℤ, Bool, true, false, not, List, [], ◌∷◌, String, ◌==◌, Result, inl, inr,
  Bool-cases,
}
use redis_driver_for_per_wor.Dto.Request.{
  BrowseTableRequest, StatementRequest, WorkspaceViewRequest,
}
use redis_driver_for_per_wor.Dto.Result.{QueryResult}
use redis_driver_for_per_wor.Reply.Value.{Reply}
use redis_driver_for_per_wor.Service.Errors.{ServiceError}
use redis_driver_for_per_wor.Statement.{Statement, parse_statement, redis, select_keys}
use redis_driver_for_per_wor.Statement.Verbs.{is_read_only}
use redis_driver_for_per_wor.Text.{eq_ignore_case, upper}
use redis_driver_for_per_wor.Redis.{Crate, RedisError, RedisService, World}
use redis_driver_for_per_wor.Redis.Action.{attempt, lift, reject_if}
use redis_driver_for_per_wor.Redis.Handlers.{
  browse_table, execute_read_only, is_schema, list_schema, read_statement, validate, workspace_view,
}
use redis_driver_for_per_wor.Redis.Handlers.Reads.{is_read}
use redis_driver_for_per_wor.Redis.Handlers.Commands.{
  run_select-Keeps, run_tokens-Keeps, timed-Keeps,
}
use redis_driver_for_per_wor.Redis.Keeps.{
  Keeps, attempt-Keeps, lift-Keeps, pure-Keeps, raise-Keeps, >>=-Keeps,
}
use redis_driver_for_per_wor.Redis.Query.{query}
use redis_driver_for_per_wor.Redis.View.{
  Race, collect_fields, race_section, read_section, server_view, view_result,
}

pub reject_if-Keeps :
    {W : Type 0} (P : W → Type 0) (test : Bool) (e : ServiceError) → Keeps P (reject_if test e)
reject_if-Keeps P true e = raise-Keeps (Unit {0}) P e
reject_if-Keeps P false e = pure-Keeps P tt

pub info_IsRead : is_read ("INFO" ∷ []) ≡ true
unfolding is_read_only upper eq_ignore_case
info_IsRead = refl

dbsize_IsRead : is_read ("DBSIZE" ∷ []) ≡ true
unfolding is_read_only upper eq_ignore_case
dbsize_IsRead = refl

module _ {C B : Type 0} (crate : Crate C B) (this : RedisService) (P : World C B → Type 0) where
  -- Every handler that only reads.
  pub record ReadersKeep : Type 0 where
    pub executes_read_only :
        (fuel : ℕ) (r : StatementRequest) → Keeps P (execute_read_only crate this fuel r)
    pub validates : (r : StatementRequest) → Keeps P (validate crate this r)
    pub lists : Keeps P (list_schema crate this)
    pub browses : (fuel : ℕ) (r : BrowseTableRequest) → Keeps P (browse_table crate this fuel r)
    pub views :
        (races : String → Race) (r : WorkspaceViewRequest)
        → Keeps P (workspace_view crate this races r)

-- `P` is kept by every command that is allowed, and reads are.
module _ {C B : Type 0} (crate : Crate C B) (this : RedisService) (P : World C B → Type 0)
    (Allowed : List String → Type 0)
    (reads : (cmd : List String) → is_read cmd ≡ true → Allowed cmd)
    (keeps : (A : Type 0) (f : Reply → Result RedisError A) (cmd : List String)
      → Allowed cmd
      → Keeps P (query crate this f cmd)) where
  read_query :
      (A : Type 0) (f : Reply → Result RedisError A) (cmd : List String)
      → is_read cmd ≡ true
      → Keeps P (query crate this f cmd)
  read_query A f cmd r = keeps A f cmd (reads cmd r)

  read_statement-Keeps :
      (fuel : ℕ) (statement : Statement) → Keeps P (read_statement crate this fuel statement)
  read_statement-Keeps fuel (redis []) = raise-Keeps QueryResult P _
  read_statement-Keeps fuel (redis (verb ∷ arguments)) =
      elim (Bool-cases (is_read_only (upper verb))) [
        | inl allowed ↦ rw allowed (
            run_tokens-Keeps crate this P Allowed reads keeps (verb ∷ arguments)
              (reads (verb ∷ arguments) (rw allowed refl)))
        | inr refused ↦ rw refused (raise-Keeps QueryResult P _)
      ]
  read_statement-Keeps fuel (select_keys offset limit) =
      run_select-Keeps crate this P Allowed reads keeps fuel offset limit

  race_section-Keeps :
      (section : String) (race : Race) → Keeps P (race_section crate this section race)
  race_section-Keeps section Race.replied = read_query String _ ("INFO" ∷ section ∷ []) info_IsRead
  race_section-Keeps section Race.unsent = raise-Keeps String P _
  race_section-Keeps section Race.dropped =
      >>=-Keeps P (attempt (query crate this crate.from_string ("INFO" ∷ section ∷ []))) _
        (attempt-Keeps P (query crate this crate.from_string ("INFO" ∷ section ∷ []))
          (read_query String _ ("INFO" ∷ section ∷ []) info_IsRead))
        (λ answer. raise-Keeps String P _)

  collect_fields-Keeps : (races : String → Race) → Keeps P (collect_fields crate this races)
  unfolding collect_fields read_section
  collect_fields-Keeps races =
      >>=-Keeps P (read_section crate this races "server") _
        (race_section-Keeps "server" (races "server"))
        (λ server.
          >>=-Keeps P (read_section crate this races "memory") _
            (race_section-Keeps "memory" (races "memory"))
            (λ memory.
              >>=-Keeps P (read_section crate this races "keyspace") _
                (race_section-Keeps "keyspace" (races "keyspace")) (λ keyspace. pure-Keeps P _)))

  server_view-Keeps : (races : String → Race) → Keeps P (server_view crate this races)
  unfolding server_view
  server_view-Keeps races =
      timed-Keeps crate this P Allowed reads keeps (collect_fields crate this races)
        (λ start end fields. view_result fields (end - start)) (collect_fields-Keeps races)

  pub readers_keep : ReadersKeep crate this P
  unfolding execute_read_only validate list_schema browse_table workspace_view
  readers_keep = record {
    executes_read_only = λ fuel r.
        >>=-Keeps P (lift (parse_statement crate.split r.statement)) _ (lift-Keeps P _)
          (read_statement-Keeps fuel);
    validates = λ r.
        >>=-Keeps P (lift (parse_statement crate.split r.statement)) _ (lift-Keeps P _)
          (λ statement. pure-Keeps P tt);
    lists =
        >>=-Keeps P (query crate this crate.from_i64 ("DBSIZE" ∷ [])) _
          (read_query ℤ _ ("DBSIZE" ∷ []) dbsize_IsRead) (λ dbsize. pure-Keeps P _);
    browses = λ fuel r.
        >>=-Keeps P (reject_if _ _) _ (reject_if-Keeps P _ _)
          (λ u. run_select-Keeps crate this P Allowed reads keeps fuel _ r.options.limit);
    views = λ races r.
        let unknown = not (r.view_id == "server") in
        let scope = is_schema r.target.kind in
        >>=-Keeps P (reject_if unknown _) _ (reject_if-Keeps P unknown _) (λ u.
          >>=-Keeps P (reject_if scope _) _ (reject_if-Keeps P scope _)
            (λ v. server_view-Keeps races));
  }
