-- ===== src/Redis/Handlers/Commands.antt =====
-- What the commands of src/redis_service.rs keep, with their guidance, and the browse.
use redis_driver_for_per_wor.Prelude.{
  ℕ, zero, suc, ◌≡◌, ℤ, true, List, [], Option, none, some, String, ◌++◌, ◌-◌, pos, Result, ok, err,
  inl, inr, Bool-cases,
}
use redis_driver_for_per_wor.Text.Sort.{sort}
use redis_driver_for_per_wor.Reply.Value.{Reply}
use redis_driver_for_per_wor.Service.Errors.{ServiceError}
use redis_driver_for_per_wor.Redis.Errors.{contains}
use redis_driver_for_per_wor.Redis.{Crate, RedisError, RedisService, World}
use redis_driver_for_per_wor.Redis.Action.{Action, attempt, gets, pure, ◌>>=◌}
use redis_driver_for_per_wor.Redis.Browse.{
  select_result, browse_page, page_of, preview_rows, run_select, scan_command, scan_keys, is_zero,
  next_cursor, batch_keys,
}
use redis_driver_for_per_wor.Redis.Guidance.{
  guided, inspected, subject, attach_wrongtype_guidance, run_command_guided, wrongtype_guidance,
}
use redis_driver_for_per_wor.Redis.Handlers.{run_tokens}
use redis_driver_for_per_wor.Redis.Keeps.{
  Keeps, attempt-Keeps, gets-Keeps, lift-Keeps, out_of_fuel-Keeps, pure-Keeps, >>=-Keeps,
}
use redis_driver_for_per_wor.Redis.Query.{query, run_command, value}
use redis_driver_for_per_wor.Redis.Handlers.Reads.{
  attempt_then-Keeps, is_read, preview_rows-Keeps, read-Keeps, scan_IsRead, type_IsRead,
}

-- `P` is kept by every command that is allowed, and reads are.
module _ {C B : Type 0} (crate : Crate C B) (this : RedisService) (P : World C B → Type 0)
    (Allowed : List String → Type 0)
    (reads : (cmd : List String) → is_read cmd ≡ true → Allowed cmd)
    (keeps : (A : Type 0) (f : Reply → Result RedisError A) (cmd : List String)
      → Allowed cmd
      → Keeps P (query crate this f cmd)) where
  scan_keys-Keeps :
      (fuel : ℕ) (cursor : ℤ) (keys : List String) → Keeps P (scan_keys crate this fuel cursor keys)
  unfolding scan_keys
  scan_keys-Keeps zero cursor keys = out_of_fuel-Keeps (List String) P
  scan_keys-Keeps (suc fuel) cursor keys =
      >>=-Keeps P (query crate this value (scan_command cursor)) _
        (read-Keeps crate this P Allowed reads keeps _ (scan_command cursor) scan_IsRead)
        (λ found. elim (Bool-cases (is_zero (next_cursor crate found))) [
          | inl ended ↦ rw ended (pure-Keeps P _)
          | inr going ↦
              rw going
                (scan_keys-Keeps fuel (next_cursor crate found) (keys ++ batch_keys crate found))
        ])

  browse_page-Keeps :
      (fuel offset : ℕ) (limit : Option ℕ) → Keeps P (browse_page crate this fuel offset limit)
  unfolding browse_page
  browse_page-Keeps fuel offset limit =
      >>=-Keeps P (scan_keys crate this fuel (pos 0) []) _ (scan_keys-Keeps fuel (pos 0) [])
        (λ keys.
          >>=-Keeps P (preview_rows crate this (page_of offset limit (sort keys))) _
            (preview_rows-Keeps crate this P Allowed reads keeps (page_of offset limit (sort keys)))
            (λ rows. pure-Keeps P _))

  abbrev clock : World C B → ℕ
  clock w = crate.now w.backend

  -- What a timed action does once it has its start.
  abbrev finish : {A D : Type 0} → (ℕ → A → D) → A → Action (World C B) D
  finish result a = gets clock >>= λ end. pure (result end a)

  pub timed-Keeps :
      {A D : Type 0} (m : Action (World C B) A) (result : ℕ → ℕ → A → D)
      → Keeps P m
      → Keeps P (gets clock >>= λ start. m >>= finish (result start))
  timed-Keeps m result h =
      >>=-Keeps P (gets clock) (λ start. m >>= finish (result start)) (gets-Keeps P clock)
        (λ start. >>=-Keeps P m (finish (result start)) h (λ a.
          >>=-Keeps P (gets clock) (λ end. pure (result start end a)) (gets-Keeps P clock)
            (λ end. pure-Keeps P _)))

  pub run_select-Keeps :
      (fuel offset : ℕ) (limit : Option ℕ) → Keeps P (run_select crate this fuel offset limit)
  unfolding run_select
  run_select-Keeps fuel offset limit =
      timed-Keeps (browse_page crate this fuel offset limit)
        (λ start end page. select_result offset limit (end - start) page.0 page.1)
        (browse_page-Keeps fuel offset limit)

  pub run_command-Keeps :
      (tokens : List String) → Allowed tokens → Keeps P (run_command crate this tokens)
  unfolding run_command
  run_command-Keeps tokens allowed =
      timed-Keeps (query crate this value tokens) (λ start end found. (end - start, found))
        (keeps _ value tokens allowed)

  wrongtype_guidance-Keeps : (key : String) → Keeps P (wrongtype_guidance crate this key)
  unfolding wrongtype_guidance
  wrongtype_guidance-Keeps key =
      attempt_then-Keeps crate this P Allowed reads keeps _ _ _ type_IsRead
        (λ actual. pure-Keeps P _)

  inspected-Keeps :
      (e : ServiceError) (about : Option (String × String × String))
      → Keeps P (inspected crate this e about)
  inspected-Keeps e none = pure-Keeps P e
  inspected-Keeps e (some (verb, accepts, key)) =
      >>=-Keeps P (wrongtype_guidance crate this key) _ (wrongtype_guidance-Keeps key)
        (λ advice. pure-Keeps P _)

  attach_wrongtype_guidance-Keeps :
      (tokens : List String) (e : ServiceError)
      → Keeps P (attach_wrongtype_guidance crate this tokens e)
  unfolding attach_wrongtype_guidance
  attach_wrongtype_guidance-Keeps tokens e = elim (Bool-cases (contains e.message "WRONGTYPE")) [
    | inl wrong ↦
        rw (attach_wrongtype_guidance, wrong) (inspected-Keeps e (subject crate this tokens))
    | inr other ↦ rw (attach_wrongtype_guidance, other) (pure-Keeps P e)
  ]

  guided-Keeps :
      (tokens : List String) (outcome : Result ServiceError (ℕ × Reply))
      → Keeps P (guided crate this tokens outcome)
  guided-Keeps tokens (ok done) = pure-Keeps P done
  guided-Keeps tokens (err e) =
      >>=-Keeps P (attach_wrongtype_guidance crate this tokens e) _
        (attach_wrongtype_guidance-Keeps tokens e) (λ advised_error. lift-Keeps P _)

  pub run_tokens-Keeps :
      (tokens : List String) → Allowed tokens → Keeps P (run_tokens crate this tokens)
  unfolding run_command_guided
  run_tokens-Keeps tokens allowed =
      >>=-Keeps P (run_command_guided crate this tokens) _
        (>>=-Keeps P (attempt (run_command crate this tokens)) (guided crate this tokens)
          (attempt-Keeps P (run_command crate this tokens) (run_command-Keeps tokens allowed))
          (guided-Keeps tokens))
        (λ done. pure-Keeps P _)
