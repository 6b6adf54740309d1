-- ===== src/Redis.antt =====
-- src/redis_service.rs: a session on the redis crate. The crate and the server behind it are
-- parameters; `C` is a connection and `B` the state of the server with its clock.
pub mod Action
pub mod Errors
pub mod Query
pub mod Open
pub mod Gives
pub mod Chain
pub mod Ends
pub mod Keeps
pub mod Guidance
pub mod Previews
pub mod Browse
pub mod Script
pub mod Rows
pub mod View
pub mod Target
pub mod Handlers
pub mod Service
use redis_driver_for_per_wor.Prelude.{
  ℕ, ℤ, Bool, true, false, List, [], Option, none, some, String, Result,
}
use redis_driver_for_per_wor.Assoc.{Assoc, lookup}
use redis_driver_for_per_wor.Reply.Value.{Reply, Printers}

-- The kinds of `redis::ErrorKind` that the source names, and any other.
pub data RedisErrorKind : Type 0 where
  authentication_failed io invalid_client_config other_kind : RedisErrorKind

-- What the source reads of a `redis::RedisError`; `text` is what it displays.
pub record RedisError : Type 0 where
  pub kind : RedisErrorKind
  pub code : Option String
  pub text : String

-- What the session calls of other packages: the redis crate (a command by its arguments, a script by
-- its text, key and arguments, and the conversions of replies), `Instant::now` in nanoseconds,
-- `String::from_utf8`, the debug text of a reply, and shell_words.
pub record Crate (C B : Type 0) : Type 0 where
  pub query_async : C → List String → B → Result RedisError Reply × B
  pub invoke_async : C → String → String → List String → B → Result RedisError ℤ × B
  pub from_string : Reply → Result RedisError String
  pub from_i64 : Reply → Result RedisError ℤ
  pub from_bytes : Reply → Result RedisError (List ℕ)
  pub now : B → ℕ
  pub from_utf8 : List ℕ → Option String
  pub debug : Reply → String
  pub quote : String → String
  pub split : String → Result String (List String)
  pub printers : Printers

-- What the clones of a `RedisService` share: the guarded connection and the flag.
pub record Slot (C : Type 0) : Type 0 where
  pub conn : Option C
  pub closed : Bool

-- A `RedisService`: where its shared part is, and its database.
pub record RedisService : Type 0 where
  pub slot : ℕ
  pub database : ℤ

pub record World (C B : Type 0) : Type 0 where
  pub slots : Assoc (Slot C)
  pub next_slot : ℕ
  pub backend : B

-- The shared part of a service; one that was never made has no connection.
abbrev slot_or_closed : {C : Type 0} → Option (Slot C) → Slot C
slot_or_closed none = record { conn = none; closed = true }
slot_or_closed (some slot) = slot

unfoldable pub slot_of : {C B : Type 0} → RedisService → World C B → Slot C
slot_of this w = slot_or_closed (lookup this.slot w.slots)
