-- ===== src/Server/Capabilities.antt =====
-- The handshake advertisement of src/server.rs.
use redis_driver_for_per_wor.Prelude.{true, List, [], ◌∷◌, none, some, String}
use redis_driver_for_per_wor.Dto.Capabilities.{
  Capabilities, CustomWorkspaceView, FormSpec, QueryCommand, QueryLanguage, TargetPattern,
  WorkspaceCapability, columns, database, table,
}

abbrev command : String → String → String → QueryCommand
command name usage summary = record { name = name; usage = usage; summary = summary }

abbrev pub redis_commands : List QueryCommand
redis_commands =
    command "PING" "PING" "Check that the connection is alive"
    ∷ command "TYPE" "TYPE key" "Get the type of the value stored at key"
    ∷ command "GET" "GET key" "Get the string value stored at key"
    ∷ command "SET" "SET key value [NX|XX] [EX seconds|PX milliseconds]"
        "Set the string value at key, optionally with an expiry"
    ∷ command "DEL" "DEL key [key ...]" "Delete one or more keys"
    ∷ command "EXISTS" "EXISTS key [key ...]" "Count how many of the given keys exist"
    ∷ command "HGETALL" "HGETALL key" "Get all fields and values of the hash at key"
    ∷ command "HGET" "HGET key field" "Get the value of one field of the hash at key"
    ∷ command "HSET" "HSET key field value [field value ...]"
        "Set one or more fields of the hash at key"
    ∷ command "LRANGE" "LRANGE key start stop" "Get a range of elements from the list at key"
    ∷ command "LPUSH" "LPUSH key element [element ...]"
        "Prepend one or more elements to the list at key"
    ∷ command "SMEMBERS" "SMEMBERS key" "Get all members of the set at key"
    ∷ command "SADD" "SADD key member [member ...]" "Add one or more members to the set at key"
    ∷ command "ZRANGE" "ZRANGE key start stop [WITHSCORES]"
        "Get a range of members of the sorted set at key"
    ∷ command "ZADD" "ZADD key score member [score member ...]"
        "Add one or more scored members to the sorted set at key"
    ∷ command "SCAN" "SCAN cursor [MATCH pattern] [COUNT count] [TYPE type]"
        "Incrementally iterate over the keys in the database"
    ∷ command "SELECT" "SELECT index | SELECT * FROM \"keys\" [LIMIT n] [OFFSET m]"
        "Select the logical database, or query the virtual keys table"
    ∷ []

abbrev pub redis_query_language : QueryLanguage
redis_query_language = record {
  name = "Redis";
  editor_label = "Command";
  placeholder = "Enter a Redis command, e.g. GET user:1";
  lexer = none;
  examples =
      some ("PING" ∷ "GET user:1" ∷ "SET user:1 v1 NX" ∷ "SELECT * FROM \"keys\" LIMIT 25" ∷ []);
  commands = some redis_commands;
}

abbrev server_view : CustomWorkspaceView
server_view = record { id = "server"; label = "Server"; scopes = database ∷ table ∷ [] }

abbrev pub redis_workspace : WorkspaceCapability
redis_workspace = record {
  standard_tabs = some (columns ∷ []);
  custom_views = some (server_view ∷ []);
}

abbrev form : FormSpec
form = record {
  prefix = some "redis:";
  fields =
      record {
        key = "host";
        title = "Host";
        kind = 0;
        placeholder = none;
        default = some "127.0.0.1";
        options = none;
        validate = 1;
        error = none;
      }
      ∷ record {
        key = "port";
        title = "Port";
        kind = 0;
        placeholder = none;
        default = some "6379";
        options = none;
        validate = 2;
        error = some "port must be between 1 and 65535";
      }
      ∷ record {
        key = "username";
        title = "Username";
        kind = 0;
        placeholder = none;
        default = none;
        options = none;
        validate = 0;
        error = none;
      }
      ∷ record {
        key = "password";
        title = "Password";
        kind = 1;
        placeholder = none;
        default = none;
        options = none;
        validate = 0;
        error = none;
      }
      ∷ record {
        key = "database";
        title = "Database";
        kind = 0;
        placeholder = none;
        default = some "0";
        options = none;
        validate = 0;
        error = none;
      }
      ∷ [];
}

abbrev targets : List TargetPattern
targets =
    record { prefix = "redis://"; keep_target = some true }
    ∷ record { prefix = "redis:"; keep_target = none }
    ∷ []

abbrev pub redis_capabilities : Capabilities
redis_capabilities = record {
  name = "redis";
  display = "Redis (Rust plugin)";
  targets = some targets;
  form = some form;
  query_language = some redis_query_language;
  write_capabilities = record { row_writer = true; document = none };
  workspace = some redis_workspace;
}
