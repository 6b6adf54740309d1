-- ===== src/Statement/Verbs.antt =====
-- The command tables of src/redis_service.rs.
use redis_driver_for_per_wor.Prelude.{Bool, List, [], ◌∷◌, String, ◌==◌, any}
use redis_driver_for_per_wor.Text.{eq_ignore_case}

abbrev pub read_only_commands : List String
read_only_commands =
    "PING" ∷ "GET" ∷ "MGET" ∷ "EXISTS" ∷ "TYPE" ∷ "TTL" ∷ "PTTL" ∷ "DBSIZE" ∷ "SCAN" ∷ "KEYS"
    ∷ "HGET" ∷ "HGETALL" ∷ "HLEN" ∷ "SMEMBERS" ∷ "SCARD" ∷ "ZRANGE" ∷ "ZCARD" ∷ "LRANGE" ∷ "LLEN"
    ∷ "INFO" ∷ []

abbrev pub sensitive_commands : List String
sensitive_commands =
    "ACL" ∷ "APPEND" ∷ "AUTH" ∷ "BITFIELD" ∷ "BLMOVE" ∷ "CONFIG" ∷ "DEBUG" ∷ "DECRBY" ∷ "ECHO"
    ∷ "EVAL" ∷ "EVALSHA" ∷ "FCALL" ∷ "FCALL_RO" ∷ "FUNCTION" ∷ "GEOADD" ∷ "GETSET" ∷ "HELLO"
    ∷ "HINCRBY" ∷ "HINCRBYFLOAT" ∷ "HMSET" ∷ "HSET" ∷ "HSETNX" ∷ "INCRBY" ∷ "INCRBYFLOAT"
    ∷ "LINSERT" ∷ "LMOVE" ∷ "LPUSH" ∷ "LPUSHX" ∷ "LSET" ∷ "MIGRATE" ∷ "MSET" ∷ "MSETNX" ∷ "PFADD"
    ∷ "PSETEX" ∷ "PUBLISH" ∷ "RESTORE" ∷ "RPUSH" ∷ "RPUSHX" ∷ "SADD" ∷ "SCRIPT" ∷ "SET" ∷ "SETBIT"
    ∷ "SETEX" ∷ "SETNX" ∷ "SETRANGE" ∷ "SMOVE" ∷ "SREM" ∷ "SPUBLISH" ∷ "XADD" ∷ "XCLAIM"
    ∷ "XAUTOCLAIM" ∷ "XSETID" ∷ "ZADD" ∷ "ZINCRBY" ∷ []

abbrev pub safe_write_commands : List String
safe_write_commands =
    "COPY" ∷ "DEL" ∷ "DISCARD" ∷ "EXEC" ∷ "EXPIRE" ∷ "EXPIREAT" ∷ "FLUSHALL" ∷ "FLUSHDB" ∷ "MOVE"
    ∷ "MULTI" ∷ "PERSIST" ∷ "PEXPIRE" ∷ "PEXPIREAT" ∷ "QUIT" ∷ "RENAME" ∷ "RENAMENX" ∷ "RESET"
    ∷ "SELECT" ∷ "SWAPDB" ∷ "TOUCH" ∷ "UNLINK" ∷ "UNWATCH" ∷ "WATCH" ∷ []

-- `commands.contains(&verb)`
unfoldable pub contains : List String → String → Bool
contains commands verb = any (λ command. command == verb) commands

unfoldable pub is_read_only : String → Bool
is_read_only verb = any (λ command. eq_ignore_case command verb) read_only_commands
