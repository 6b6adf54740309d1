-- ===== src/Redis/Guidance.antt =====
-- The advice on WRONGTYPE failures in src/redis_service.rs, and the rendering of commands.
pub mod Failure
use Prim.Native.String.{◌++◌}
use redis_driver_for_per_wor.Prelude.{
  ℕ, Bool, true, false, not, List, [], ◌∷◌, Option, none, some, String, ◌==◌, any, if◌then◌else◌,
  map, get_elem?, Result, ok, err,
}
use redis_driver_for_per_wor.Text.{format, upper}
use redis_driver_for_per_wor.Reply.Value.{Reply}
use redis_driver_for_per_wor.Service.Errors.{ServiceError, attach_guidance}
use redis_driver_for_per_wor.Redis.{Crate, RedisService, World}
use redis_driver_for_per_wor.Redis.Action.{Action, attempt, lift, pure, ◌>>=◌, ◌>>◌}
use redis_driver_for_per_wor.Redis.Errors.{contains}
use redis_driver_for_per_wor.Redis.Query.{query, run_command}

abbrev one_of : List String → String → Bool
one_of words word = any (λ w. w == word) words

abbrev string_verbs : List String
string_verbs =
    "GET" ∷ "SET" ∷ "SETNX" ∷ "SETEX" ∷ "PSETEX" ∷ "GETSET" ∷ "GETEX" ∷ "GETDEL" ∷ "APPEND"
    ∷ "STRLEN" ∷ "GETRANGE" ∷ "SETRANGE" ∷ "INCR" ∷ "INCRBY" ∷ "INCRBYFLOAT" ∷ "DECR" ∷ "DECRBY"
    ∷ []

abbrev hash_verbs : List String
hash_verbs =
    "HSET" ∷ "HSETNX" ∷ "HGET" ∷ "HGETALL" ∷ "HDEL" ∷ "HEXISTS" ∷ "HLEN" ∷ "HKEYS" ∷ "HVALS"
    ∷ "HMGET" ∷ "HMSET" ∷ "HINCRBY" ∷ "HINCRBYFLOAT" ∷ "HSTRLEN" ∷ []

abbrev list_verbs : List String
list_verbs =
    "LPUSH" ∷ "LPUSHX" ∷ "RPUSH" ∷ "RPUSHX" ∷ "LPOP" ∷ "RPOP" ∷ "LLEN" ∷ "LRANGE" ∷ "LINDEX"
    ∷ "LSET" ∷ "LREM" ∷ "LTRIM" ∷ "LINSERT" ∷ "LPOS" ∷ []

abbrev set_verbs : List String
set_verbs =
    "SADD" ∷ "SREM" ∷ "SMEMBERS" ∷ "SISMEMBER" ∷ "SCARD" ∷ "SPOP" ∷ "SRANDMEMBER" ∷ "SMISMEMBER"
    ∷ []

abbrev zset_verbs : List String
zset_verbs =
    "ZADD" ∷ "ZREM" ∷ "ZRANGE" ∷ "ZCARD" ∷ "ZSCORE" ∷ "ZRANK" ∷ "ZREVRANK" ∷ "ZINCRBY" ∷ "ZCOUNT"
    ∷ "ZRANGEBYSCORE" ∷ "ZREVRANGE" ∷ []

unfoldable pub wrongtype_verb : String → Option String
wrongtype_verb verb =
    if one_of string_verbs verb
    then some "strings"
    else if one_of hash_verbs verb
    then some "hashes"
    else if one_of list_verbs verb
    then some "lists"
    else if one_of set_verbs verb
    then some "sets"
    else if one_of zset_verbs verb
    then some "sorted sets"
    else none

-- A key that is not empty.
abbrev nonblank : Option String → Option String
nonblank none = none
nonblank (some key) = if key == "" then none else some key

unfoldable pub wrongtype_key : String → List String → Option String
unfolding wrongtype_verb
wrongtype_key verb tokens = elim (wrongtype_verb verb) [
  | none ↦ none
  | some family ↦ nonblank (get_elem? tokens 1)
]

unfoldable pub type_read_command : String → Option (String × String)
type_read_command actual =
    if actual == "string"
    then some ("GET", "a string")
    else if actual == "hash"
    then some ("HGETALL", "a hash")
    else if actual == "list"
    then some ("LRANGE", "a list")
    else if actual == "set"
    then some ("SMEMBERS", "a set")
    else if actual == "zset"
    then some ("ZRANGE", "a sorted set")
    else none

-- `join(" ")`
abbrev pub join : List String → String
join [] = ""
join (s ∷ []) = s
join (s ∷ t ∷ rest) = s ++ " " ++ join (t ∷ rest)

abbrev shell_token : (String → String) → String → String
shell_token quote token = if token == "" then "''" else quote token

unfoldable pub render_command : (String → String) → List String → String
render_command quote tokens = join (map (shell_token quote) tokens)

module _ {C B : Type 0} (crate : Crate C B) (this : RedisService) where
  open crate use {from_string, quote}

  -- The read command for a type, of the key.
  abbrev read_tokens : String → String → List String
  read_tokens read_command key =
      if read_command == "LRANGE"
      then read_command ∷ key ∷ "0" ∷ "-1" ∷ []
      else if read_command == "ZRANGE"
      then read_command ∷ key ∷ "0" ∷ "-1" ∷ "WITHSCORES" ∷ []
      else read_command ∷ key ∷ []

  -- The advice for an inspected type: the article and the suggested command.
  unfoldable pub guidance_for : Result ServiceError String → String → Option (String × String)
  guidance_for (err e) key = none
  guidance_for (ok actual) key = elim (type_read_command actual) [
    | none ↦ none
    | some (read_command, article) ↦
        some (article, render_command quote (read_tokens read_command key))
  ]

  unfoldable pub wrongtype_guidance : String → Action (World C B) (Option (String × String))
  wrongtype_guidance key = do
    actual ← attempt (query crate this from_string ("TYPE" ∷ key ∷ []))
    pure (guidance_for actual key)

  -- The failure with the advice, if there is any.
  abbrev advised : ServiceError → String → String → String → Option (String × String) → ServiceError
  advised e verb accepts key none = e
  advised e verb accepts key (some (article, suggested)) =
      attach_guidance e
        (format (verb ∷ " accepts " ∷ accepts ∷ ", but " ∷ key ∷ " is " ∷ article ∷ [])) suggested

  -- What the verb accepts and the key that it names.
  abbrev pub subject : List String → Option (String × String × String)
  subject [] = none
  subject (token ∷ tokens) = elim (wrongtype_verb (upper token)) [
    | none ↦ none
    | some accepts ↦ elim (wrongtype_key (upper token) (token ∷ tokens)) [
      | none ↦ none
      | some key ↦ some (upper token, accepts, key)
    ]
  ]

  -- The failure of a command on such a key, after the inspection of the key's type.
  abbrev pub inspected :
      ServiceError → Option (String × String × String) → Action (World C B) ServiceError
  inspected e none = pure e
  inspected e (some (verb, accepts, key)) = do
    advice ← wrongtype_guidance key
    pure (advised e verb accepts key advice)

  unfoldable pub attach_wrongtype_guidance :
      List String → ServiceError → Action (World C B) ServiceError
  attach_wrongtype_guidance tokens e =
      if not (contains e.message "WRONGTYPE") then pure e else inspected e (subject tokens)

  abbrev pub guided : List String → Result ServiceError (ℕ × Reply) → Action (World C B) (ℕ × Reply)
  guided tokens (ok done) = pure done
  guided tokens (err e) = do
    advised_error ← attach_wrongtype_guidance tokens e
    lift (err advised_error)

  unfoldable pub run_command_guided : List String → Action (World C B) (ℕ × Reply)
  run_command_guided tokens = do
    outcome ← attempt (run_command crate this tokens)
    guided tokens outcome
