-- ===== src/Redis/Script.antt =====
-- The Lua script of an update in src/redis_service.rs, as its text and as what it does.
pub mod Effect
use redis_driver_for_per_wor.Prelude.{
  ℕ, Bool, true, false, not, ◌&&◌, List, [], ◌∷◌, Option, none, some, String, ◌==◌, if◌then◌else◌,
  Result, ok, err, ◌>>=◌, ◌>>◌, reject_if,
}
use redis_driver_for_per_wor.Text.{format}

-- `UPDATE_SCRIPT`, line by line.
abbrev pub update_script : String
update_script = format (
    "local src = KEYS[1]\n" ∷ "local dst = ARGV[1]\n" ∷ "local want_value = ARGV[2]\n"
    ∷ "local expected = ARGV[3]\n" ∷ "local new_value = ARGV[4]\n"
    ∷ "if redis.call('EXISTS', src) == 0 then\n"
    ∷ "  return redis.error_reply('key not found: ' .. src)\n" ∷ "end\n"
    ∷ "if want_value == '1' then\n" ∷ "  local t = redis.call('TYPE', src).ok\n"
    ∷ "  if t ~= 'string' then\n"
    ∷ "    return redis.error_reply('cannot edit value: ' .. src .. ' is not a string (type ' .. t .. ')')\n"
    ∷ "  end\n" ∷ "  if redis.call('GET', src) ~= expected then\n"
    ∷ "    return redis.error_reply('cannot edit value: ' .. src .. ' changed concurrently')\n"
    ∷ "  end\n" ∷ "end\n" ∷ "if dst ~= src and redis.call('EXISTS', dst) == 1 then\n"
    ∷ "  return redis.error_reply('destination key already exists: ' .. dst)\n" ∷ "end\n"
    ∷ "if dst ~= src then\n" ∷ "  redis.call('RENAME', src, dst)\n" ∷ "end\n"
    ∷ "if want_value == '1' then\n" ∷ "  redis.call('SET', dst, new_value)\n" ∷ "end\n"
    ∷ "return 1\n" ∷ [])

-- What the script calls of the server, on a keyspace `K`; `get` is none where no string is held.
pub record Keyspace (K : Type 0) : Type 0 where
  pub exists : String → K → Bool
  pub type_ : String → K → String
  pub get : String → K → Option String
  pub rename : String → String → K → K
  pub set : String → String → K → K

abbrev pub is_value : Option String → String → Bool
is_value none expected = false
is_value (some current) expected = current == expected

module _ {K : Type 0} (redis : Keyspace K) where
  open redis use {exists, get, rename, set}

  -- The guards of the script on a wanted value.
  unfoldable pub unchanged_string : String → String → K → Result String (Unit {0})
  unchanged_string src expected k = do
    reject_if (not (redis.type_ src k == "string")) (
        format
          ("cannot edit value: " ∷ src ∷ " is not a string (type " ∷ redis.type_ src k ∷ ")" ∷ []))
    reject_if (not (is_value (get src k) expected))
        (format ("cannot edit value: " ∷ src ∷ " changed concurrently" ∷ []))

  unfoldable pub script_guards : String → String → Bool → String → K → Result String (Unit {0})
  unfolding unchanged_string
  script_guards src dst want_value expected k = do
    reject_if (not (exists src k)) (format ("key not found: " ∷ src ∷ []))
    (if want_value then unchanged_string src expected k else ok tt)
    reject_if (not (dst == src) && exists dst k)
        (format ("destination key already exists: " ∷ dst ∷ []))

  -- The writes of the script.
  unfoldable pub script_writes : String → String → Bool → String → K → K
  script_writes src dst want_value new_value k =
      let renamed = if not (dst == src) then rename src dst k else k in
      if want_value then set dst new_value renamed else renamed

  -- A run of the script: its reply, and the keyspace after it.
  unfoldable pub run_script : String → String → String → String → String → K → Result String ℕ × K
  unfolding script_guards script_writes
  run_script src dst want_value expected new_value k =
      let wanted = want_value == "1" in
      elim (script_guards src dst wanted expected k) [
        | err message ↦ (err message, k)
        | ok done ↦ (ok 1, script_writes src dst wanted new_value k)
      ]
