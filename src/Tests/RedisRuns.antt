-- ===== src/Tests/RedisRuns.antt =====
-- A small Redis server, and sessions of src/redis_service.rs on it.
use mathlib.Core.List.{Perm}
use mathlib.Core.List.Perm
use redis_driver_for_per_wor.Prelude.{
  ℕ, ℤ, ◌∙◌, eqb, ◌≡◌, refl, pos, true, false, List, [], ◌∷◌, Option, none, some, String, ◌==◌,
  eq_iff, Result, ok, err, arith, if◌then◌else◌,
}
use redis_driver_for_per_wor.Statement.{is_some}
use redis_driver_for_per_wor.Dto.Request.{StatementRequest}
use redis_driver_for_per_wor.Text.Sort.{sort}
use redis_driver_for_per_wor.Reply.Value.{
  Reply, Replies, array, bulk_string, int, nil, no_replies, reply, simple_string,
}
use redis_driver_for_per_wor.Service.Errors.{ServiceError}
use redis_driver_for_per_wor.Redis.{Crate, RedisError, RedisService, World, other_kind, slot_of}
use redis_driver_for_per_wor.Assoc.{lookup}
use redis_driver_for_per_wor.Text.Decimal.{show}
use redis_driver_for_per_wor.Redis.Errors.{map_redis_error}
use redis_driver_for_per_wor.Redis.Open.{IsOpen}
use redis_driver_for_per_wor.Redis.Browse.{batch_keys, next_cursor, run_select}
use redis_driver_for_per_wor.Redis.Browse.Page.{IsPage, run_select-Iteration}
use redis_driver_for_per_wor.Redis.Browse.Scan.{all_keys, Iteration, last, more}
use redis_driver_for_per_wor.Redis.Chain.{HoldsAfter}
use redis_driver_for_per_wor.Redis.Gives.{Gives}
use redis_driver_for_per_wor.Redis.Guidance.{run_command_guided}
use redis_driver_for_per_wor.Redis.Guidance.Failure.{IsAdvised, run_command_guided-IsAdvised}
use redis_driver_for_per_wor.Redis.Handlers.{execute_read_only}
use redis_driver_for_per_wor.Redis.Handlers.Closed.{Refuses, close-Refuses}
use redis_driver_for_per_wor.Redis.Handlers.ReadOnly.{execute_read_only-Keeps}
use redis_driver_for_per_wor.Redis.Keeps.{Backend, Kept}
use redis_driver_for_per_wor.Redis.Previews.{preview_zset}
use redis_driver_for_per_wor.Redis.Previews.Zset.{preview_zset_flat}
use redis_driver_for_per_wor.Redis.Query.{close, query, run_command, with_connection}
use redis_driver_for_per_wor.Redis.Rows.{update_row}
use redis_driver_for_per_wor.Redis.Rows.Guard.{ScriptServer, Untouched, script_reply}
use redis_driver_for_per_wor.Redis.Rows.Update.{IsUpdated, update_row-IsUpdated}
use redis_driver_for_per_wor.Redis.Script.{Keyspace, run_script}
use redis_driver_for_per_wor.Redis.Script.Effect.{Laws, Outcome, run_script-Outcome}
use redis_driver_for_per_wor.Redis.View.{replied, server_view}
use redis_driver_for_per_wor.Redis.View.Allowlist.{IsView, server_view-IsView}

-- A keyspace of strings.
abbrev pub Strings : Type 0
Strings = String → Option String

abbrev type_of : Option String → String
type_of none = "none"
type_of (some s) = "string"

abbrev strings : Keyspace Strings
strings = record {
  exists = λ key k. is_some (k key);
  type_ = λ key k. type_of (k key);
  get = λ key k. k key;
  rename = λ src dst k key. if key == dst then k src else if key == src then none else k key;
  set = λ dst new k key. if key == dst then some new else k key;
}

same_text : (s : String) → (s == s) ≡ true
same_text s = (eq_iff s s).1 refl

flipped : (s t : String) → (s == t) ≡ false → (t == s) ≡ false
flipped s t h = ground (arith, eq_iff s t, eq_iff t s)

strings_Laws : Laws strings
strings_Laws = record {
  set_same = λ x v k. rw (same_text x) refl;
  set_other = λ x y v k other. rw other refl;
  rename_to = λ x y k found other. rw (same_text y) refl;
  rename_from = λ x y k found other. rw (flipped y x other, same_text x) refl;
  rename_other = λ x y z k not_x not_y. rw (not_y, not_x) refl;
}

abbrev pub hello : Strings
hello key = if key == "a" then some "hi" else if key == "b" then some "yo" else none

abbrev flat_scores : Replies
flat_scores = reply (bulk_string (97 ∷ [])) (reply (bulk_string (49 ∷ [])) no_replies)

abbrev first_batch : Reply
first_batch =
    array
      (reply (int (pos 5)) (reply (array (reply (bulk_string (98 ∷ [])) no_replies)) no_replies))

abbrev last_batch : Reply
last_batch =
    array
      (reply (int (pos 0)) (reply (array (reply (bulk_string (97 ∷ [])) no_replies)) no_replies))

abbrev reply_to : List String → Reply
reply_to [] = nil
reply_to (verb ∷ []) = nil
reply_to (verb ∷ argument ∷ rest) =
    if verb == "SCAN"
    then (if argument == "0" then first_batch else last_batch)
    else if verb == "TYPE"
    then simple_string "string"
    else if verb == "GET"
    then bulk_string (104 ∷ 105 ∷ [])
    else if verb == "EXISTS"
    then int (pos 0)
    else if verb == "ZRANGE"
    then array flat_scores
    else nil

-- The texts of the replies above.
abbrev letters : List ℕ → String
letters [] = ""
letters (c ∷ []) = if eqb c 97 then "a" else if eqb c 98 then "b" else "1"
letters (c ∷ d ∷ rest) = "hi"

abbrev text_of : Reply → Result RedisError String
text_of (simple_string s) = ok s
text_of v = ok "none"

abbrev int_of : Reply → Result RedisError ℤ
int_of (int i) = ok i
int_of v = ok (pos 0)

abbrev wrongtype : RedisError
wrongtype = record { kind = other_kind; code = some "WRONGTYPE"; text = "WRONGTYPE not a list" }

abbrev pub failure : String → RedisError
failure text = record { kind = other_kind; code = none; text = text }

abbrev ask : List String → Result RedisError Reply
ask [] = err wrongtype
ask (verb ∷ arguments) = if verb == "LLEN" then err wrongtype else ok (reply_to (verb ∷ arguments))

abbrev evaluate : String → List String → Strings → Result RedisError ℤ × Strings
evaluate src (dst ∷ want_value ∷ expected ∷ new_value ∷ []) k =
    script_reply failure (λ after. after)
      (run_script strings src dst want_value expected new_value k)
evaluate src arguments k = (err (failure "arguments"), k)

abbrev pub crate : Crate ℕ Strings
crate = record {
  query_async = λ conn cmd k. (ask cmd, k);
  invoke_async = λ conn script src arguments k. evaluate src arguments k;
  from_string = text_of;
  from_i64 = int_of;
  from_bytes = λ v. ok (104 ∷ 105 ∷ []);
  now = λ k. 0;
  from_utf8 = λ bytes. some (letters bytes);
  debug = λ v. "reply";
  quote = λ s. s;
  split = λ s. ok ("GET" ∷ "a" ∷ []);
  printers = record {
    from_utf8_lossy = letters;
    show_f64 = λ f. f;
    from_f64 = λ f. none;
    json_to_string = λ v. "{}";
  };
}

abbrev pub this : RedisService
this = record { slot = 0; database = pos 0 }

abbrev pub world : World ℕ Strings
world = record {
  slots = (0, record { conn = some 7; closed = false }) ∷ [];
  next_slot = 1;
  backend = hello;
}

world_IsOpen : IsOpen this 7 world
unfolding slot_of lookup
world_IsOpen = refl

-- The keys come in two replies, the second key first.
abbrev replies : List Reply
replies = first_batch ∷ last_batch ∷ []

two_replies : Iteration crate 7 replies (pos 0) hello hello
unfolding next_cursor show
two_replies =
    more first_batch (last_batch ∷ []) (pos 0) hello hello hello refl refl
      (last last_batch (pos 5) hello hello refl refl)

swapped : Perm (all_keys crate replies) ("a" ∷ "b" ∷ [])
unfolding batch_keys
swapped = Perm.swap "a" "b" []

run_select-Iteration_example :
    Gives world (IsPage 1 none (sort ("a" ∷ "b" ∷ []))) (run_select crate this 2 1 none)
run_select-Iteration_example =
    run_select-Iteration crate this 7 world replies hello ("a" ∷ "b" ∷ []) 2 1 none world_IsOpen
      two_replies (omega arith) swapped (omega arith)

preview_zset_flat_example :
    preview_zset crate this "z" world ≡ some (ok (some "{}"), record world { backend = hello })
preview_zset_flat_example =
    preview_zset_flat crate this 7 "z" world hello (97 ∷ []) (49 ∷ []) no_replies world_IsOpen refl

run_script-Outcome_example :
    Outcome strings "a" "c" true "hi" "new" hello (run_script strings "a" "c" "1" "hi" "new" hello)
run_script-Outcome_example = run_script-Outcome strings strings_Laws "a" "c" "1" "hi" "new" hello

abbrev server : ScriptServer crate 7 strings
server = record {
  keyspace = λ k. k;
  put = λ k after. after;
  failure = failure;
  Interferes = λ i j. i ≡ j;
  interferes_refl = λ k. refl;
  interferes_trans = λ i j k first second. first ∙ second;
  keyspace_put = λ k after. refl;
  type_reads = λ key k. refl;
  get_reads = λ key k. refl;
  exists_reads = λ key k. refl;
  runs_script = λ src dst want_value expected new_value k. refl;
}

update_row-IsUpdated_example :
    HoldsAfter
      (IsUpdated crate this 7 strings server hello "a" (some "c") (some "new"))
      (Untouched crate this 7 strings server hello)
      (update_row crate this "a" (some "c") (some "new") world)
update_row-IsUpdated_example =
    update_row-IsUpdated crate this 7 strings server hello strings_Laws "a" (some "c") (some "new")
      world (world_IsOpen, refl)

server_view-IsView_example :
    HoldsAfter
      (λ r after. IsView r)
      (λ after. Unit)
      (server_view crate this (λ section. replied) world)
server_view-IsView_example = server_view-IsView crate this (λ section. replied) world

abbrev request : StatementRequest
request = record { statement = "GET a" }

execute_read_only-Keeps_example :
    Kept (Backend (λ k. k ≡ hello)) (execute_read_only crate this 2 request world)
execute_read_only-Keeps_example =
    execute_read_only-Keeps crate this (λ k. k ≡ hello) (λ conn cmd k read same. same) 2 request
      world refl

close-Refuses_example : Refuses crate this (close crate this false world)
close-Refuses_example = close-Refuses crate this false world

llen_fails :
    run_command crate this ("LLEN" ∷ "a" ∷ []) world
    ≡ some (err (map_redis_error wrongtype "redis: "), world)
unfolding run_command query with_connection slot_of lookup
llen_fails = refl

run_command_guided-IsAdvised_example :
    (advised_error : ServiceError) × (after : World ℕ Strings) × (run_command_guided crate this
        ("LLEN" ∷ "a" ∷ [])
        world
      ≡ some (err advised_error, after))
    × IsAdvised (map_redis_error wrongtype "redis: ") advised_error
run_command_guided-IsAdvised_example =
    run_command_guided-IsAdvised crate this ("LLEN" ∷ "a" ∷ [])
      (map_redis_error wrongtype "redis: ") world world llen_fails
