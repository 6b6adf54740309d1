-- ===== src/Memory/RoundTrip.antt =====
-- SET, GET and DEL statements of the in-memory service in src/service.rs, written and read back.
use redis_driver_for_per_wor.Prelude.{
  ◌≡◌, refl, ap, Bool, true, List, [], ◌∷◌, Option, none, some, String, ◌==◌, ok, eq_refl,
  if◌then◌else◌, arith, All,
}
use redis_driver_for_per_wor.Text.{upper}
use redis_driver_for_per_wor.Text.Map.{Map, get, get-insert, get-remove, insert, remove}
use redis_driver_for_per_wor.Text.Words.{IsWord, join_words, split_whitespace-join_words}
use redis_driver_for_per_wor.Memory.{stub_result}
use redis_driver_for_per_wor.Memory.Statement.{
  Outcome, execute_words, removed, run_statement, value_row,
}

-- A statement of plain words is run by its words.
run_statement_words :
    (cancelled writable : Bool) (verb : String) (words : List String) (m : Map)
    → IsWord verb
    → All IsWord words
    → run_statement cancelled writable (join_words (verb ∷ words)) m
      ≡ execute_words cancelled writable (join_words (verb ∷ words)) (verb ∷ words) m
unfolding run_statement
run_statement_words cancelled writable verb words m h hs =
    rw (run_statement, split_whitespace-join_words verb words h hs) refl

run_set :
    (cancelled : Bool) (verb key : String) (words : List String) (m : Map)
    → upper verb ≡ "SET"
    → IsWord verb
    → IsWord key
    → All IsWord words
    → run_statement cancelled true (join_words (verb ∷ key ∷ words)) m
      ≡ (ok (stub_result [] [] 1), insert key (join_words words) m)
unfolding execute_words
run_set cancelled verb key words m is_set v k ws =
    rw (run_statement_words cancelled true verb (key ∷ words) m v (k, ws), execute_words, is_set)
      refl

run_get :
    (cancelled writable : Bool) (verb key : String) (m : Map)
    → upper verb ≡ "GET"
    → IsWord verb
    → IsWord key
    → run_statement cancelled writable (join_words (verb ∷ key ∷ [])) m
      ≡ (ok (stub_result ("key" ∷ "value" ∷ []) (value_row key (get key m)) 0), m)
unfolding execute_words
run_get cancelled writable verb key m is_get v k =
    rw (run_statement_words cancelled writable verb (key ∷ []) m v (k, tt), execute_words, is_get)
      refl

run_del :
    (cancelled : Bool) (verb key : String) (m : Map)
    → upper verb ≡ "DEL"
    → IsWord verb
    → IsWord key
    → run_statement cancelled true (join_words (verb ∷ key ∷ [])) m
      ≡ (ok (stub_result [] [] (removed (get key m))), remove key m)
unfolding execute_words
run_del cancelled verb key m is_del v k =
    rw (run_statement_words cancelled true verb (key ∷ []) m v (k, tt), execute_words, is_del) refl

get_inserted : (key value : String) (m : Map) → get key (insert key value m) ≡ some value
get_inserted key value m = rw (get-insert key value key m, eq_refl key) refl

get_deleted :
    (key value other : String) (m : Map)
    → get other (remove key (insert key value m)) ≡ (if other == key then none else get other m)
get_deleted key value other m =
    ground (arith, get-remove key other (insert key value m), get-insert key value other m)

-- What a GET of this key returns, if the key holds the value.
abbrev pub Returns : String → Option String → Outcome → Type 0
Returns key value outcome =
    outcome.0 ≡ ok (stub_result ("key" ∷ "value" ∷ []) (value_row key value) 0)

-- A SET of plain words, its verb in any letter case, succeeds with one affected row. A GET afterwards,
-- read-only or not, returns the words joined by single spaces for the key that was set, and for
-- every other key what it held; and after a DEL of the key, which affects one row, no row for it and
-- what they held for the others.
pub run_statement-set_get_del :
    (cancelled writable : Bool) (set_verb get_verb del_verb key other : String)
    (words : List String) (m : Map)
    → upper set_verb ≡ "SET"
    → upper get_verb ≡ "GET"
    → upper del_verb ≡ "DEL"
    → All IsWord (set_verb ∷ get_verb ∷ del_verb ∷ key ∷ other ∷ words)
    → let (answer, after) = run_statement cancelled true (join_words (set_verb ∷ key ∷ words)) m in
      let (affected, deleted) =
        run_statement cancelled true (join_words (del_verb ∷ key ∷ [])) after in
      let get_statement = join_words (get_verb ∷ other ∷ []) in
      (answer ≡ ok (stub_result [] [] 1))
      × Returns other
          (if other == key then some (join_words words) else get other m)
          (run_statement cancelled writable get_statement after)
      × (affected ≡ ok (stub_result [] [] 1))
      × Returns other
          (if other == key then none else get other m)
          (run_statement cancelled writable get_statement deleted)
unfolding insert
run_statement-set_get_del cancelled writable set_verb get_verb del_verb key other words m s g d
      (vs, (vg, (vd, (k, (o, ws))))) =
    let after = insert key (join_words words) m in
    rw
      (
        run_set cancelled set_verb key words m s vs k ws,
        run_del cancelled del_verb key after d vd k,
        run_get cancelled writable get_verb other after g vg o,
        run_get cancelled writable get_verb other (remove key after) g vg o,
      )
      (
        refl,
        ap (λ v. ok (stub_result ("key" ∷ "value" ∷ []) (value_row other v) 0))
            (get-insert key (join_words words) other m),
        ap (λ v. ok (stub_result [] [] (removed v))) (get_inserted key (join_words words) m),
        ap (λ v. ok (stub_result ("key" ∷ "value" ∷ []) (value_row other v) 0))
            (get_deleted key (join_words words) other m),
      )
