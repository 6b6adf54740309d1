-- ===== src/Memory/Entries.antt =====
-- The entries of an in-memory store as the keyspace of the update script of src/redis_service.rs, and
-- what the script and `row_write` of src/service.rs do to an entry that is there.
use redis_driver_for_per_wor.Prelude.{
  ℕ, ◌≡◌, refl, ap, ◌∙◌, false, true, Bool, not, ◌&&◌, [], ◌∷◌, reject_if, Option, none, some,
  String, ◌==◌, eq_iff, eq_refl, if◌then◌else◌, Result, ok, err, arith, inl, inr, Bool-cases,
}
use redis_driver_for_per_wor.Text.{format}
use redis_driver_for_per_wor.Service.Errors.{operation}
use redis_driver_for_per_wor.Statement.{is_some}
use redis_driver_for_per_wor.Text.Map.{Map, get, get-insert, get-remove, insert, remove}
use redis_driver_for_per_wor.Redis.Script.{
  Keyspace, run_script, script_guards, script_writes, unchanged_string,
}
use redis_driver_for_per_wor.Redis.Target.{unwrap_or}
use redis_driver_for_per_wor.Memory.Rows.{is_taken, or_else, reinsert, update_entry}

-- The moved entry.
abbrev move : String → String → Option String → Map → Map
move x y none m = m
move x y (some v) m = insert y v (remove x m)

-- The entries as a keyspace of strings.
abbrev pub entries : Keyspace Map
entries = record {
  exists = λ key m. is_some (get key m);
  type_ = λ key m. if is_some (get key m) then "string" else "none";
  get = get;
  rename = λ x y m. move x y (get x m) m;
  set = insert;
}

abbrev pub flag : Option String → String
flag none = "0"
flag (some v) = "1"

-- The script on the entries, told the value that it finds.
abbrev pub script_update : String → Option String → Option String → Map → Result String ℕ × Map
script_update identity rename_to value m =
    run_script entries identity (unwrap_or rename_to identity) (flag value)
      (unwrap_or (get identity m) "") (unwrap_or value "") m

-- The value stays.
kept :
    (identity old : String) (m : Map) (key : String)
    → get identity m ≡ some old
    → get key m ≡ get key (insert identity old (remove identity m))
kept identity old m key found = elim (Bool-cases (key == identity)) [
  | inl same ↦
      let e : key ≡ identity = (eq_iff key identity).0 same in
      rw (get-insert identity old key (remove identity m), same) (rw e found)
  | inr other ↦
      rw (get-insert identity old key (remove identity m), get-remove identity key m, other) refl
]

-- A new value at the entry's own key.
replaced :
    (identity new : String) (m : Map) (key : String)
    → get key (insert identity new m) ≡ get key (insert identity new (remove identity m))
replaced identity new m key = ground (
  arith,
  get-insert identity new key m,
  get-insert identity new key (remove identity m),
  get-remove identity key m,
)

-- A new value at another key, set after the move.
moved :
    (identity destination old new : String) (m : Map) (key : String)
    → get key (insert destination new (insert destination old (remove identity m)))
      ≡ get key (insert destination new (remove identity m))
moved identity destination old new m key = ground (
  arith,
  get-insert destination new key (insert destination old (remove identity m)),
  get-insert destination new key (remove identity m),
  get-insert destination old key (remove identity m),
)

-- The destination is another key that is held.
abbrev pub blocked : String → String → Map → Bool
blocked identity destination m = not (destination == identity) && is_some (get destination m)

is_taken-blocked :
    (identity : String) (rename_to : Option String) (m : Map)
    → is_taken identity rename_to m ≡ blocked identity (unwrap_or rename_to identity) m
is_taken-blocked identity none m = rw (eq_refl identity) refl
is_taken-blocked identity (some destination) m = refl

-- Once the other guards have passed, the destination decides.
decided :
    (test : Bool) (message : String) (written m : Map)
    → (elim (reject_if test message) as (λ r. Result String ℕ × Map) [
      | err e ↦ (err e, m)
      | ok done ↦ (ok 1, written)
    ])
      ≡ (if test then (err message, m) else (ok 1, written))
decided true message written m = refl
decided false message written m = refl

-- The guards of the script on an entry that is there: only the destination may refuse.
script_guards_found :
    (identity old destination : String) (value : Option String) (m : Map)
    → get identity m ≡ some old
    → script_guards entries identity destination (flag value == "1") old m
      ≡ reject_if
          (blocked identity destination m)
          (format ("destination key already exists: " ∷ destination ∷ []))
unfolding script_guards unchanged_string
script_guards_found identity old destination none m found = rw (script_guards, found) refl
script_guards_found identity old destination (some new) m found =
    rw (script_guards, unchanged_string, found, eq_refl old) refl

pub script_update_found :
    (identity old : String) (rename_to value : Option String) (m : Map)
    → get identity m ≡ some old
    → let destination = unwrap_or rename_to identity in
      script_update identity rename_to value m ≡ (
        if blocked identity destination m
        then (err (format ("destination key already exists: " ∷ destination ∷ [])), m)
        else (
          ok 1,
          script_writes entries identity destination (flag value == "1") (unwrap_or value "") m,
        ))
unfolding run_script
script_update_found identity old rename_to value m found =
    let destination = unwrap_or rename_to identity in
    let written =
      script_writes entries identity destination (flag value == "1") (unwrap_or value "") m in
    ap
      (λ current.
        run_script entries identity destination (flag value) (unwrap_or current "")
          (unwrap_or value "") m)
      found
    ∙ ap
        (λ guards. elim guards as (λ r. Result String ℕ × Map) [
          | err e ↦ (err e, m)
          | ok done ↦ (ok 1, written)
        ])
        (script_guards_found identity old destination value m found)
    ∙ decided (blocked identity destination m) _ written m

pub update_entry_found :
    (identity old : String) (rename_to value : Option String) (m : Map)
    → get identity m ≡ some old
    → let destination = unwrap_or rename_to identity in
      update_entry identity rename_to value m ≡ (
        if blocked identity destination m
        then (err (operation (format ("destination key already exists: " ∷ destination ∷ []))), m)
        else (ok 1, reinsert destination (or_else value (some old)) (remove identity m)))
unfolding update_entry
update_entry_found identity old rename_to value m found =
    rw (update_entry, found, is_taken-blocked identity rename_to m) refl

-- The writes of the script leave what the reinsertion leaves.
pub script_writes-reinsert :
    (identity old destination : String) (value : Option String) (m : Map) (key : String)
    → get identity m ≡ some old
    → get key
        (script_writes entries identity destination (flag value == "1") (unwrap_or value "") m)
      ≡ get key (reinsert destination (or_else value (some old)) (remove identity m))
unfolding script_writes
script_writes-reinsert identity old destination none m key found =
    elim (Bool-cases (destination == identity)) [
      | inl same ↦
          let e : destination ≡ identity = (eq_iff destination identity).0 same in
          rw (script_writes, same, e) (kept identity old m key found)
      | inr other ↦ rw (script_writes, other, found) refl
    ]
script_writes-reinsert identity old destination (some new) m key found =
    elim (Bool-cases (destination == identity)) [
      | inl same ↦
          let e : destination ≡ identity = (eq_iff destination identity).0 same in
          rw (script_writes, same, e) (replaced identity new m key)
      | inr other ↦ rw (script_writes, other, found) (moved identity destination old new m key)
    ]
