-- ===== src/Memory/Update.antt =====
-- The update of an in-memory row in src/service.rs, against the update script of
-- src/redis_service.rs run on the same entries.
use redis_driver_for_per_wor.Prelude.{
  ℕ, ◌≡◌, refl, List, Option, some, String, Result, ok, err, arith, inl, inr, Bool-cases,
  Option-cases, >>=-ok,
}
use redis_driver_for_per_wor.Service.Errors.{ServiceError}
use redis_driver_for_per_wor.Dto.Write.{RowValue, RowWriteRequest}
use redis_driver_for_per_wor.Statement.{keys_table}
use redis_driver_for_per_wor.RowWrite.{parse_identity, parse_row_write, parse_update_values, update}
use redis_driver_for_per_wor.Memory.{memory_update_fields}
use redis_driver_for_per_wor.Memory.Fields.{
  memory_identity-parse_identity, memory_update_fields_iff,
}
use redis_driver_for_per_wor.Text.Map.{Map, get}
use redis_driver_for_per_wor.Redis.Script.{run_script, script_guards}
use redis_driver_for_per_wor.Redis.Target.{unwrap_or}
use redis_driver_for_per_wor.Memory.Rows.{Written, update_entry, write_row}
use redis_driver_for_per_wor.Memory.Entries.{
  blocked, script_update, script_update_found, script_writes-reinsert, update_entry_found,
}

-- One affected row on both sides, or a failure on both.
abbrev pub SameReply : Result String ℕ → Result ServiceError ℕ → Type 0
SameReply (ok a) (ok b) = a ≡ b
SameReply (err e) (err f) = Unit
SameReply _ _ = ⊥

-- The replies agree, and so does what every key holds afterwards.
pub record Agrees (scripted : Result String ℕ × Map) (written : Written) : Type 0 where
  pub reply : SameReply scripted.0 written.0
  pub holds : (key : String) → get key scripted.1 ≡ get key written.1

-- The script on an entry that is there.
found-Agrees :
    (identity old : String) (rename_to value : Option String) (m : Map)
    → get identity m ≡ some old
    → Agrees (script_update identity rename_to value m) (update_entry identity rename_to value m)
found-Agrees identity old rename_to value m found =
    let destination = unwrap_or rename_to identity in
    rw
      (
        script_update_found identity old rename_to value m found,
        update_entry_found identity old rename_to value m found,
      )
      (elim (Bool-cases (blocked identity destination m)) [
        | inl taken ↦ rw taken (record { reply = tt; holds = λ key. refl })
        | inr free ↦ rw free (record {
          reply = refl;
          holds = λ key. script_writes-reinsert identity old destination value m key found;
        })
      ])

update_entry-Agrees :
    (identity : String) (rename_to value : Option String) (m : Map)
    → Agrees (script_update identity rename_to value m) (update_entry identity rename_to value m)
unfolding update_entry run_script script_guards
update_entry-Agrees identity rename_to value m = elim (Option-cases (get identity m)) [
  | inl missing ↦
      rw (run_script, script_guards, update_entry, missing)
        (record { reply = tt; holds = λ key. refl })
  | inr (old, found) ↦ found-Agrees identity old rename_to value m found
]

-- What a request holds that is accepted as an update.
accepted_update :
    (request : RowWriteRequest) (identity : String) (rename_to value : Option String)
    → request.operation ≡ "update"
    → parse_row_write (record request { table = keys_table }) ≡ ok (update identity rename_to value)
    → (cells : List RowValue) × (request.values ≡ some cells)
      × (parse_identity request.key ≡ ok identity)
      × (parse_update_values cells ≡ ok (rename_to, value))
unfolding parse_row_write
accepted_update request identity r v updates h =
    let chain = rw (parse_row_write, updates) at h in
    let (key, read, rest) = >>=-ok _ (parse_identity request.key) chain in
    elim (Option-cases request.values) [
      | inl missing ↦ absurd (ground arith)
      | inr (cells, values) ↦
          let (changes, parsed, e) = >>=-ok _ (parse_update_values cells) (rw values at rest) in
          (cells, values, rw read (ground arith), rw parsed (ground arith))
    ]

-- A request that the Redis session would accept as an update, sent for the table `kv`, does to the
-- entries what the update script does to the same keyspace, told the value that it finds: both fail,
-- and leave what every key holds, or both report one row and agree on what every key holds.
pub write_row-Agrees :
    (request : RowWriteRequest) (identity : String) (rename_to value : Option String) (m : Map)
    → request.table ≡ "kv"
    → request.operation ≡ "update"
    → parse_row_write (record request { table = keys_table }) ≡ ok (update identity rename_to value)
    → Agrees (script_update identity rename_to value m) (write_row request m)
unfolding write_row memory_update_fields
write_row-Agrees request identity r v m kv updates accepted =
    let (cells, values, key, changes) = accepted_update request identity r v updates accepted in
    rw
      (
        write_row,
        kv,
        updates,
        memory_identity-parse_identity request.key,
        key,
        values,
        (memory_update_fields_iff cells r v).1 changes,
      )
      (update_entry-Agrees identity r v m)
