-- ===== src/Redis/View.antt =====
-- The `server` workspace view of src/redis_service.rs: the allowlisted fields of INFO.
pub mod Allowlist
use redis_driver_for_per_wor.Prelude.{
  ℕ, ◌-◌, ℤ, Bool, true, false, List, [], ◌∷◌, Option, none, some, String, ◌==◌, any, map,
  if◌then◌else◌,
}
use redis_driver_for_per_wor.Text.{format, strip_prefix, trim}
use redis_driver_for_per_wor.Text.SortBy.{pair_leb}
use redis_driver_for_per_wor.Text.Sort.{sort_by}
use redis_driver_for_per_wor.Text.Split.{lines, split, split_once}
use redis_driver_for_per_wor.Dto.Result.{Cell, QueryResult}
use redis_driver_for_per_wor.Reply.{cap_cell, finalize}
use redis_driver_for_per_wor.Reply.Value.{show_ℤ}
use redis_driver_for_per_wor.Service.Errors.{canceled}
use redis_driver_for_per_wor.Redis.{Crate, RedisService, World}
use redis_driver_for_per_wor.Redis.Action.{Action, attempt, gets, pure, raise, ◌>>=◌}
use redis_driver_for_per_wor.Redis.Query.{query}

abbrev pub server_view_server_fields : List String
server_view_server_fields =
    "redis_version" ∷ "redis_mode" ∷ "arch_bits" ∷ "uptime_in_seconds" ∷ "uptime_in_days"
    ∷ "tcp_port" ∷ []

abbrev pub server_view_memory_fields : List String
server_view_memory_fields =
    "used_memory" ∷ "used_memory_human" ∷ "used_memory_rss" ∷ "used_memory_peak"
    ∷ "used_memory_peak_human" ∷ "maxmemory" ∷ "maxmemory_human" ∷ "mem_fragmentation_ratio" ∷ []

abbrev pub server_view_keyspace_fields : List String
server_view_keyspace_fields = "keys" ∷ "expires" ∷ "avg_ttl" ∷ []

-- `fields.contains(&field)`
abbrev pub listed : List String → String → Bool
listed fields field = any (λ f. f == field) fields

-- A `HashMap<String, String>` by its entries; insertion replaces.
abbrev pub Fields : Type 0
Fields = List (String × String)

unfoldable pub insert_field : String → String → Fields → Fields
insert_field name value [] = (name, value) ∷ []
insert_field name value ((n, v) ∷ rest) =
    let later = insert_field name value rest in
    if n == name then (name, value) ∷ rest else (n, v) ∷ later

-- `fields.extend(more)`
abbrev pub extend : Fields → Fields → Fields
extend [] fields = fields
extend ((name, value) ∷ more) fields = extend more (insert_field name value fields)

-- An entry for an allowlisted field, under its section's name; other parts are dropped.
unfoldable pub take_field : String → List String → Option (String × String) → Fields → Fields
take_field prefix fields none out = out
take_field prefix fields (some (field, value)) out =
    if listed fields field
    then insert_field (format (prefix ∷ "." ∷ field ∷ [])) (trim value) out
    else out

-- The loop of `parse_info_section` over the lines.
abbrev pub section_loop : String → List String → List String → Fields → Fields
section_loop prefix fields [] out = out
section_loop prefix fields (line ∷ rest) out =
    section_loop prefix fields rest (take_field prefix fields (split_once b':' line) out)

unfoldable pub parse_info_section : String → String → List String → Fields
parse_info_section reply prefix fields = section_loop prefix fields (lines reply) []

-- `find` of the first line with the prefix.
abbrev starts_with : String → String → Bool
starts_with s prefix = elim (strip_prefix s prefix) [ none ↦ false | some rest ↦ true ]

abbrev pub find_line : String → List String → Option String
find_line prefix [] = none
find_line prefix (line ∷ rest) =
    if starts_with line prefix then some line else find_line prefix rest

-- The loop of `parse_keyspace_line` over the parts.
abbrev pub keyspace_loop : List String → Fields → Fields
keyspace_loop [] out = out
keyspace_loop (part ∷ rest) out =
    keyspace_loop rest
      (take_field "keyspace" server_view_keyspace_fields (split_once b'=' part) out)

-- The fields of the database's line, after its colon.
abbrev pub line_fields : Option (String × String) → Fields
line_fields none = []
line_fields (some (name, values)) = keyspace_loop (split b',' values) []

unfoldable pub parse_keyspace_line : String → ℤ → Fields
parse_keyspace_line reply database =
    elim (find_line (format ("db" ∷ show_ℤ database ∷ ":" ∷ [])) (lines reply)) [
      | none ↦ []
      | some line ↦ line_fields (split_once b':' line)
    ]

-- How the race of one section's reply with the cancellation ends: with the reply, or with the
-- cancellation, before or after the server has seen the command.
pub data Race : Type 0 where
  replied unsent dropped : Race

abbrev pub field_row : String × String → List Cell
field_row (field, value) = some field ∷ some value ∷ []

abbrev pub capped : String × String → String × String
capped (field, value) = (field, cap_cell value)

-- The end of `server_view`, from the fields that were collected.
unfoldable pub view_result : Fields → ℕ → QueryResult
unfolding finalize
view_result fields elapsed =
    finalize ("Field" ∷ "Value" ∷ []) (map field_row (sort_by pair_leb (map capped fields))) elapsed
      false none none

module _ {C B : Type 0} (crate : Crate C B) (this : RedisService) where
  open crate use {from_string, now}

  abbrev pub info : String → Action (World C B) String
  info section = query crate this from_string ("INFO" ∷ section ∷ [])

  abbrev pub race_section : String → Race → Action (World C B) String
  race_section section replied = info section
  race_section section unsent = raise (canceled "request canceled")
  race_section section dropped = do
    answer ← attempt (info section)
    raise (canceled "request canceled")

  unfoldable pub read_section : (String → Race) → String → Action (World C B) String
  read_section races section = race_section section (races section)

  -- The loop over the three sections.
  unfoldable pub collect_fields : (String → Race) → Action (World C B) Fields
  collect_fields races = do
    server ← read_section races "server"
    memory ← read_section races "memory"
    keyspace ← read_section races "keyspace"
    pure (
        extend (parse_keyspace_line keyspace this.database) (
          extend (parse_info_section memory "memory" server_view_memory_fields)
            (extend (parse_info_section server "server" server_view_server_fields) [])))

  unfoldable pub server_view : (String → Race) → Action (World C B) QueryResult
  server_view races = do
    start ← gets (λ w. now w.backend)
    fields ← collect_fields races
    end ← gets (λ w. now w.backend)
    pure (view_result fields (end - start))
