-- ===== src/Redis/View/Allowlist.antt =====
-- No other content of INFO than the allowlisted fields reaches the `server` view of
-- src/redis_service.rs.
use Prim.Native.String.{count}
use redis_driver_for_per_wor.Prelude.{
  ℕ, ◌-◌, ◌≤◌, ◌≡◌, refl, Bool, true, ◌||◌, List, [], ◌∷◌, ◌++◌, Option, none, some, String, ◌==◌,
  eq_iff, any, map, All, inl, inr, Bool-cases, arith, ℤ, Option-cases, take,
}
use redis_driver_for_per_wor.Text.{format}
use redis_driver_for_per_wor.Text.Sort.{sort_by}
use redis_driver_for_per_wor.Text.Split.{lines, split, split_once}
use redis_driver_for_per_wor.Text.SortBy.{
  All-sort_by, IsSortedBy, pair_leb, pair_leb_total, pair_leb_trans, sort_by-IsSortedBy,
}
use redis_driver_for_per_wor.Dto.Result.{QueryResult}
use redis_driver_for_per_wor.Reply.{max_cell, max_rows}
use redis_driver_for_per_wor.Reply.Bounds.{cap_cell-le, shown_eq_take}
use redis_driver_for_per_wor.Reply.Value.{show_ℤ}
use redis_driver_for_per_wor.Redis.{Crate, RedisService, World}
use redis_driver_for_per_wor.Redis.Action.{Action, attempt, gets, pure, ◌>>=◌}
use redis_driver_for_per_wor.Redis.Chain.{HoldsAfter}
use redis_driver_for_per_wor.Redis.Ends.{
  Ends-run, Anything, Ends, gets-Ends, pure-Ends, raise-Ends, query-Ends, >>=-Ends, attempt-Ends,
}
use redis_driver_for_per_wor.Redis.View.{
  Fields, Race, capped, extend, field_row, insert_field, keyspace_loop, line_fields, listed,
  parse_info_section, parse_keyspace_line, section_loop, server_view, server_view_keyspace_fields,
  server_view_memory_fields, server_view_server_fields, take_field, view_result, find_line,
  read_section, collect_fields, race_section, info,
}

-- A field's name on the wire.
abbrev shown_as : String → String → String
shown_as prefix field = format (prefix ∷ "." ∷ field ∷ [])

-- All names that the view may show: 17 in all.
abbrev pub view_names : List String
view_names =
    map (shown_as "server") server_view_server_fields
    ++ map (shown_as "memory") server_view_memory_fields
    ++ map (shown_as "keyspace") server_view_keyspace_fields

abbrev pub Allowed : String × String → Type 0
Allowed (name, value) = listed view_names name ≡ true

any-append : (p : String → Bool) (l r : List String) → any p (l ++ r) ≡ any p l || any p r
any-append p [] r = refl
any-append p (x ∷ l) r = ground (arith, any-append p l r)

eq_refl_text : (s : String) → (s == s) ≡ true
eq_refl_text s = (eq_iff s s).1 refl

listed-map :
    (f : String → String) (fields : List String) (field : String)
    → listed fields field ≡ true
    → listed (map f fields) (f field) ≡ true
listed-map f [] field h = cc
listed-map f (g ∷ fields) field h = elim (Bool-cases (g == field)) [
  | inl same ↦ rw ((eq_iff g field).0 same, eq_refl_text (f field)) refl
  | inr other ↦ ground (arith, listed-map f fields field)
]

All-insert_field :
    (name value : String) (fields : Fields)
    → Allowed (name, value)
    → All Allowed fields
    → All Allowed (insert_field name value fields)
unfolding insert_field
All-insert_field name value [] a h = (a, tt)
All-insert_field name value ((n, v) ∷ rest) a h = elim (Bool-cases (n == name)) [
  | inl same ↦ rw (insert_field, same) (a, h.1)
  | inr other ↦ rw (insert_field, other) (h.0, All-insert_field name value rest a h.1)
]

All-extend :
    (more fields : Fields)
    → All Allowed more
    → All Allowed fields
    → All Allowed (extend more fields)
All-extend [] fields hm h = h
All-extend ((name, value) ∷ more) fields hm h =
    All-extend more _ hm.1 (All-insert_field name value fields hm.0 h)

module _ (prefix : String) (fields : List String)
    (covered : (field : String)
      → listed fields field ≡ true
      → listed view_names (shown_as prefix field) ≡ true) where
  All-take_field :
      (entry : Option (String × String)) (out : Fields)
      → All Allowed out
      → All Allowed (take_field prefix fields entry out)
  unfolding take_field
  All-take_field none out h = h
  All-take_field (some (field, value)) out h = elim (Bool-cases (listed fields field)) [
    | inl known ↦ rw (take_field, known) (All-insert_field _ _ out (covered field known) h)
    | inr unknown ↦ rw (take_field, unknown) h
  ]

  All-section_loop :
      (text_lines : List String) (out : Fields)
      → All Allowed out
      → All Allowed (section_loop prefix fields text_lines out)
  All-section_loop [] out h = h
  All-section_loop (line ∷ rest) out h =
      All-section_loop rest _ (All-take_field (split_once b':' line) out h)

  All-parse_info_section : (reply : String) → All Allowed (parse_info_section reply prefix fields)
  unfolding parse_info_section
  All-parse_info_section reply = All-section_loop (lines reply) [] tt

listed-left :
    (l r : List String) (name : String) → listed l name ≡ true → listed (l ++ r) name ≡ true
listed-left l r name h = rw (any-append (λ f. f == name) l r, h) refl

listed-right :
    (l r : List String) (name : String) → listed r name ≡ true → listed (l ++ r) name ≡ true
listed-right l r name h = rw (any-append (λ f. f == name) l r) (ground arith)

abbrev server_names : List String
server_names = map (shown_as "server") server_view_server_fields

abbrev memory_names : List String
memory_names = map (shown_as "memory") server_view_memory_fields

abbrev keyspace_names : List String
keyspace_names = map (shown_as "keyspace") server_view_keyspace_fields

server_covered :
    (field : String)
    → listed server_view_server_fields field ≡ true
    → listed view_names (shown_as "server" field) ≡ true
server_covered field h =
    listed-left server_names (memory_names ++ keyspace_names) (shown_as "server" field)
      (listed-map (shown_as "server") server_view_server_fields field h)

memory_covered :
    (field : String)
    → listed server_view_memory_fields field ≡ true
    → listed view_names (shown_as "memory" field) ≡ true
memory_covered field h =
    let name = shown_as "memory" field in
    listed-right server_names (memory_names ++ keyspace_names) name (
      listed-left memory_names keyspace_names name
        (listed-map (shown_as "memory") server_view_memory_fields field h))

keyspace_covered :
    (field : String)
    → listed server_view_keyspace_fields field ≡ true
    → listed view_names (shown_as "keyspace" field) ≡ true
keyspace_covered field h =
    let name = shown_as "keyspace" field in
    listed-right server_names (memory_names ++ keyspace_names) name (
      listed-right memory_names keyspace_names name
        (listed-map (shown_as "keyspace") server_view_keyspace_fields field h))

All-keyspace_loop :
    (parts : List String) (out : Fields) → All Allowed out → All Allowed (keyspace_loop parts out)
All-keyspace_loop [] out h = h
All-keyspace_loop (part ∷ rest) out h = All-keyspace_loop rest _ (
    All-take_field "keyspace" server_view_keyspace_fields keyspace_covered (split_once b'=' part)
      out h)

All-line_fields : (line : Option (String × String)) → All Allowed (line_fields line)
All-line_fields none = tt
All-line_fields (some (name, values)) = All-keyspace_loop (split b',' values) [] tt

All-parse_keyspace_line :
    (reply : String) (database : ℤ) → All Allowed (parse_keyspace_line reply database)
unfolding parse_keyspace_line
All-parse_keyspace_line reply database =
    elim (Option-cases (find_line (format ("db" ∷ show_ℤ database ∷ ":" ∷ [])) (lines reply))) [
      | inl missing ↦ rw (parse_keyspace_line, missing) tt
      | inr (line, found) ↦ rw (parse_keyspace_line, found) (All-line_fields (split_once b':' line))
    ]

-- A row of the view: an allowlisted name, and a value that fits a cell.
abbrev pub IsEntry : String × String → Type 0
IsEntry (name, value) = (listed view_names name ≡ true) × (count value ≤ max_cell)

-- The view is bounded to the allowlist, and its rows are in the order of the names.
pub record IsView (r : QueryResult) : Type 0 where
  pub entries : List (String × String)
  pub shown : r.untruncated_rows ≡ take max_rows (map field_row entries)
  pub allowed : All IsEntry entries
  pub sorted : IsSortedBy pair_leb entries

All-capped : (fields : Fields) → All Allowed fields → All IsEntry (map capped fields)
All-capped [] h = tt
All-capped ((name, value) ∷ rest) h = ((h.0, cap_cell-le value), All-capped rest h.1)

view_result-IsView :
    (fields : Fields) (elapsed : ℕ) → All Allowed fields → IsView (view_result fields elapsed)
unfolding view_result
view_result-IsView fields elapsed h = record {
  entries = sort_by pair_leb (map capped fields);
  shown = shown_eq_take (map field_row (sort_by pair_leb (map capped fields)));
  allowed = All-sort_by pair_leb IsEntry (map capped fields) (All-capped fields h);
  sorted = sort_by-IsSortedBy pair_leb pair_leb_total pair_leb_trans (map capped fields);
}

module _ {C B : Type 0} (crate : Crate C B) (this : RedisService) where
  read_section-Ends :
      (section : String) (race : Race) → Ends Anything (race_section crate this section race)
  read_section-Ends section Race.replied = query-Ends crate this _ _
  read_section-Ends section Race.unsent = raise-Ends _ Anything _
  read_section-Ends section Race.dropped =
      >>=-Ends Anything Anything (attempt (info crate this section)) _
        (attempt-Ends (info crate this section) (query-Ends crate this _ _))
        (λ answer any. raise-Ends _ Anything _)

  collect_fields-Ends :
      (races : String → Race) → Ends (All Allowed) (collect_fields crate this races)
  unfolding collect_fields read_section
  collect_fields-Ends races =
      let section = race_section crate this in
      >>=-Ends Anything (All Allowed) (section "server" (races "server")) _
        (read_section-Ends "server" (races "server"))
        (λ server any.
          >>=-Ends Anything (All Allowed) (section "memory" (races "memory")) _
            (read_section-Ends "memory" (races "memory"))
            (λ memory any.
              >>=-Ends Anything (All Allowed) (section "keyspace" (races "keyspace")) _
                (read_section-Ends "keyspace" (races "keyspace"))
                (λ keyspace any. pure-Ends _ (All Allowed) _ (
                  All-extend _ _ (All-parse_keyspace_line keyspace this.database) (
                    All-extend _ _
                      (All-parse_info_section "memory" server_view_memory_fields memory_covered
                        memory)
                      (All-extend _ []
                        (All-parse_info_section "server" server_view_server_fields server_covered
                          server)
                        tt))))))

  -- Whatever INFO answers, however the races with a cancellation end, and whether or not the session
  -- is open, the view ends with an error or with a table that shows nothing but allowlisted fields:
  -- each row is one of 17 names and a value of at most 300 characters, in the order of the names.
  pub server_view-IsView :
      (races : String → Race) (w : World C B)
      → HoldsAfter (λ r after. IsView r) (λ after. Unit) (server_view crate this races w)
  unfolding server_view
  server_view-IsView races w =
      let clock : World C B → ℕ = λ w. crate.now w.backend in
      let finish : ℕ → Fields → Action (World C B) QueryResult =
        λ start fields. gets clock >>= λ end. pure (view_result fields (end - start)) in
      Ends-run IsView (gets clock >>= λ start. collect_fields crate this races >>= finish start) w (
        >>=-Ends Anything IsView (gets clock)
          (λ start. collect_fields crate this races >>= finish start) (gets-Ends clock)
          (λ start any.
            >>=-Ends (All Allowed) IsView (collect_fields crate this races) (finish start)
              (collect_fields-Ends races)
              (λ fields allowed.
                >>=-Ends Anything IsView (gets clock)
                  (λ end. pure (view_result fields (end - start))) (gets-Ends clock)
                  (λ end any. pure-Ends _ IsView _ (view_result-IsView fields _ allowed)))))
