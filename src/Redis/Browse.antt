-- ===== src/Redis/Browse.antt =====
-- The keys table of src/redis_service.rs: `run_select` and `browse_page`.
pub mod Scan
pub mod Page
use redis_driver_for_per_wor.Prelude.{
  ℕ, zero, suc, ◌+◌, ◌-◌, ◌^◌, min, ℤ, pos, negsuc, Bool, true, false, List, [], ◌∷◌, ◌++◌, Option,
  none, some, String, if◌then◌else◌, length, take, drop, ltb,
}
use redis_driver_for_per_wor.Text.Decimal.{usize_limit}
use redis_driver_for_per_wor.Text.Signed.{parse_i64}
use redis_driver_for_per_wor.Text.Sort.{sort}
use redis_driver_for_per_wor.Dto.Result.{Cell, QueryResult, redis_metadata}
use redis_driver_for_per_wor.Reply.{finalize, max_rows}
use redis_driver_for_per_wor.Reply.Value.{
  Reply, Replies, int, bulk_string, no_replies, reply, show_ℤ,
}
use redis_driver_for_per_wor.Statement.{select_statement}
use redis_driver_for_per_wor.Redis.{Crate, RedisService, World}
use redis_driver_for_per_wor.Redis.Action.{Action, gets, out_of_fuel, pure, ◌>>=◌}
use redis_driver_for_per_wor.Redis.Previews.{array_items, scanned, fetch_preview}
use redis_driver_for_per_wor.Redis.Query.{query, value}

abbrev unwrap_or_zero : Option ℤ → ℤ
unwrap_or_zero none = pos 0
unwrap_or_zero (some c) = c

abbrev pub is_zero : ℤ → Bool
is_zero (pos zero) = true
is_zero _ = false

-- `skip(offset)`, and `take` of the limit if there is one.
abbrev pub page_of {ℓ} : {A : Type ℓ} → ℕ → Option ℕ → List A → List A
page_of offset none keys = drop offset keys
page_of offset (some limit) keys = take limit (drop offset keys)

-- `usize::saturating_add`
abbrev pub saturating_add : ℕ → ℕ → ℕ
saturating_add a b = min (a + b) (usize_limit - 1)

abbrev pub row_of : String → String × Option String → List Cell
row_of key (type_, preview) = some key ∷ some type_ ∷ preview ∷ []

abbrev pub scan_command : ℤ → List String
scan_command cursor = "SCAN" ∷ show_ℤ cursor ∷ "COUNT" ∷ "1000" ∷ []

-- The end of `run_select`, from the rows of the page and the number of the keys.
unfoldable pub select_result : ℕ → Option ℕ → ℕ → List (List Cell) → ℕ → QueryResult
unfolding finalize
select_result offset limit elapsed full_rows total =
    let shown = min (length full_rows) max_rows in
    let has_more = ltb (saturating_add offset shown) total in
    finalize ("key" ∷ "type" ∷ "value" ∷ []) full_rows elapsed has_more
      (some (select_statement offset limit)) (some (redis_metadata true false))

module _ {C B : Type 0} (crate : Crate C B) where
  open crate use {printers}
  open printers use {from_utf8_lossy}

  abbrev first_cursor : Replies → ℤ
  first_cursor (reply (int c) rest) = c
  first_cursor (reply (bulk_string b) rest) = unwrap_or_zero (parse_i64 (from_utf8_lossy b))
  first_cursor _ = pos 0

  -- The cursor of a SCAN reply; any other shape stops the scan.
  unfoldable pub next_cursor : Reply → ℤ
  next_cursor v = elim (array_items v) [ none ↦ pos 0 | some items ↦ first_cursor items ]

  abbrev texts : Replies → List String
  texts no_replies = []
  texts (reply (bulk_string b) rest) = from_utf8_lossy b ∷ texts rest
  texts (reply _ rest) = texts rest

  -- The keys of a SCAN reply.
  unfoldable pub batch_keys : Reply → List String
  batch_keys v = elim (scanned v) [ none ↦ [] | some batch ↦ texts batch ]

  module _ (this : RedisService) where
    -- The loop of SCAN calls, with the keys found so far.
    unfoldable pub scan_keys : ℕ → ℤ → List String → Action (World C B) (List String)
    unfolding next_cursor batch_keys
    scan_keys zero cursor keys = out_of_fuel
    scan_keys (suc fuel) cursor keys = do
      found ← query crate this value (scan_command cursor)
      if is_zero (next_cursor found)
          then pure (keys ++ batch_keys found)
          else scan_keys fuel (next_cursor found) (keys ++ batch_keys found)

    -- The loop over the page.
    unfoldable pub preview_rows : List String → Action (World C B) (List (List Cell))
    preview_rows [] = pure []
    preview_rows (key ∷ page) = do
      shown ← fetch_preview crate this key
      rows ← preview_rows page
      pure (row_of key shown ∷ rows)

    unfoldable pub browse_page : ℕ → ℕ → Option ℕ → Action (World C B) (List (List Cell) × ℕ)
    browse_page fuel offset limit = do
      keys ← scan_keys fuel (pos 0) []
      rows ← preview_rows (page_of offset limit (sort keys))
      pure (rows, length (sort keys))

    unfoldable pub run_select : ℕ → ℕ → Option ℕ → Action (World C B) QueryResult
    run_select fuel offset limit = do
      start ← gets (λ w. crate.now w.backend)
      (full_rows, total) ← browse_page fuel offset limit
      end ← gets (λ w. crate.now w.backend)
      pure (select_result offset limit (end - start) full_rows total)
