-- ===== src/Redis/Browse/Page.antt =====
-- The page that `browse_page` and `run_select` of src/redis_service.rs show.
use mathlib.Core.List.{Perm}
use redis_driver_for_per_wor.Prelude.{
  ℕ, zero, suc, ◌+◌, ◌-◌, ◌≤◌, ◌<◌, ◌≡◌, ◌↔◌, refl, sym, ap, pos, Bool-cases, ◌==◌, true, List, [],
  ◌∷◌, some, Option, none, String, take, ok, err, arith, length, length-take, map, min, inl, inr,
  Result, ltb,
}
use redis_driver_for_per_wor.Text.Decimal.{usize_limit}
use redis_driver_for_per_wor.Text.Sort.{length-sort, sort, sort_of_Perm}
use redis_driver_for_per_wor.Dto.Result.{Cell, QueryResult}
use redis_driver_for_per_wor.Reply.{max_rows}
use redis_driver_for_per_wor.Reply.Bounds.{shown_eq_take}
use redis_driver_for_per_wor.Reply.Value.{Reply}
use redis_driver_for_per_wor.Service.Errors.{ServiceError}
use redis_driver_for_per_wor.Redis.{Crate, RedisService, World}
use redis_driver_for_per_wor.Redis.{slot_of}
use redis_driver_for_per_wor.Redis.Open.{IsOpen}
use redis_driver_for_per_wor.Redis.Gives.{Any, Gives, pure-Gives, >>=-Gives, attempt-query-Gives}
use redis_driver_for_per_wor.Redis.Action.{pure, ◌>>=◌}
use redis_driver_for_per_wor.Redis.Previews.{
  preview_for, fetch_preview, preview_of, preview_string, preview_hash, preview_list, preview_set,
  preview_zset,
}
use redis_driver_for_per_wor.Redis.Browse.{
  browse_page, page_of, saturating_add, preview_rows, row_of, run_select, select_result,
}
use redis_driver_for_per_wor.Redis.Browse.Scan.{Iteration, all_keys, scan_keys-Iteration}

-- The first cell of a row.
abbrev first_cell : List Cell → Cell
first_cell [] = none
first_cell (c ∷ row) = c

abbrev Shows : List String → List (List Cell) → Type 0
Shows page rows = map first_cell rows ≡ map some page

-- What a page shows of the keys: their names in order, at most 500 of them, and whether there are
-- more.
pub record IsPage (offset : ℕ) (limit : Option ℕ) (keys : List String) (r : QueryResult)
    : Type 0 where
  pub names :
      map first_cell r.untruncated_rows ≡ map some (take max_rows (page_of offset limit keys))
  pub more : (r.has_more ≡ true) ↔ (offset + length r.untruncated_rows < length keys)

take-map_first :
    (n : ℕ) (rows : List (List Cell)) → map first_cell (take n rows) ≡ take n (map first_cell rows)
take-map_first zero rows = refl
take-map_first (suc n) [] = refl
take-map_first (suc n) (row ∷ rows) = ap (λ r. first_cell row ∷ r) (take-map_first n rows)

take-map_some : (n : ℕ) (keys : List String) → take n (map some keys) ≡ map some (take n keys)
take-map_some zero keys = refl
take-map_some (suc n) [] = refl
take-map_some (suc n) (key ∷ keys) = ap (λ r. some key ∷ r) (take-map_some n keys)

ltb-saturating_add :
    (offset n total : ℕ)
    → total < usize_limit
    → (ltb (saturating_add offset n) total ≡ true) ↔ (offset + n < total)
ltb-saturating_add offset n total h = ground arith

select_result-IsPage :
    (offset : ℕ) (limit : Option ℕ) (elapsed : ℕ) (rows : List (List Cell)) (keys : List String)
    → Shows (page_of offset limit keys) rows
    → length keys < usize_limit
    → IsPage offset limit keys (select_result offset limit elapsed rows (length keys))
unfolding select_result
select_result-IsPage offset limit elapsed rows keys shows small = record {
  names = rw (shown_eq_take rows, take-map_first max_rows rows, shows) (take-map_some max_rows _);
  more = rw (shown_eq_take rows) (
      let shown : length (take max_rows rows) ≡ min (length rows) max_rows =
        omega (arith, length-take max_rows rows) in
      rw shown (ltb-saturating_add offset (min (length rows) max_rows) (length keys) small));
}

module _ {C B : Type 0} (crate : Crate C B) (this : RedisService) (conn : C) where
  module _ (w : World C B) (key : String) (is_open : IsOpen this conn w) where
    preview_string-Gives : Gives w Any (preview_string crate this key)
    unfolding preview_string
    preview_string-Gives =
        attempt-query-Gives Any crate this conn _ _ _ w is_open (λ got after. pure-Gives Any _ _ tt)

    preview_hash-Gives : Gives w Any (preview_hash crate this key)
    unfolding preview_hash
    preview_hash-Gives =
        attempt-query-Gives Any crate this conn _ _ _ w is_open (λ got after. pure-Gives Any _ _ tt)

    preview_list-Gives : Gives w Any (preview_list crate this key)
    unfolding preview_list
    preview_list-Gives =
        attempt-query-Gives Any crate this conn _ _ _ w is_open (λ got after. pure-Gives Any _ _ tt)

    preview_set-Gives : Gives w Any (preview_set crate this key)
    unfolding preview_set
    preview_set-Gives =
        attempt-query-Gives Any crate this conn _ _ _ w is_open (λ got after. pure-Gives Any _ _ tt)

    preview_zset-Gives : Gives w Any (preview_zset crate this key)
    unfolding preview_zset
    preview_zset-Gives =
        attempt-query-Gives Any crate this conn _ _ _ w is_open (λ got after. pure-Gives Any _ _ tt)

    preview_of-Gives : (type_ : String) → Gives w Any (preview_of crate this type_ key)
    unfolding preview_of
    preview_of-Gives type_ = elim (Bool-cases (type_ == "string")) [
      | inl e ↦ rw e preview_string-Gives
      | inr n ↦ rw n (elim (Bool-cases (type_ == "hash")) [
        | inl e ↦ rw e preview_hash-Gives
        | inr n ↦ rw n (elim (Bool-cases (type_ == "list")) [
          | inl e ↦ rw e preview_list-Gives
          | inr n ↦ rw n (elim (Bool-cases (type_ == "set")) [
            | inl e ↦ rw e preview_set-Gives
            | inr n ↦ rw n (elim (Bool-cases (type_ == "zset")) [
              | inl e ↦ rw e preview_zset-Gives
              | inr n ↦ rw n (pure-Gives Any w none tt)
            ])
          ])
        ])
      ])
    ]

  preview_for-Gives :
      (w : World C B) (key : String) (got : Result ServiceError String)
      → IsOpen this conn w
      → Gives w Any (preview_for crate this key got)
  preview_for-Gives w key (err e) is_open = pure-Gives Any w ("unknown", none) tt
  preview_for-Gives w key (ok type_) is_open =
      >>=-Gives Any Any w (preview_of crate this type_ key) (λ preview. pure (type_, preview))
        (preview_of-Gives w key is_open type_)
        (λ preview after p. pure-Gives Any _ (type_, preview) tt)

  fetch_preview-Gives :
      (w : World C B) (key : String)
      → IsOpen this conn w
      → Gives w Any (fetch_preview crate this key)
  unfolding fetch_preview slot_of
  fetch_preview-Gives w key is_open =
      attempt-query-Gives Any crate this conn _ _ (preview_for crate this key) w is_open
        (λ got after. preview_for-Gives (record w { backend = after }) key got is_open)

  -- A row for each key of the page, that shows the key first.
  preview_rows-Gives :
      (page : List String) (w : World C B)
      → IsOpen this conn w
      → Gives w (Shows page) (preview_rows crate this page)
  unfolding preview_rows slot_of
  preview_rows-Gives [] w is_open = pure-Gives (Shows []) w [] refl
  preview_rows-Gives (key ∷ page) w is_open =
      >>=-Gives Any (Shows (key ∷ page)) w (fetch_preview crate this key)
        (λ shown. preview_rows crate this page >>= λ rows. pure (row_of key shown ∷ rows))
        (fetch_preview-Gives w key is_open)
        (λ shown after p.
          >>=-Gives (Shows page) (Shows (key ∷ page)) (record w { backend = after })
            (preview_rows crate this page) (λ rows. pure (row_of key shown ∷ rows))
            (preview_rows-Gives page (record w { backend = after }) is_open)
            (λ rows later e.
              pure-Gives (Shows (key ∷ page)) _ (row_of key shown ∷ rows)
                (ap (λ r. some key ∷ r) e)))

  browse_page-Gives :
      (w : World C B) (replies : List Reply) (after : B) (fuel offset : ℕ) (limit : Option ℕ)
      → IsOpen this conn w
      → Iteration crate conn replies (pos 0) w.backend after
      → length replies ≤ fuel
      → Gives w
          (λ page.
            Shows (page_of offset limit (sort (all_keys crate replies))) page.0
            × (page.1 ≡ length (sort (all_keys crate replies))))
          (browse_page crate this fuel offset limit)
  unfolding browse_page slot_of
  browse_page-Gives w replies after fuel offset limit is_open iteration h =
      let keys = sort (all_keys crate replies) in
      let (rows, later, e, shows) =
        preview_rows-Gives (page_of offset limit keys) (record w { backend = after }) is_open in
      (
        (rows, length keys),
        later,
        rw
            (
              scan_keys-Iteration crate this conn w replies (pos 0) w.backend after fuel [] is_open
                  iteration h,
              e,
            )
            refl,
        (shows, refl),
      )

  -- On an open session, whose server ends the iteration of its keyspace after at most as many SCAN
  -- replies as there is fuel, the SELECT gives a result, whatever the reads of the previews answer:
  -- the names on the page are the sorted keys from the offset on, at most as many as the limit and
  -- 500, and there are more exactly when keys are left after them. It does not depend on the order in
  -- which the server gave the keys.
  pub run_select-Iteration :
      (w : World C B) (replies : List Reply) (after : B) (keys : List String) (fuel offset : ℕ)
      (limit : Option ℕ)
      → IsOpen this conn w
      → Iteration crate conn replies (pos 0) w.backend after
      → length replies ≤ fuel
      → Perm (all_keys crate replies) keys
      → length keys < usize_limit
      → Gives w (IsPage offset limit (sort keys)) (run_select crate this fuel offset limit)
  unfolding run_select
  run_select-Iteration w replies after keys fuel offset limit is_open iteration h perm small =
      let ((rows, total), later, e, (shows, count)) =
        browse_page-Gives w replies after fuel offset limit is_open iteration h in
      let same = sort_of_Perm (all_keys crate replies) keys perm in
      (
        select_result offset limit (crate.now later - crate.now w.backend) rows total,
        later,
        rw e refl,
        rw (count, same)
            (select_result-IsPage offset limit _ rows (sort keys) (rw (sym same) shows)
              (rw length-sort small)),
      )
