-- ===== src/Memory/Listing.antt =====
-- The browse of the in-memory service in src/service.rs lists a store in the order of its keys.
use redis_driver_for_per_wor.Prelude.{
  ◌≡◌, refl, ◌∙◌, Bool, true, not, ◌&&◌, List, [], ◌∷◌, none, some, String, ◌==◌, eq_iff,
  if◌then◌else◌, map, take, drop, length, All, ok, inl, inr, Bool-cases, arith,
}
use redis_driver_for_per_wor.Text.Map.{IsDistinct, Map, get}
use redis_driver_for_per_wor.Text.Order.{text_leb}
use redis_driver_for_per_wor.Text.Sort.{insert_by, sort_by}
use redis_driver_for_per_wor.Text.SortBy.{
  IsSortedBy, pair_leb, pair_leb_total, pair_leb_trans, sort_by-IsSortedBy,
}
use redis_driver_for_per_wor.Dto.Request.{BrowseTableRequest}
use redis_driver_for_per_wor.Dto.Result.{BrowseOptions, QueryResult}
use redis_driver_for_per_wor.Service.Handlers.{Serde}
use redis_driver_for_per_wor.Memory.{MemoryService, Stores, store_of, stub_result}
use redis_driver_for_per_wor.Memory.Distinct.{AllDistinct, lookup-IsDistinct, run-AllDistinct}
use redis_driver_for_per_wor.Memory.Rows.{browse_entries, entry_row, limit_or, offset_or_zero}
use redis_driver_for_per_wor.Memory.Service.{memory_factory, memory_service}
use redis_driver_for_per_wor.Server.{Server}
use redis_driver_for_per_wor.Server.Schedule.{Event, run}
use redis_driver_for_per_wor.Server.World.{Leaves}

get-insert_by :
    (k v key : String) (m : Map)
    → get k m ≡ none
    → get key (insert_by pair_leb (k, v) m) ≡ (if k == key then some v else get key m)
unfolding get insert_by
get-insert_by k v key [] h = refl
get-insert_by k v key ((j, u) ∷ m) h = elim (Bool-cases (pair_leb (k, v) (j, u))) [
  | inl le ↦ rw (insert_by, le) refl
  | inr gt ↦
      rw (insert_by, gt)
        (ground (arith, get-insert_by k v key m, eq_iff j key, eq_iff k key, eq_iff j k, h))
]

insert_by-IsDistinct :
    (k v : String) (m : Map)
    → get k m ≡ none
    → IsDistinct m
    → IsDistinct (insert_by pair_leb (k, v) m)
unfolding get insert_by
insert_by-IsDistinct k v [] h d = (refl, tt)
insert_by-IsDistinct k v ((j, u) ∷ m) h d = elim (Bool-cases (pair_leb (k, v) (j, u))) [
  | inl le ↦ rw (insert_by, le) (h, d)
  | inr gt ↦
      let later : get k m ≡ none = ground arith in
      rw (insert_by, gt)
        (
          ground (arith, get-insert_by k v j m later, eq_iff j k, eq_iff k j, d.0, h),
          insert_by-IsDistinct k v m later d.1,
        )
]

-- What sorting keeps of the entries.
record Sorts (m sorted : Map) : Type 0 where
  holds : (key : String) → get key sorted ≡ get key m
  distinct : IsDistinct sorted

sort_by-Sorts : (m : Map) → IsDistinct m → Sorts m (sort_by pair_leb m)
unfolding get sort_by
sort_by-Sorts [] d = record { holds = λ key. refl; distinct = tt }
sort_by-Sorts ((k, v) ∷ m) d =
    let record { holds = holds; distinct = distinct } = sort_by-Sorts m d.1 in
    let fresh : get k (sort_by pair_leb m) ≡ none = holds k ∙ d.0 in
    record {
      holds = λ key. ground (arith, get-insert_by k v key (sort_by pair_leb m) fresh, holds key);
      distinct = insert_by-IsDistinct k v (sort_by pair_leb m) fresh distinct;
    }

-- One key is strictly before another.
abbrev below : String → String → Bool
below s t = text_leb s t && not (s == t)

-- Each key is strictly before all that follow it.
abbrev pub IsAscending : Map → Type 0
IsAscending [] = Unit
IsAscending ((k, v) ∷ m) =
    All (λ (entry : String × String). below k entry.0 ≡ true) m × IsAscending m

All-below :
    (k v : String) (m : Map)
    → get k m ≡ none
    → All (λ (entry : String × String). pair_leb (k, v) entry ≡ true) m
    → All (λ (entry : String × String). below k entry.0 ≡ true) m
unfolding get
All-below k v [] fresh h = tt
All-below k v ((j, u) ∷ m) fresh h =
    (ground (arith, eq_iff j k, eq_iff k j, h.0), All-below k v m (ground arith) h.1)

IsSortedBy-IsAscending : (m : Map) → IsDistinct m → IsSortedBy pair_leb m → IsAscending m
IsSortedBy-IsAscending [] d h = tt
IsSortedBy-IsAscending ((k, v) ∷ m) d h =
    (All-below k v m d.0 h.0, IsSortedBy-IsAscending m d.1 h.1)

-- The result is the page of the entries of the store, each key once and in ascending order.
pub record IsListing (options : BrowseOptions) (m : Map) (result : QueryResult) : Type 0 where
  pub entries : Map
  pub holds : (key : String) → get key entries ≡ get key m
  pub ascending : IsAscending entries
  pub page :
      result
      ≡ stub_result
          ("key" ∷ "value" ∷ [])
          (map entry_row (
            take
              (limit_or options.limit (length entries))
              (drop (offset_or_zero options.offset) entries)))
          0

browse_entries-IsListing :
    (options : BrowseOptions) (m : Map)
    → IsDistinct m
    → IsListing options m (browse_entries options m)
unfolding browse_entries
browse_entries-IsListing options m d =
    let record { holds = holds; distinct = distinct } = sort_by-Sorts m d in
    record {
      entries = sort_by pair_leb m;
      holds = holds;
      ascending =
          IsSortedBy-IsAscending (sort_by pair_leb m) distinct
            (sort_by-IsSortedBy pair_leb pair_leb_total pair_leb_trans m);
      page = refl;
    }

-- After every run of the server on the in-memory service that starts from stores with one entry per
-- key, a browse of any session succeeds, and shows the page asked for of the listing of its store: every
-- key that is held, once, in ascending order, with the value that it holds. It needs the dropped
-- handlers to leave one entry per key as well.
pub run-IsListing :
    (serde : Serde) (cancelled : Bool) (events : List (Event Stores))
    (s : Server MemoryService Stores) (this : MemoryService) (request : BrowseTableRequest)
    → All (Leaves AllDistinct) events
    → AllDistinct s.world
    → let later = (run memory_factory (memory_service cancelled) serde events s).world in
      (result : QueryResult) × (((memory_service cancelled).browse_table request this later).0
        ≡ ok result)
      × IsListing request.options (store_of this later) result
unfolding memory_service store_of
run-IsListing serde cancelled events s this request left distinct =
    let later = (run memory_factory (memory_service cancelled) serde events s).world in
    (
      browse_entries request.options (store_of this later),
      refl,
      browse_entries-IsListing request.options (store_of this later) (
          lookup-IsDistinct this.store later.stores
            (run-AllDistinct serde cancelled events s left distinct)),
    )
