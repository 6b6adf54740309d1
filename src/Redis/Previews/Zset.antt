-- ===== src/Redis/Previews/Zset.antt =====
-- The preview of a sorted set in src/redis_service.rs, on the flat shape of a ZRANGE reply.
use redis_driver_for_per_wor.Prelude.{ℕ, ◌-◌, ◌≡◌, refl, List, [], ◌∷◌, some, String, ok}
use redis_driver_for_per_wor.Text.Decimal.{show}
use redis_driver_for_per_wor.Json.{no_members, object}
use redis_driver_for_per_wor.Reply.Value.{Replies, array, reply, bulk_string}
use redis_driver_for_per_wor.Redis.{Crate, RedisService, World}
use redis_driver_for_per_wor.Redis.Open.{IsOpen}
use redis_driver_for_per_wor.Redis.Browse.Scan.{query_open}
use redis_driver_for_per_wor.Redis.Previews.{pairs_from_scan, preview_elements, preview_zset}

module _ {C B : Type 0} (crate : Crate C B) (this : RedisService) (conn : C) (key : String)
    (w : World C B) (after : B) where
  open crate use {query_async, printers}
  open printers use {json_to_string}

  abbrev zrange : List String
  zrange = "ZRANGE" ∷ key ∷ "0" ∷ show (preview_elements - 1) ∷ "WITHSCORES" ∷ []

  -- When an open session's server answers ZRANGE with the flat reply of RESP2, in which members and
  -- scores alternate, the preview of the sorted set is the text of the empty object, whatever members
  -- the set has.
  pub preview_zset_flat :
      (member score : List ℕ) (rest : Replies)
      → IsOpen this conn w
      → query_async conn zrange w.backend
        ≡ (ok (array (reply (bulk_string member) (reply (bulk_string score) rest))), after)
      → preview_zset crate this key w
        ≡ some (ok (some (json_to_string (object no_members))), record w { backend = after })
  unfolding preview_zset pairs_from_scan
  preview_zset_flat member score rest is_open e =
      rw (query_open crate this conn w zrange _ after is_open e) refl
