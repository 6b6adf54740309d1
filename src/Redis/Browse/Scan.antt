-- ===== src/Redis/Browse/Scan.antt =====
-- The SCAN loop of src/redis_service.rs ends with the server's iteration, and collects it whole.
use redis_driver_for_per_wor.Prelude.{
  ℕ, zero, suc, ◌≤◌, ◌≡◌, refl, sym, ℤ, true, false, List, [], ◌∷◌, ◌++◌, some, String, ok, arith,
  length,
}
use redis_driver_for_per_wor.Reply.Value.{Reply}
use redis_driver_for_per_wor.Redis.{Crate, RedisService, World, slot_of}
use redis_driver_for_per_wor.Redis.Open.{IsOpen, with_connection_open}
use redis_driver_for_per_wor.Redis.Query.{query, convert, value}
use redis_driver_for_per_wor.Redis.Browse.{
  scan_keys, next_cursor, batch_keys, is_zero, scan_command,
}
use mathlib.Core.List.{append_assoc, append-nil}

module _ {C B : Type 0} (crate : Crate C B) where
  open crate use {query_async}

  -- The server answers the SCAN calls from the cursor with these replies, the last with cursor 0.
  pub data Iteration (conn : C) : List Reply → ℤ → B → B → Type 0 where
    last :
        (found : Reply) (cursor : ℤ) (b after : B)
        → query_async conn (scan_command cursor) b ≡ (ok found, after)
        → is_zero (next_cursor crate found) ≡ true
        → Iteration conn (found ∷ []) cursor b after
    more :
        (found : Reply) (replies : List Reply) (cursor : ℤ) (b next after : B)
        → query_async conn (scan_command cursor) b ≡ (ok found, next)
        → is_zero (next_cursor crate found) ≡ false
        → Iteration conn replies (next_cursor crate found) next after
        → Iteration conn (found ∷ replies) cursor b after

  -- The keys that the replies carry, in their order.
  abbrev pub all_keys : List Reply → List String
  all_keys [] = []
  all_keys (found ∷ replies) = batch_keys crate found ++ all_keys replies

  module _ (this : RedisService) (conn : C) where
    pub query_open :
        (w : World C B) (cmd : List String) (v : Reply) (after : B)
        → IsOpen this conn w
        → query_async conn cmd w.backend ≡ (ok v, after)
        → query crate this value cmd w ≡ some (ok v, record w { backend = after })
    unfolding query
    query_open w cmd v after is_open e =
        rw
          (
            with_connection_open crate this (λ c b. convert value (query_async c cmd b)) conn w
                is_open,
            e,
          )
          refl

    -- Fuel for as many replies as the server gives is enough.
    pub scan_keys-Iteration :
        (w : World C B) (replies : List Reply) (cursor : ℤ) (b after : B) (fuel : ℕ)
        (keys : List String)
        → IsOpen this conn w
        → Iteration conn replies cursor b after
        → length replies ≤ fuel
        → scan_keys crate this fuel cursor keys (record w { backend = b })
          ≡ some (ok (keys ++ all_keys replies), record w { backend = after })
    unfolding scan_keys slot_of
    scan_keys-Iteration w replies cursor b after zero keys is_open (last found _ _ _ e z) h =
        absurd (omega arith)
    scan_keys-Iteration w replies cursor b after (suc fuel) keys is_open (last found _ _ _ e z) h =
        rw (query_open (record w { backend = b }) (scan_command cursor) found after is_open e, z)
          (rw append-nil refl)
    scan_keys-Iteration w replies cursor b after zero keys is_open
          (more found rest _ _ next _ e z i) h =
        absurd (omega arith)
    scan_keys-Iteration w replies cursor b after (suc fuel) keys is_open
          (more found rest _ _ next _ e z i) h =
        rw (query_open (record w { backend = b }) (scan_command cursor) found next is_open e, z)
          (rw (sym (append_assoc keys (batch_keys crate found) (all_keys rest))) (
            scan_keys-Iteration w rest (next_cursor crate found) next after fuel
              (keys ++ batch_keys crate found) is_open i (omega arith)))
