-- ===== src/Server/Tally.antt =====
-- Accounting of the requests of src/server.rs: what has been answered and what is still owed.
use redis_driver_for_per_wor.Prelude.{
  ℕ, zero, suc, ◌+◌, ◌≡◌, Bool, true, false, List, [], ◌∷◌, ◌++◌, Option, none, some, get_elem?,
  arith,
}
use redis_driver_for_per_wor.Json.{Number}
use redis_driver_for_per_wor.Protocol.{Response}
use redis_driver_for_per_wor.Server.{Server, Task}
use redis_driver_for_per_wor.Server.Steps.{asks}
use redis_driver_for_per_wor.Server.Schedule.{Event, remove_at}

abbrev pub bit : Bool → ℕ
bit true = 1
bit false = 0

-- How many elements pass the test.
unfoldable pub count {ℓ} : {A : Type ℓ} → (A → Bool) → List A → ℕ
count p [] = 0
count p (x ∷ xs) = bit (p x) + count p xs

module _ {ℓ} {A : Type ℓ} (p : A → Bool) where
  pub count-append : (xs ys : List A) → count p (xs ++ ys) ≡ count p xs + count p ys
  unfolding count
  count-append [] ys = omega arith
  count-append (x ∷ xs) ys = omega (arith, count-append xs ys)

  pub count-remove_at :
      (i : ℕ) (xs : List A) (x : A)
      → get_elem? xs i ≡ some x
      → count p xs ≡ bit (p x) + count p (remove_at i xs)
  unfolding count
  count-remove_at i [] x h = cc
  count-remove_at zero (y ∷ xs) x h = ground arith
  count-remove_at (suc i) (y ∷ xs) x h = omega (arith, count-remove_at i xs x h)

module _ {S W : Type 0} (p : Option Number → Bool) where
  -- The responses written, those queued and the tasks in flight, whose ids pass the test.
  unfoldable pub tally : Server S W → ℕ
  tally s =
      count (λ (r : Response). p r.id) s.sink.written
      + count (λ (r : Response). p r.id) s.sink.queue
      + count (λ (t : Task S). p (some t.id)) s.tasks

-- How many answers an event asks for, with an id that passes the test.
abbrev pub owed_by : (Option Number → Bool) → Option (Option Number) → ℕ
owed_by p none = 0
owed_by p (some id) = bit (p id)

unfoldable pub asked : {W : Type 0} → (Option Number → Bool) → List (Event W) → ℕ
asked p [] = 0
asked p (e ∷ events) = owed_by p (asks e) + asked p events
