-- ===== src/Redis/Rows/Guard.antt =====
-- What an update of src/redis_service.rs has checked and done, whether it succeeds or fails.
use Prim.Native.String.{count}
use redis_driver_for_per_wor.Prelude.{
  ℕ, ◌≤◌, ◌≡◌, refl, inl, inr, ℤ, pos, is_positive, Bool, true, false, not, List, [], ◌∷◌, Option,
  none, some, String, ◌==◌, Result, ok, err, arith, ltb, Bool-cases,
}
use redis_driver_for_per_wor.Reply.{max_cell}
use redis_driver_for_per_wor.Reply.Value.{Reply}
use redis_driver_for_per_wor.Service.Errors.{ServiceError}
use redis_driver_for_per_wor.Redis.{Crate, RedisError, RedisService, World, slot_of}
use redis_driver_for_per_wor.Redis.Action.{Action, ◌>>=◌, ◌>>◌, pure, lift, reject_if}
use redis_driver_for_per_wor.Redis.Chain.{
  Triple, Holds, pure-Triple, >>=-Triple, reject_if-Triple, lifted-Triple, guard-Triple,
  either-Holds, with_connection-Triple,
}
use redis_driver_for_per_wor.Redis.Errors.{mapped}
use redis_driver_for_per_wor.Redis.Open.{IsOpen}
use redis_driver_for_per_wor.Redis.Query.{query, convert, with_connection}
use redis_driver_for_per_wor.Redis.Rows.{
  current_of, too_long, taken, not_a_string, editable, expected_value, checked_destination,
  free_destination, invoke,
}
use redis_driver_for_per_wor.Redis.Script.{Keyspace, run_script, update_script}
use redis_driver_for_per_wor.Redis.Script.Effect.{
  IsUpdate, Laws, Outcome, refused, applied, ready, run_script-Outcome,
}

at_most : (n limit : ℕ) → ltb limit n ≡ false → n ≤ limit
at_most n limit h = ground arith

-- The reply of a script with the keyspace that it leaves, as the crate hands it on.
abbrev pub script_reply :
    {K B : Type 0} → (String → RedisError) → (K → B) → Result String ℕ × K → Result RedisError ℤ × B
script_reply failure put (ok n, k) = (ok (pos n), put k)
script_reply failure put (err message, k) = (err (failure message), put k)

-- A server whose state holds a keyspace. Other clients may change the keyspace while the server
-- answers a read, by steps of `Interferes`; a script runs at once, as Redis documents.
pub record ScriptServer {C B K : Type 0} (crate : Crate C B) (conn : C) (redis : Keyspace K)
    : Type 1 where
  pub keyspace : B → K
  pub put : B → K → B
  pub failure : String → RedisError
  pub Interferes : K → K → Type 0
  pub interferes_refl : (k : K) → Interferes k k
  pub interferes_trans : (i j k : K) → Interferes i j → Interferes j k → Interferes i k
  pub keyspace_put : (b : B) (k : K) → keyspace (put b k) ≡ k
  pub type_reads :
      (key : String) (b : B)
      → Interferes (keyspace b) (keyspace (crate.query_async conn ("TYPE" ∷ key ∷ []) b).1)
  pub get_reads :
      (key : String) (b : B)
      → Interferes (keyspace b) (keyspace (crate.query_async conn ("GET" ∷ key ∷ []) b).1)
  pub exists_reads :
      (key : String) (b : B)
      → Interferes (keyspace b) (keyspace (crate.query_async conn ("EXISTS" ∷ key ∷ []) b).1)
  pub runs_script :
      (src dst want_value expected new_value : String) (b : B)
      → crate.invoke_async conn update_script src (dst ∷ want_value ∷ expected ∷ new_value ∷ []) b
        ≡ script_reply failure
            (put b)
            (run_script redis src dst want_value expected new_value (keyspace b))

-- A value that may be edited: its text, when it is short enough to be shown whole.
abbrev pub Fits : Option String → Option String → Type 0
Fits none expected = expected ≡ none
Fits (some new) expected =
    (current : String) × (expected ≡ some current) × (count current ≤ max_cell)

module _ {C B K : Type 0} (crate : Crate C B) (this : RedisService) (conn : C) (redis : Keyspace K)
    (server : ScriptServer crate conn redis) (k : K) where
  open server use {keyspace, put, Interferes}

  -- The session is open, and only other clients have changed the keyspace so far.
  abbrev pub Untouched : World C B → Type 0
  Untouched w = IsOpen this conn w × Interferes k (keyspace w.backend)

  module _ {D : Type 0} (Q : D → World C B → Type 0) where
    query-Triple :
        {A : Type 0} (f : Reply → Result RedisError A) (cmd : List String)
        (g : A → Action (World C B) D)
        → ((b : B) → Interferes (keyspace b) (keyspace (crate.query_async conn cmd b).1))
        → ((a : A) → Triple Untouched (g a) Q Untouched)
        → Triple Untouched (query crate this f cmd >>= g) Q Untouched
    unfolding query slot_of
    query-Triple f cmd g reads next =
        let call : C → B → Result RedisError _ × B = λ c b. convert f (crate.query_async c cmd b) in
        >>=-Triple Untouched (λ a. Untouched) Q Untouched (with_connection crate this call) g
          (with_connection-Triple crate this conn Untouched (λ a. Untouched) Untouched call
            (λ w p. p.0)
            (λ w (is_open, since).
              either-Holds Untouched _ _
                (is_open, server.interferes_trans k _ _ since (reads w.backend))))
          next

    check-Triple :
        (test : Bool) (e : ServiceError) (m : Action (World C B) D)
        → (test ≡ false → Triple Untouched m Q Untouched)
        → Triple Untouched (reject_if test e >> m) Q Untouched
    check-Triple = reject_if-Triple Untouched Q Untouched (λ w p. p)

    convert-Triple :
        {A : Type 0} (r : Result ServiceError A) (g : A → Action (World C B) D)
        → ((a : A) → r ≡ ok a → Triple Untouched (g a) Q Untouched)
        → Triple Untouched (lift r >>= g) Q Untouched
    convert-Triple = lifted-Triple Untouched Q Untouched (λ w p. p)

  editable-Triple :
      (key : String)
      → Triple Untouched
          (editable crate this key)
          (λ current w. Untouched w × (count current ≤ max_cell))
          Untouched
  unfolding editable
  editable-Triple key = query-Triple _ _ _ _ (server.type_reads key) (λ type_.
      check-Triple _ (not (type_ == "string")) (not_a_string key type_) _ (λ is_string.
        query-Triple _ _ _ _ (server.get_reads key) (λ found.
          convert-Triple _ (current_of crate this key found) _ (λ current read.
            check-Triple _ (ltb max_cell (count current)) (too_long key (count current)) _ (λ short.
              pure-Triple Untouched _ Untouched current (λ w p. (p, at_most _ _ short)))))))

  pub expected_value-Triple :
      (key : String) (new : Option String)
      → Triple Untouched
          (expected_value crate this key new)
          (λ expected w. Untouched w × Fits new expected)
          Untouched
  expected_value-Triple key none = pure-Triple Untouched _ Untouched none (λ w p. (p, refl))
  expected_value-Triple key (some new) =
      >>=-Triple Untouched _ _ Untouched (editable crate this key) (λ current. pure (some current))
        (editable-Triple key)
        (λ current.
          pure-Triple _ _ Untouched (some current) (λ w (p, short). (p, (current, refl, short))))

  pub checked_destination-Triple :
      (key destination : String)
      → Triple Untouched (checked_destination crate this key destination) (λ u. Untouched) Untouched
  unfolding free_destination
  checked_destination-Triple key destination = elim (Bool-cases (destination == key)) [
    | inl same ↦ rw same (pure-Triple Untouched (λ u. Untouched) Untouched tt (λ w p. p))
    | inr other ↦ rw other (
        query-Triple _ _ _ _ (server.exists_reads destination)
          (λ exists. guard-Triple Untouched (is_positive exists) (taken destination)))
  ]

  -- The script has applied the whole update, to the keyspace that it found.
  pub record Applied (src dst : String) (want_value : Bool) (expected new_value : String)
      (w : World C B) : Type 0 where
    pub found : K
    pub since : Interferes k found
    pub guarded : ready redis src dst want_value expected found ≡ true
    pub whole : IsUpdate redis src dst want_value new_value found (keyspace w.backend)

  module _ (laws : Laws redis) where
    outcome-Holds :
        (src dst : String) (want_value : Bool) (expected new_value : String) (w : World C B)
        (x : Result String ℕ × K)
        → Untouched w
        → Outcome redis src dst want_value expected new_value (keyspace w.backend) x
        → Holds
            (λ n after. (n ≡ pos 1) × Applied src dst want_value expected new_value after)
            Untouched
            (mapped "redis: " (script_reply server.failure (put w.backend) x).0)
            (record w { backend = (script_reply server.failure (put w.backend) x).1 })
    unfolding slot_of
    outcome-Holds src dst want_value expected new_value w x p (refused message r) =
        (p.0, rw (server.keyspace_put w.backend (keyspace w.backend)) p.1)
    outcome-Holds src dst want_value expected new_value w x p (applied after r u) = (
      refl,
      record {
        found = keyspace w.backend;
        since = p.1;
        guarded = r;
        whole = rw (server.keyspace_put w.backend after) u;
      },
    )

    pub invoke-Triple :
        (src dst want_value expected new_value : String)
        → Triple Untouched
            (invoke crate this src (dst ∷ want_value ∷ expected ∷ new_value ∷ []))
            (λ n after. (n ≡ pos 1) × Applied src dst (want_value == "1") expected new_value after)
            Untouched
    unfolding invoke
    invoke-Triple src dst want_value expected new_value =
        with_connection-Triple crate this conn Untouched _ Untouched
          (λ c b.
            crate.invoke_async c update_script src (dst ∷ want_value ∷ expected ∷ new_value ∷ []) b)
          (λ w p. p.0)
          (λ w p. rw (server.runs_script src dst want_value expected new_value w.backend) (
            outcome-Holds src dst (want_value == "1") expected new_value w _ p (
              run_script-Outcome redis laws src dst want_value expected new_value
                (keyspace w.backend))))
