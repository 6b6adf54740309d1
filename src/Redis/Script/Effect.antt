-- ===== src/Redis/Script/Effect.antt =====
-- The update script of src/redis_service.rs applies an update whole, or not at all.
use redis_driver_for_per_wor.Prelude.{
  ℕ, ◌≡◌, ◌⊎◌, inl, inr, refl, ap, Bool, true, false, not, ◌&&◌, ◌||◌, Option, some, String, ◌==◌,
  eq_iff, if◌then◌else◌, Result, ok, err, Bool-cases, arith, ◌∙◌,
}
use redis_driver_for_per_wor.Redis.Script.{
  Keyspace, is_value, run_script, script_guards, script_writes, unchanged_string,
}

different : (s t : String) → (s == t) ≡ false → (t == s) ≡ false
different s t h = ground (arith, eq_iff s t, eq_iff t s)

module _ {K : Type 0} (redis : Keyspace K) where
  open redis use {exists, type_, get, rename, set}

  -- What can be observed of a key.
  abbrev pub look : String → K → Bool × String × Option String
  look key k = (exists key k, type_ key k, get key k)

  -- What Redis documents of SET and RENAME.
  pub record Laws : Type 0 where
    pub set_same : (x v : String) (k : K) → look x (set x v k) ≡ (true, "string", some v)
    pub set_other : (x y v : String) (k : K) → (y == x) ≡ false → look y (set x v k) ≡ look y k
    pub rename_to :
        (x y : String) (k : K)
        → exists x k ≡ true
        → (y == x) ≡ false
        → look y (rename x y k) ≡ look x k
    pub rename_from :
        (x y : String) (k : K)
        → exists x k ≡ true
        → (y == x) ≡ false
        → exists x (rename x y k) ≡ false
    pub rename_other :
        (x y z : String) (k : K)
        → (z == x) ≡ false
        → (z == y) ≡ false
        → look z (rename x y k) ≡ look z k

  -- When the script accepts: the source exists, it holds the expected string if a value is wanted,
  -- and the destination is the source or free.
  abbrev pub ready : String → String → Bool → String → K → Bool
  ready src dst want_value expected k =
      exists src k
      && (not want_value || type_ src k == "string" && is_value (get src k) expected)
      && (dst == src || not (exists dst k))

  -- The whole update of one keyspace to another.
  pub record IsUpdate (src dst : String) (want_value : Bool) (new_value : String) (k after : K)
      : Type 0 where
    pub target :
        look dst after ≡ (if want_value then (true, "string", some new_value) else look src k)
    pub source : (dst == src) ≡ false → exists src after ≡ false
    pub others :
        (key : String) → (key == src) ≡ false → (key == dst) ≡ false → look key after ≡ look key k

  -- The script fails without a write, or it replies 1 and the update is whole.
  pub data Outcome (src dst : String) (want_value : Bool) (expected new_value : String) (k : K)
      : Result String ℕ × K → Type 0 where
    refused :
        (message : String)
        → ready src dst want_value expected k ≡ false
        → Outcome src dst want_value expected new_value k (err message, k)
    applied :
        (after : K)
        → ready src dst want_value expected k ≡ true
        → IsUpdate src dst want_value new_value k after
        → Outcome src dst want_value expected new_value k (ok 1, after)

  -- A check that passes exactly when the test holds.
  abbrev Checks : Result String (Unit {0}) → Bool → Type 0
  Checks check test =
      ((check ≡ ok tt) × (test ≡ true))
      ⊎ ((message : String) × (check ≡ err message) × (test ≡ false))

  unchanged_string-Checks :
      (src expected : String) (k : K)
      → Checks
          (unchanged_string redis src expected k)
          (type_ src k == "string" && is_value (get src k) expected)
  unfolding unchanged_string
  unchanged_string-Checks src expected k = elim (Bool-cases (type_ src k == "string")) [
    | inr other ↦ rw other (inr (_, refl, refl))
    | inl text ↦ elim (Bool-cases (is_value (get src k) expected)) [
      | inl same ↦ rw (text, same) (inl (refl, refl))
      | inr changed ↦ rw (text, changed) (inr (_, refl, refl))
    ]
  ]

  wanted-Checks :
      (src expected : String) (want_value : Bool) (k : K)
      → Checks
          (if want_value then unchanged_string redis src expected k else ok tt)
          (not want_value || type_ src k == "string" && is_value (get src k) expected)
  wanted-Checks src expected true k = unchanged_string-Checks src expected k
  wanted-Checks src expected false k = inl (refl, refl)

  script_guards-ready :
      (src dst : String) (want_value : Bool) (expected : String) (k : K)
      → Checks
          (script_guards redis src dst want_value expected k)
          (ready src dst want_value expected k)
  unfolding script_guards
  script_guards-ready src dst want_value expected k = elim (Bool-cases (exists src k)) [
    | inr missing ↦ rw missing (inr (_, refl, refl))
    | inl found ↦ elim (wanted-Checks src expected want_value k) [
      | inr (message, failed, test) ↦ rw (found, failed, test) (inr (_, refl, refl))
      | inl (passed, test) ↦ elim (Bool-cases (dst == src)) [
        | inl same ↦ rw (found, passed, test, same) (inl (refl, refl))
        | inr other ↦ elim (Bool-cases (exists dst k)) [
          | inl busy ↦ rw (found, passed, test, other, busy) (inr (_, refl, refl))
          | inr free ↦ rw (found, passed, test, other, free) (inl (refl, refl))
        ]
      ]
    ]
  ]

  script_writes-IsUpdate :
      Laws
      → (src dst : String) (want_value : Bool) (new_value : String) (k : K) → exists src k ≡ true
      → IsUpdate src dst want_value new_value k (script_writes redis src dst want_value new_value k)
  unfolding script_writes
  script_writes-IsUpdate laws src dst true v k e = elim (Bool-cases (dst == src)) [
    | inl same ↦ rw same (record {
      target = laws.set_same dst v k;
      source = λ other. absurd cc;
      others = λ key a b. laws.set_other dst key v k b;
    })
    | inr moved ↦ rw moved (record {
      target = laws.set_same dst v (rename src dst k);
      source = λ other.
          ap (λ o. o.0) (laws.set_other dst src v _ (different dst src moved))
          ∙ laws.rename_from src dst k e moved;
      others = λ key a b. laws.set_other dst key v _ b ∙ laws.rename_other src dst key k a b;
    })
  ]
  script_writes-IsUpdate laws src dst false v k e = elim (Bool-cases (dst == src)) [
    | inl same ↦ rw same (record {
      target = ap (λ x. look x k) ((eq_iff dst src).0 same);
      source = λ other. absurd cc;
      others = λ key a b. refl;
    })
    | inr moved ↦ rw moved (record {
      target = laws.rename_to src dst k e moved;
      source = λ other. laws.rename_from src dst k e moved;
      others = λ key a b. laws.rename_other src dst key k a b;
    })
  ]

  -- On a keyspace whose SET and RENAME do what Redis documents, the script replies 1 and has applied
  -- the whole update if the source exists, holds the expected string when a new value is wanted, and
  -- the destination is the source or free; otherwise it fails and writes nothing.
  pub run_script-Outcome :
      Laws
      → (src dst want_value expected new_value : String) (k : K)
      → Outcome src dst
          (want_value == "1")
          expected
          new_value
          k
          (run_script redis src dst want_value expected new_value k)
  unfolding run_script
  run_script-Outcome laws src dst want_value expected new_value k =
      elim (script_guards-ready src dst (want_value == "1") expected k) [
        | inl (accepted, r) ↦
            rw (run_script, accepted)
              (applied _ r (
                script_writes-IsUpdate laws src dst (want_value == "1") new_value k (ground arith)))
        | inr (message, failed, r) ↦ rw (run_script, failed) (refused message r)
      ]
