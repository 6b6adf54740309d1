-- ===== src/Redis/Rows/Update.antt =====
-- The whole `update_row` of src/redis_service.rs: an update is applied whole, or not at all.
use redis_driver_for_per_wor.Prelude.{
  ℕ, ◌≡◌, refl, ap, subst, to_ℕ, Bool, true, false, ◌∷◌, Option, String, ◌==◌, if◌then◌else◌,
}
use redis_driver_for_per_wor.Statement.{is_some}
use redis_driver_for_per_wor.Redis.{Crate, RedisService, World}
use redis_driver_for_per_wor.Redis.Chain.{
  HoldsAfter, Triple, Triple-run, fact-Triple, pure-Triple, >>=-Triple,
}
use redis_driver_for_per_wor.Redis.Guidance.{render_command}
use redis_driver_for_per_wor.Redis.Rows.{
  checked_destination, expected_value, invoke, script_args, unwrap_or, update_row,
}
use redis_driver_for_per_wor.Redis.Rows.Guard.{
  Applied, Fits, ScriptServer, Untouched, checked_destination-Triple, expected_value-Triple,
  invoke-Triple,
}
use redis_driver_for_per_wor.Redis.Script.{Keyspace, update_script}
use redis_driver_for_per_wor.Redis.Script.Effect.{Laws}

flag : Bool → String
flag wanted = if wanted then "1" else "0"

flag_read : (wanted : Bool) → ((if wanted then "1" else "0") == "1") ≡ wanted
flag_read true = refl
flag_read false = refl

module _ {C B K : Type 0} (crate : Crate C B) (this : RedisService) (conn : C) (redis : Keyspace K)
    (server : ScriptServer crate conn redis) (k : K) where
  -- What a successful update reports, and what it has done.
  pub record IsUpdated (key : String) (rename_to new : Option String) (report : ℕ × String)
      (w : World C B) : Type 0 where
    pub affected : report.0 ≡ 1
    pub expected : Option String
    pub editable : Fits new expected
    pub statement :
        report.1
        ≡ render_command crate.quote (
            "EVAL" ∷ update_script ∷ "1" ∷ key ∷ script_args (unwrap_or rename_to key) expected new)
    pub applied :
        Applied crate this conn redis server k key
          (unwrap_or rename_to key)
          (is_some new)
          (unwrap_or expected "")
          (unwrap_or new "")
          w

  update_row-Triple :
      Laws redis
      → (key : String) (rename_to new : Option String)
      → Triple
          (Untouched crate this conn redis server k)
          (update_row crate this key rename_to new)
          (IsUpdated key rename_to new)
          (Untouched crate this conn redis server k)
  unfolding update_row flag
  update_row-Triple laws key rename_to new =
      let U = Untouched crate this conn redis server k in
      let destination = unwrap_or rename_to key in
      let Q = IsUpdated key rename_to new in
      >>=-Triple U _ Q U (expected_value crate this key new) _
        (expected_value-Triple crate this conn redis server k key new)
        (λ expected. fact-Triple U _ Q U _ (λ fits.
          >>=-Triple U (λ u. U) Q U (checked_destination crate this key destination) _
            (checked_destination-Triple crate this conn redis server k key destination)
            (λ u.
              >>=-Triple U _ Q U (invoke crate this key (script_args destination expected new)) _
                (invoke-Triple crate this conn redis server k laws key destination
                  (flag (is_some new)) (unwrap_or expected "") (unwrap_or new ""))
                (λ affected. pure-Triple _ Q U _ (λ w (one, done). record {
                  affected = ap to_ℕ one;
                  expected = expected;
                  editable = fits;
                  statement = refl;
                  applied =
                      subst
                        (λ wanted.
                          Applied crate this conn redis server k key destination wanted
                            (unwrap_or expected "") (unwrap_or new "") w)
                        (flag_read (is_some new)) done;
                })))))

  -- On an open session, with a server that runs the script at once and otherwise lets other clients in
  -- between, an update ends. If it succeeds, it reports one affected row and the exact EVAL command;
  -- and to the keyspace that the script found, which only others had changed, it was applied whole: the
  -- source existed, and the destination was the source or free; with a new value, the source held
  -- exactly the string that was validated before, of at most 300 characters. If it fails, only others
  -- have changed the keyspace.
  pub update_row-IsUpdated :
      Laws redis
      → (key : String) (rename_to new : Option String) (w : World C B)
      → Untouched crate this conn redis server k w
      → HoldsAfter
          (IsUpdated key rename_to new)
          (Untouched crate this conn redis server k)
          (update_row crate this key rename_to new w)
  update_row-IsUpdated laws key rename_to new w h =
      Triple-run _ _ _ _ w (update_row-Triple laws key rename_to new) h
