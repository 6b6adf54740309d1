-- ===== src/Redis/Guidance/Failure.antt =====
-- The advice on a WRONGTYPE failure in src/redis_service.rs adds to the failure, and nothing more.
use redis_driver_for_per_wor.Prelude.{
  ◌≡◌, ◌⊎◌, inl, inr, refl, true, List, [], ◌∷◌, Option, none, some, String, Bool-cases, Result, ok,
  err,
}
use redis_driver_for_per_wor.Service.Errors.{ServiceError}
use redis_driver_for_per_wor.Redis.{Crate, RedisService, World}
use redis_driver_for_per_wor.Redis.Action.{Action, keep}
use redis_driver_for_per_wor.Redis.Chain.{HoldsAfter}
use redis_driver_for_per_wor.Redis.Ends.{Anything, Ends-run, query-Ends}
use redis_driver_for_per_wor.Redis.Errors.{contains}
use redis_driver_for_per_wor.Redis.Guidance.{
  advised, attach_wrongtype_guidance, guidance_for, inspected, run_command_guided, subject,
  wrongtype_guidance,
}
use redis_driver_for_per_wor.Redis.Query.{query, run_command}

-- The same failure, with a hint and a suggestion only if it speaks of WRONGTYPE.
pub record IsAdvised (e advised_error : ServiceError) : Type 0 where
  pub code : advised_error.code ≡ e.code
  pub message : advised_error.message ≡ e.message
  pub kind : advised_error.kind ≡ e.kind
  pub wrong : (advised_error ≡ e) ⊎ (contains e.message "WRONGTYPE" ≡ true)

unadvised : (e : ServiceError) → IsAdvised e e
unadvised e = record { code = refl; message = refl; kind = refl; wrong = inl refl }

-- The action gives a result with the property.
abbrev Succeeds : {W A : Type 0} → (A → Type 0) → Action W A → W → Type 0
Succeeds {W} {A} Q m w = (a : A) × (after : W) × (m w ≡ some (ok a, after)) × Q a

module _ {W A : Type 0} where
  keep_ends :
      (o : Option (Result ServiceError A × W))
      → HoldsAfter (λ a w. Unit) (λ w. Unit) o
      → (r : Result ServiceError A) × (after : W) × (keep o ≡ some (ok r, after))
  keep_ends none h = absurd h
  keep_ends (some (r, after)) h = (r, after, refl)

module _ {C B : Type 0} (crate : Crate C B) (this : RedisService) where
  advised-IsAdvised :
      (e : ServiceError) (verb accepts key : String) (advice : Option (String × String))
      → contains e.message "WRONGTYPE" ≡ true
      → IsAdvised e (advised crate this e verb accepts key advice)
  advised-IsAdvised e verb accepts key none wrong = unadvised e
  advised-IsAdvised e verb accepts key (some (article, suggested)) wrong = record {
    code = refl;
    message = refl;
    kind = refl;
    wrong = inr wrong;
  }

  inspected-Succeeds :
      (e : ServiceError) (about : Option (String × String × String)) (w : World C B)
      → contains e.message "WRONGTYPE" ≡ true
      → Succeeds (IsAdvised e) (inspected crate this e about) w
  unfolding wrongtype_guidance
  inspected-Succeeds e none w wrong = (e, w, refl, unadvised e)
  inspected-Succeeds e (some (verb, accepts, key)) w wrong =
      let (actual, after, read) =
        keep_ends (query crate this crate.from_string ("TYPE" ∷ key ∷ []) w) (
          Ends-run Anything (query crate this crate.from_string ("TYPE" ∷ key ∷ [])) w
            (query-Ends crate this crate.from_string ("TYPE" ∷ key ∷ []))) in
      (
        advised crate this e verb accepts key (guidance_for crate this actual key),
        after,
        rw read refl,
        advised-IsAdvised e verb accepts key _ wrong,
      )

  attach_wrongtype_guidance-Succeeds :
      (tokens : List String) (e : ServiceError) (w : World C B)
      → Succeeds (IsAdvised e) (attach_wrongtype_guidance crate this tokens e) w
  unfolding attach_wrongtype_guidance
  attach_wrongtype_guidance-Succeeds tokens e w =
      elim (Bool-cases (contains e.message "WRONGTYPE")) [
        | inl wrong ↦
            rw (attach_wrongtype_guidance, wrong)
              (inspected-Succeeds e (subject crate this tokens) w wrong)
        | inr other ↦ rw (attach_wrongtype_guidance, other) (e, w, refl, unadvised e)
      ]

  -- When a command fails, the guided command fails with the same code, message and kind, however the
  -- inspection of the key goes and even when it fails; a failure that does not speak of WRONGTYPE is
  -- handed on as it is.
  pub run_command_guided-IsAdvised :
      (tokens : List String) (e : ServiceError) (w failed : World C B)
      → run_command crate this tokens w ≡ some (err e, failed)
      → (advised_error : ServiceError) × (after : World C B) × (run_command_guided crate this tokens
            w
          ≡ some (err advised_error, after))
        × IsAdvised e advised_error
  unfolding run_command_guided
  run_command_guided-IsAdvised tokens e w failed h =
      let (advised_error, after, attached, same) =
        attach_wrongtype_guidance-Succeeds tokens e failed in
      (advised_error, after, rw (h, attached) refl, same)
