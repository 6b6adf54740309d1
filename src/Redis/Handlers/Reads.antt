-- ===== src/Redis/Handlers/Reads.antt =====
-- What the reads of src/redis_service.rs keep, and the previews.
use redis_driver_for_per_wor.Prelude.{
  ◌≡◌, refl, Bool, true, false, ◌||◌, List, [], ◌∷◌, none, String, ◌==◌, Result, ok, err, inl, inr,
  Bool-cases, any,
}
use redis_driver_for_per_wor.Text.{eq_ignore_case, upper}
use redis_driver_for_per_wor.Reply.Value.{Reply}
use redis_driver_for_per_wor.Service.Errors.{ServiceError}
use redis_driver_for_per_wor.Statement.Verbs.{is_read_only}
use redis_driver_for_per_wor.Redis.{Crate, RedisError, RedisService, World}
use redis_driver_for_per_wor.Redis.Action.{Action, attempt, ◌>>=◌}
use redis_driver_for_per_wor.Redis.Browse.{preview_rows}
use redis_driver_for_per_wor.Redis.Keeps.{Keeps, attempt-Keeps, pure-Keeps, >>=-Keeps}
use redis_driver_for_per_wor.Redis.Previews.{
  fetch_preview, preview_for, preview_hash, preview_list, preview_of, preview_set, preview_string,
  preview_zset,
}
use redis_driver_for_per_wor.Redis.Query.{query}

-- The previews' own reads, which the allowlist does not have.
abbrev pub preview_verbs : List String
preview_verbs = "GETRANGE" ∷ "HSCAN" ∷ "SSCAN" ∷ []

-- A verb on the allowlist, in any letter case, or one of the previews'.
abbrev pub is_read_verb : String → Bool
is_read_verb verb = is_read_only (upper verb) || any (λ v. v == upper verb) preview_verbs

abbrev pub is_read : List String → Bool
is_read [] = false
is_read (verb ∷ arguments) = is_read_verb verb

abbrev IsRead : String → Type 0
IsRead verb = is_read_verb verb ≡ true

pub type_IsRead : IsRead "TYPE"
unfolding is_read_only upper eq_ignore_case
type_IsRead = refl

pub scan_IsRead : IsRead "SCAN"
unfolding is_read_only upper eq_ignore_case
scan_IsRead = refl

getrange_IsRead : IsRead "GETRANGE"
unfolding is_read_only upper eq_ignore_case
getrange_IsRead = refl

hscan_IsRead : IsRead "HSCAN"
unfolding is_read_only upper eq_ignore_case
hscan_IsRead = refl

lrange_IsRead : IsRead "LRANGE"
unfolding is_read_only upper eq_ignore_case
lrange_IsRead = refl

sscan_IsRead : IsRead "SSCAN"
unfolding is_read_only upper eq_ignore_case
sscan_IsRead = refl

zrange_IsRead : IsRead "ZRANGE"
unfolding is_read_only upper eq_ignore_case
zrange_IsRead = refl

-- `P` is kept by every command that is allowed, and reads are.
module _ {C B : Type 0} (crate : Crate C B) (this : RedisService) (P : World C B → Type 0)
    (Allowed : List String → Type 0)
    (reads : (cmd : List String) → is_read cmd ≡ true → Allowed cmd)
    (keeps : (A : Type 0) (f : Reply → Result RedisError A) (cmd : List String)
      → Allowed cmd
      → Keeps P (query crate this f cmd)) where
  pub read-Keeps :
      {A : Type 0} (f : Reply → Result RedisError A) (cmd : List String)
      → is_read cmd ≡ true
      → Keeps P (query crate this f cmd)
  read-Keeps f cmd r = keeps _ f cmd (reads cmd r)

  pub attempt_then-Keeps :
      {A D : Type 0} (f : Reply → Result RedisError A) (cmd : List String)
      (g : Result ServiceError A → Action (World C B) D)
      → is_read cmd ≡ true
      → ((got : Result ServiceError A) → Keeps P (g got))
      → Keeps P (attempt (query crate this f cmd) >>= g)
  attempt_then-Keeps f cmd g r next =
      >>=-Keeps P (attempt (query crate this f cmd)) g
        (attempt-Keeps P (query crate this f cmd) (read-Keeps f cmd r)) next

  preview_string-Keeps : (key : String) → Keeps P (preview_string crate this key)
  unfolding preview_string
  preview_string-Keeps key = attempt_then-Keeps _ _ _ getrange_IsRead (λ got. pure-Keeps P _)

  preview_hash-Keeps : (key : String) → Keeps P (preview_hash crate this key)
  unfolding preview_hash
  preview_hash-Keeps key = attempt_then-Keeps _ _ _ hscan_IsRead (λ got. pure-Keeps P _)

  preview_list-Keeps : (key : String) → Keeps P (preview_list crate this key)
  unfolding preview_list
  preview_list-Keeps key = attempt_then-Keeps _ _ _ lrange_IsRead (λ got. pure-Keeps P _)

  preview_set-Keeps : (key : String) → Keeps P (preview_set crate this key)
  unfolding preview_set
  preview_set-Keeps key = attempt_then-Keeps _ _ _ sscan_IsRead (λ got. pure-Keeps P _)

  preview_zset-Keeps : (key : String) → Keeps P (preview_zset crate this key)
  unfolding preview_zset
  preview_zset-Keeps key = attempt_then-Keeps _ _ _ zrange_IsRead (λ got. pure-Keeps P _)

  preview_of-Keeps : (type_ key : String) → Keeps P (preview_of crate this type_ key)
  unfolding preview_of
  preview_of-Keeps type_ key = elim (Bool-cases (type_ == "string")) [
    | inl e ↦ rw e (preview_string-Keeps key)
    | inr n ↦ rw n (elim (Bool-cases (type_ == "hash")) [
      | inl e ↦ rw e (preview_hash-Keeps key)
      | inr n ↦ rw n (elim (Bool-cases (type_ == "list")) [
        | inl e ↦ rw e (preview_list-Keeps key)
        | inr n ↦ rw n (elim (Bool-cases (type_ == "set")) [
          | inl e ↦ rw e (preview_set-Keeps key)
          | inr n ↦ rw n (elim (Bool-cases (type_ == "zset")) [
            | inl e ↦ rw e (preview_zset-Keeps key)
            | inr n ↦ rw n (pure-Keeps P none)
          ])
        ])
      ])
    ])
  ]

  preview_for-Keeps :
      (key : String) (got : Result ServiceError String) → Keeps P (preview_for crate this key got)
  preview_for-Keeps key (err e) = pure-Keeps P _
  preview_for-Keeps key (ok type_) =
      >>=-Keeps P (preview_of crate this type_ key) _ (preview_of-Keeps type_ key)
        (λ preview. pure-Keeps P _)

  fetch_preview-Keeps : (key : String) → Keeps P (fetch_preview crate this key)
  unfolding fetch_preview
  fetch_preview-Keeps key = attempt_then-Keeps _ _ _ type_IsRead (λ got. preview_for-Keeps key got)

  pub preview_rows-Keeps : (page : List String) → Keeps P (preview_rows crate this page)
  unfolding preview_rows
  preview_rows-Keeps [] = pure-Keeps P []
  preview_rows-Keeps (key ∷ page) =
      >>=-Keeps P (fetch_preview crate this key) _ (fetch_preview-Keeps key) (λ shown.
        >>=-Keeps P (preview_rows crate this page) _ (preview_rows-Keeps page)
          (λ rows. pure-Keeps P _))
