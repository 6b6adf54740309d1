-- ===== src/Server/Handled.antt =====
-- What every handler of a session keeps of the world, `run_session_method` of src/server.rs keeps.
use redis_driver_for_per_wor.Prelude.{
  ◌≡◌, Bool, true, false, String, ◌==◌, Result, ok, err, if◌then◌else◌, inl, inr, Result-cases,
}
use redis_driver_for_per_wor.Json.{Json}
use redis_driver_for_per_wor.Service.Errors.{ServiceError, unsupported}
use redis_driver_for_per_wor.Service.Handlers.{Handler, SessionService, Serde}
use redis_driver_for_per_wor.Server.Methods.{call, encoded, run_session_method}

module _ {W : Type 0} (P : W → Type 0) where
  encoded-Kept :
      {B : Type 0} (encode : B → Json) (outcome : Result ServiceError B × W)
      → P outcome.1
      → P (encoded encode outcome).1
  encoded-Kept encode (ok b, w) h = h
  encoded-Kept encode (err e, w) h = h

  pub branch :
      {R : Type 0} (test : Bool) (x y : R × W) → P x.1 → P y.1 → P (if test then x else y).1
  branch true x y p q = p
  branch false x y p q = q

module _ {S W : Type 0} (P : W → Type 0) where
  -- Whatever the request and its outcome, the handler leaves what it found.
  abbrev pub KeptBy : {A B : Type 0} → Handler S W A B → Type 0
  KeptBy {A} handler = (request : A) (session : S) (w : W) → P w → P (handler request session w).1

  -- Every handler leaves what it found.
  pub record ServiceKeeps (service : SessionService S W) : Type 0 where
    pub execute : KeptBy service.execute
    pub execute_read_only : KeptBy service.execute_read_only
    pub validate : KeptBy service.validate
    pub list_schema : KeptBy service.list_schema
    pub table_info : KeptBy service.table_info
    pub list_indexes : KeptBy service.list_indexes
    pub create_index : KeptBy service.create_index
    pub replace_index : KeptBy service.replace_index
    pub drop_index : KeptBy service.drop_index
    pub list_foreign_keys : KeptBy service.list_foreign_keys
    pub list_referencing_foreign_keys : KeptBy service.list_referencing_foreign_keys
    pub list_foreign_keys_all : KeptBy service.list_foreign_keys_all
    pub list_indexes_all : KeptBy service.list_indexes_all
    pub create_foreign_key : KeptBy service.create_foreign_key
    pub replace_foreign_key : KeptBy service.replace_foreign_key
    pub drop_foreign_key : KeptBy service.drop_foreign_key
    pub alter_column : KeptBy service.alter_column
    pub drop_column : KeptBy service.drop_column
    pub add_column : KeptBy service.add_column
    pub browse_table : KeptBy service.browse_table
    pub row_write : KeptBy service.row_write
    pub workspace_view : KeptBy service.workspace_view
    pub close : (session : S) (w : W) → P w → P (service.close session w)

  call-KeptBy :
      {A B : Type 0} (decode : Json → Result String A) (handler : Handler S W A B)
      (encode : B → Json) (rest : Json) (session : S) (w : W)
      → KeptBy handler
      → P w
      → P (call decode handler encode rest session w).1
  call-KeptBy decode handler encode rest session w keeps h = elim (Result-cases (decode rest)) [
    | inr (e, bad) ↦ rw (call, bad) h
    | inl (request, good) ↦
        rw (call, good)
          (encoded-Kept P encode (handler request session w) (keeps request session w h))
  ]

  pub run_session_method-Kept :
      (service : SessionService S W) (serde : Serde) (method : String) (rest : Json) (session : S)
      (w : W)
      → ServiceKeeps service
      → P w
      → P (run_session_method service serde method rest session w).1
  unfolding run_session_method
  run_session_method-Kept service serde method rest session w keeps h =
      let record {
        execute = a;
        execute_read_only = b;
        validate = c;
        list_schema = d;
        table_info = e;
        list_indexes = f;
        create_index = g;
        replace_index = i;
        drop_index = j;
        list_foreign_keys = k;
        list_referencing_foreign_keys = l;
        list_foreign_keys_all = m;
        list_indexes_all = n;
        create_foreign_key = o;
        replace_foreign_key = p;
        drop_foreign_key = q;
        alter_column = r;
        drop_column = s;
        add_column = t;
        browse_table = u;
        row_write = v;
        workspace_view = x;
        close = y;
      } =
        keeps in
      search (branch P, call-KeptBy) depth 60

-- Neither of the two methods that write.
abbrev pub Reading : String → Type 0
Reading method = ((method == "perk/v1/execute") ≡ false) × ((method == "perk/v1/row_write") ≡ false)

module _ {S W : Type 0} where
  -- The service without the two methods that write.
  abbrev pub reading : SessionService S W → SessionService S W
  reading service = record service {
    execute = λ request session w. (err (unsupported ""), w);
    row_write = λ request session w. (err (unsupported ""), w);
  }

  -- What all handlers but the two keep, every method but the two keeps.
  pub run_reading-Kept :
      (P : W → Type 0) (service : SessionService S W) (serde : Serde) (method : String)
      (rest : Json) (session : S) (w : W)
      → ServiceKeeps P (reading service)
      → Reading method
      → P w
      → P (run_session_method service serde method rest session w).1
  unfolding run_session_method
  run_reading-Kept P service serde method rest session w keeps (a, b) h =
      let kept = run_session_method-Kept P (reading service) serde method rest session w keeps h in
      rw (run_session_method, a, b) (rw (run_session_method, a, b) at kept)
