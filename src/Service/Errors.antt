-- ===== src/Service/Errors.antt =====
-- `ServiceError` of src/service.rs.
use redis_driver_for_per_wor.Prelude.{ℤ, Option, none, some, String}
use redis_driver_for_per_wor.Protocol.{
  ErrorKind, err_canceled, err_internal, err_invalid_params, err_method_not_found,
}

pub record ServiceError : Type 0 where
  pub code : Option ℤ
  pub message : String
  pub kind : ErrorKind
  pub hint : String
  pub suggested_statement : String

abbrev with_code : Option ℤ → ErrorKind → String → ServiceError
with_code code kind message = record {
  code = code;
  message = message;
  kind = kind;
  hint = "";
  suggested_statement = "";
}

-- `ServiceError::new`
abbrev pub operation : String → ServiceError
operation = with_code none ErrorKind.operation

abbrev pub validation : String → ServiceError
validation = with_code none ErrorKind.validation

abbrev pub authentication : String → ServiceError
authentication = with_code none ErrorKind.authentication

abbrev pub connection : String → ServiceError
connection = with_code none ErrorKind.connection

abbrev pub unsupported : String → ServiceError
unsupported = with_code none ErrorKind.unsupported

abbrev pub canceled : String → ServiceError
canceled = with_code (some err_canceled) ErrorKind.cancelled

abbrev pub invalid_params : String → ServiceError
invalid_params = with_code (some err_invalid_params) ErrorKind.validation

abbrev pub method_not_found : String → ServiceError
method_not_found = with_code (some err_method_not_found) ErrorKind.unsupported

abbrev pub attach_guidance : ServiceError → String → String → ServiceError
attach_guidance e hint suggested_statement = record e {
  hint = hint;
  suggested_statement = suggested_statement;
}

abbrev pub jsonrpc_code : ServiceError → ℤ
jsonrpc_code e = elim e.code [ none ↦ err_internal | some code ↦ code ]
