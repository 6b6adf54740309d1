-- ===== src/Protocol/Kinds.antt =====
-- The wire names of the error kinds of src/protocol.rs.
use redis_driver_for_per_wor.Prelude.{◌≡◌, refl}
use redis_driver_for_per_wor.Protocol.{ErrorKind, as_str, decode_kind}

-- Every error kind decodes from its wire name.
pub decode_kind-as_str : (k : ErrorKind) → decode_kind (as_str k) ≡ k
unfolding decode_kind as_str
decode_kind-as_str ErrorKind.validation = refl
decode_kind-as_str _ = refl
