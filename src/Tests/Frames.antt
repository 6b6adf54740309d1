-- ===== src/Tests/Frames.antt =====
-- Frames of src/protocol.rs on concrete bytes.
use redis_driver_for_per_wor.Prelude.{ℕ, ◌≡◌, refl, List, [], ◌∷◌, none, some}
use redis_driver_for_per_wor.Json.{null, unsigned}
use redis_driver_for_per_wor.Protocol.{ErrorKind, Response, as_str, decode_kind, result_response}
use redis_driver_for_per_wor.Protocol.Kinds.{decode_kind-as_str}
use redis_driver_for_per_wor.Protocol.Frame.{position, read_frame}
use redis_driver_for_per_wor.Protocol.Frame.Chunking.{
  Agrees, Chunks, contents, deliver, next_frame, read_frame-Agrees,
}
use redis_driver_for_per_wor.Protocol.Frame.RoundTrip.{ReadBack, read_frame-frame_bytes}

-- `{}`, a newline and `[` in three buffers.
abbrev chunks : Chunks
chunks = (b'{', []) ∷ (b'}', b'\n' ∷ []) ∷ (b'[', []) ∷ []

read_frame-Agrees_example : Agrees (read_frame (deliver chunks)) (next_frame (contents chunks))
read_frame-Agrees_example = read_frame-Agrees chunks

abbrev to_string : Response → List ℕ
to_string r = b'{' ∷ b'}' ∷ []

position-to_string : (r : Response) → position (to_string r) ≡ none
unfolding position
position-to_string r = refl

abbrev response : Response
response = result_response (some (unsigned 1)) null

read_frame-frame_bytes_example :
    ReadBack (to_string response) (b'[' ∷ []) (read_frame (deliver chunks))
read_frame-frame_bytes_example =
    read_frame-frame_bytes to_string position-to_string response (b'[' ∷ []) chunks refl

decode_kind-as_str_example : decode_kind (as_str ErrorKind.cancelled) ≡ ErrorKind.cancelled
decode_kind-as_str_example = decode_kind-as_str ErrorKind.cancelled
