-- ===== src/Protocol/Frame/RoundTrip.antt =====
-- Frames that src/protocol.rs writes are read back by its `read_frame`.
use mathlib.Core.List.{append_assoc}
use redis_driver_for_per_wor.Prelude.{
  ℕ, ◌+◌, ◌≤◌, ◌<◌, ◌≡◌, List, [], ◌∷◌, ◌++◌, Option, none, some, length, Result, ok, err, arith,
  leb, inl, inr, Bool-cases, ap, ◌∙◌,
}
use redis_driver_for_per_wor.Protocol.{Response, ServerError, oversized_frame, frame_bytes}
use redis_driver_for_per_wor.Protocol.Frame.{Fill, max_frame, position, read_frame}
use redis_driver_for_per_wor.Protocol.Frame.Chunking.{
  Chunks, deliver, contents, Agrees, rejected, framed, next_frame, next_frame_line,
  next_frame_oversized, read_frame-Agrees,
}

-- What is read of a line that was written with its newline: the line, with the reader left at the
-- bytes after it, or an error when the two are over the limit.
pub data ReadBack (line rest : List ℕ) (r : Result ServerError (Option (List ℕ)) × List Fill)
    : Type 0 where
  whole :
      (left : Chunks)
      → length line + 1 ≤ max_frame
      → r ≡ (ok (some line), deliver left)
      → contents left ≡ rest
      → ReadBack line rest r
  refused : max_frame < length line + 1 → r.0 ≡ err oversized_frame → ReadBack line rest r

-- `to_string` is the JSON serializer: its compact text holds no raw newline, since JSON escapes
-- control characters inside strings.
module _ (to_string : Response → List ℕ)
    (one_line : (r : Response) → position (to_string r) ≡ none) where
  -- A response is written as one frame and arrives in any nonempty buffers, with any bytes after it.
  -- When the frame with its newline is within the limit of 16 MiB, it is read back as exactly its
  -- serialization, and the reader is left at those bytes; a longer one is written all the same, and
  -- refused as oversized. It needs a serialization without a raw newline.
  pub read_frame-frame_bytes :
      (r : Response) (rest : List ℕ) (chunks : Chunks)
      → contents chunks ≡ frame_bytes to_string r ++ rest
      → ReadBack (to_string r) rest (read_frame (deliver chunks))
  read_frame-frame_bytes r rest chunks e = elim (Bool-cases (leb (length line + 1) max_frame)) [
    | inl small ↦
        let fits : length line + 1 ≤ max_frame = ground arith in
        let next : next_frame (contents chunks) ≡ (ok (some line), rest) =
          same ∙ next_frame_line line rest (one_line r) fits in
        within fits next (read_frame-Agrees chunks)
    | inr large ↦
        let long : max_frame < length line + 1 = ground arith in
        let next : (next_frame (contents chunks)).0 ≡ err oversized_frame =
          ap (λ o. o.0) same ∙ next_frame_oversized line rest (one_line r) long in
        over long next (read_frame-Agrees chunks)
  ]
    where
      line : List ℕ
      line = to_string r

      same : next_frame (contents chunks) ≡ next_frame (line ++ b'\n' ∷ rest)
      same = ap next_frame (e ∙ append_assoc line (b'\n' ∷ []) rest)

      within :
          length line + 1 ≤ max_frame
          → next_frame (contents chunks) ≡ (ok (some line), rest)
          → Agrees (read_frame (deliver chunks)) (next_frame (contents chunks))
          → ReadBack line rest (read_frame (deliver chunks))
      within fits next (rejected _ o) = cc (next, o)
      within fits next (framed frame left p q) = whole left fits (cc (p, q, next)) (cc (q, next))

      over :
          max_frame < length line + 1
          → (next_frame (contents chunks)).0 ≡ err oversized_frame
          → Agrees (read_frame (deliver chunks)) (next_frame (contents chunks))
          → ReadBack line rest (read_frame (deliver chunks))
      over long next (rejected p o) = refused long p
      over long next (framed frame left p q) = cc (next, q)
