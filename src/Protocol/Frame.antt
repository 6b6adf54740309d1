-- ===== src/Protocol/Frame.antt =====
-- `read_frame` of src/protocol.rs, over the buffers that the reader delivers.
pub mod Chunking
pub mod RoundTrip
use redis_driver_for_per_wor.Prelude.{
  ℕ, suc, ◌+◌, ◌*◌, List, [], ◌∷◌, ◌++◌, Option, none, some, String, eqb, leb, ltb, length, take,
  drop, Result, ok, err, if◌then◌else◌,
}
use redis_driver_for_per_wor.Protocol.{ServerError, io, oversized_frame}

-- 16 MiB, the newline included.
abbrev pub max_frame : ℕ
max_frame = 16 * 1024 * 1024

-- What one `fill_buf` delivers: bytes (none of them at EOF) or an I/O error.
pub data Fill : Type 0 where
  available : List ℕ → Fill
  failed : String → Fill

-- `iter().position(|&b| b == b'\n')`
unfoldable pub position : List ℕ → Option ℕ
position [] = none
position (b ∷ bytes) =
    if eqb b b'\n' then some 0 else elim (position bytes) [ none ↦ none | some i ↦ some (suc i) ]

-- `consume`: what is left of a buffer is delivered again.
abbrev consume : List ℕ → List Fill → List Fill
consume [] rest = rest
consume (b ∷ bytes) rest = available (b ∷ bytes) ∷ rest

abbrev at_eof : List ℕ → Option (List ℕ)
at_eof [] = none
at_eof (b ∷ buf) = some (b ∷ buf)

abbrev Read : Type 0
Read = Result ServerError (Option (List ℕ)) × List Fill

-- The loop, with the bytes read so far. A reader that has no more events is at EOF.
unfoldable pub read_from : List ℕ → List Fill → Read
read_from buf [] = (ok (at_eof buf), [])
read_from buf (failed e ∷ rest) = (err (io e), rest)
read_from buf (available [] ∷ rest) = (ok (at_eof buf), rest)
read_from buf (available (b ∷ bytes) ∷ rest) =
    let chunk = b ∷ bytes in
    elim (position chunk) [
      | some pos ↦
          if ltb max_frame (length buf + pos + 1)
          then (err oversized_frame, available chunk ∷ rest)
          else (ok (some (buf ++ take pos chunk)), consume (drop (pos + 1) chunk) rest)
      | none ↦
          let more = read_from (buf ++ chunk) rest in
          if leb max_frame (length buf + length chunk)
          then (err oversized_frame, available chunk ∷ rest)
          else more
    ]

unfoldable pub read_frame : List Fill → Read
unfolding read_from
read_frame reader = read_from [] reader
