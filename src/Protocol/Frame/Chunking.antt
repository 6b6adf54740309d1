-- ===== src/Protocol/Frame/Chunking.antt =====
-- Framing of src/protocol.rs does not depend on how the bytes are cut into buffers.
use mathlib.Core.List.{append_assoc, append-nil}
use native.Mathlib.Numerals.{add-one}
use redis_driver_for_per_wor.Prelude.{
  ℕ, zero, suc, ◌+◌, ◌≤◌, ◌<◌, ◌≡◌, refl, inl, inr, true, false, List, [], ◌∷◌, ◌++◌, Option, none,
  some, arith, eqb, leb, ltb, length, length-append, take, drop, Result, ok, err, if◌then◌else◌,
  Bool-cases, Option-cases,
}
use redis_driver_for_per_wor.Protocol.{ServerError, oversized_frame}
use redis_driver_for_per_wor.Protocol.Frame.{
  Fill, available, max_frame, position, consume, at_eof, read_from, read_frame,
}

-- The bytes before the first newline, and those after it if there is one.
pub split_line : List ℕ → List ℕ × Option (List ℕ)
split_line [] = ([], none)
split_line (b ∷ bytes) =
    let (line, rest) = split_line bytes in
    if eqb b b'\n' then ([], some bytes) else (b ∷ line, rest)

abbrev pub Outcome : Type 0
Outcome = Result ServerError (Option (List ℕ)) × List ℕ

abbrev of_line : List ℕ × Option (List ℕ) → Outcome
of_line (line, some rest) =
    if ltb max_frame (length line + 1) then (err oversized_frame, []) else (ok (some line), rest)
of_line (line, none) =
    if leb max_frame (length line) then (err oversized_frame, []) else (ok (at_eof line), [])

-- The next frame of a byte stream and what follows it: the specification of `read_frame`.
pub next_frame : List ℕ → Outcome
unfolding split_line
next_frame bytes = of_line (split_line bytes)

-- Buffers that a reader delivers before EOF are not empty.
abbrev pub Chunks : Type 0
Chunks = List (ℕ × List ℕ)

abbrev pub deliver : Chunks → List Fill
deliver [] = []
deliver ((b, bytes) ∷ chunks) = available (b ∷ bytes) ∷ deliver chunks

abbrev pub contents : Chunks → List ℕ
contents [] = []
contents ((b, bytes) ∷ chunks) = (b ∷ bytes) ++ contents chunks

split_line-append :
    (buf t : List ℕ)
    → position buf ≡ none
    → split_line (buf ++ t) ≡ (buf ++ (split_line t).0, (split_line t).1)
unfolding split_line position
split_line-append [] t h = refl
split_line-append (b ∷ buf) t h = ground (arith, split_line-append buf t)

split_line-position :
    (s t : List ℕ) (p : ℕ)
    → position s ≡ some p
    → split_line (s ++ t) ≡ (take p s, some (drop (suc p) s ++ t))
unfolding split_line position
split_line-position [] t p h = cc
split_line-position (b ∷ s) t zero h = ground arith
split_line-position (b ∷ s) t (suc p) h = ground (arith, split_line-position s t p)

position-append_none :
    (s t : List ℕ) → position s ≡ none → position t ≡ none → position (s ++ t) ≡ none
unfolding position
position-append_none [] t h k = k
position-append_none (b ∷ s) t h k = ground (arith, position-append_none s t)

length-take-position : (s : List ℕ) (p : ℕ) → position s ≡ some p → length (take p s) ≡ p
unfolding position
length-take-position [] p h = cc
length-take-position (b ∷ s) zero h = refl
length-take-position (b ∷ s) (suc p) h = ground (arith, length-take-position s p)

-- A newline found in the chunk at hand.
next_frame-position :
    (buf s t : List ℕ) (p : ℕ)
    → position buf ≡ none
    → position s ≡ some p
    → next_frame (buf ++ (s ++ t)) ≡ (
        if ltb max_frame (length buf + p + 1)
        then (err oversized_frame, [])
        else (ok (some (buf ++ take p s)), drop (p + 1) s ++ t))
unfolding next_frame
next_frame-position buf s t p h k =
    rw (split_line-append buf (s ++ t) h, split_line-position s t p k, add-one)
      (ground (arith, length-append buf (take p s), length-take-position s p k))

of_line_long :
    (line : List ℕ) (rest : Option (List ℕ))
    → max_frame ≤ length line
    → (of_line (line, rest)).0 ≡ err oversized_frame
of_line_long line none h = ground arith
of_line_long line (some rest) h = ground arith

-- A line within the limit, with its newline, is the next frame.
pub next_frame_line :
    (line rest : List ℕ)
    → position line ≡ none
    → length line + 1 ≤ max_frame
    → next_frame (line ++ b'\n' ∷ rest) ≡ (ok (some line), rest)
unfolding next_frame split_line
next_frame_line line rest h k =
    rw (split_line-append line (b'\n' ∷ rest) h, append-nil) (ground arith)

-- A line over the limit, with its newline, is oversized.
pub next_frame_oversized :
    (line rest : List ℕ)
    → position line ≡ none
    → max_frame < length line + 1
    → (next_frame (line ++ b'\n' ∷ rest)).0 ≡ err oversized_frame
unfolding next_frame split_line
next_frame_oversized line rest h k =
    rw (split_line-append line (b'\n' ∷ rest) h, append-nil) (ground arith)

-- A line that has reached the limit with no newline is oversized, whatever follows.
next_frame_long :
    (buf t : List ℕ)
    → position buf ≡ none
    → max_frame ≤ length buf
    → (next_frame (buf ++ t)).0 ≡ err oversized_frame
unfolding next_frame
next_frame_long buf t h k = rw (split_line-append buf t h) (
    of_line_long (buf ++ (split_line t).0) ((split_line t).1)
      (omega (arith, length-append buf (split_line t).0)))

-- `o` is what the byte stream specifies, and `r` the same, with the reader left at its rest.
pub data Agrees (r : Result ServerError (Option (List ℕ)) × List Fill) (o : Outcome) : Type 0 where
  rejected : r.0 ≡ err oversized_frame → o.0 ≡ err oversized_frame → Agrees r o
  framed :
      (frame : Option (List ℕ)) (left : Chunks)
      → r ≡ (ok frame, deliver left)
      → o ≡ (ok frame, contents left)
      → Agrees r o

consume-deliver :
    (s : List ℕ) (chunks : Chunks)
    → (left : Chunks) × (consume s (deliver chunks) ≡ deliver left)
      × (s ++ contents chunks ≡ contents left)
consume-deliver [] chunks = (chunks, refl, refl)
consume-deliver (b ∷ s) chunks = ((b, s) ∷ chunks, refl, refl)

next_frame_eof :
    (buf : List ℕ)
    → position buf ≡ none
    → length buf < max_frame
    → next_frame (buf ++ []) ≡ (ok (at_eof buf), [])
unfolding next_frame split_line
next_frame_eof buf h k = rw (split_line-append buf [] h, append-nil) (ground arith)

module _ (buf : List ℕ) (b : ℕ) (bytes : List ℕ) (chunks : Chunks) (h : position buf ≡ none) where
  abbrev chunk : List ℕ
  chunk = b ∷ bytes

  abbrev reader : List Fill
  reader = available chunk ∷ deliver chunks

  abbrev stream : List ℕ
  stream = buf ++ (chunk ++ contents chunks)

  read_from_found :
      (p : ℕ) → position chunk ≡ some p → Agrees (read_from buf reader) (next_frame stream)
  unfolding read_from
  read_from_found p found =
      let (left, e, e') = consume-deliver (drop (p + 1) chunk) chunks in
      elim (Bool-cases (ltb max_frame (length buf + p + 1))) [
        | inl long ↦
            rejected (ground arith)
              (ground (arith, next_frame-position buf chunk (contents chunks) p h found))
        | inr fits ↦
            framed (some (buf ++ take p chunk)) left (ground arith)
              (ground (arith, next_frame-position buf chunk (contents chunks) p h found))
      ]

  read_from_next :
      position chunk ≡ none
      → leb max_frame (length buf + length chunk) ≡ false
      → read_from buf reader ≡ read_from (buf ++ chunk) (deliver chunks)
  unfolding read_from
  read_from_next missing fits = ground arith

  read_from_long :
      position chunk ≡ none
      → leb max_frame (length buf + length chunk) ≡ true
      → (read_from buf reader).0 ≡ err oversized_frame
  unfolding read_from
  read_from_long missing long = ground arith

  read_from_missing :
      position chunk ≡ none
      → (length (buf ++ chunk) < max_frame
          → Agrees
              (read_from (buf ++ chunk) (deliver chunks))
              (next_frame ((buf ++ chunk) ++ contents chunks)))
      → Agrees (read_from buf reader) (next_frame stream)
  read_from_missing missing ih = elim (Bool-cases (leb max_frame (length buf + length chunk))) [
    | inl long ↦ rejected (read_from_long missing long) (
        rw (← append_assoc buf chunk (contents chunks)) (
          next_frame_long (buf ++ chunk) (contents chunks)
            (position-append_none buf chunk h missing) (ground (arith, length-append buf chunk))))
    | inr fits ↦
        rw (read_from_next missing fits, ← append_assoc buf chunk (contents chunks))
          (ih (ground (arith, length-append buf chunk)))
  ]

read_from-Agrees :
    (buf : List ℕ) (chunks : Chunks)
    → position buf ≡ none
    → length buf < max_frame
    → Agrees (read_from buf (deliver chunks)) (next_frame (buf ++ contents chunks))
read_from-Agrees buf [] h k =
    framed (at_eof buf) [] (unfold read_from in refl) (next_frame_eof buf h k)
read_from-Agrees buf ((b, bytes) ∷ chunks) h k = elim (Option-cases (position (b ∷ bytes))) [
  | inl missing ↦
      read_from_missing buf b bytes chunks h missing (
        read_from-Agrees (buf ++ b ∷ bytes) chunks (position-append_none buf (b ∷ bytes) h missing))
  | inr (p, found) ↦ read_from_found buf b bytes chunks h p found
]

-- However the bytes of a stream are cut into nonempty buffers, `read_frame` delivers the stream's
-- next frame (or rejects it as oversized exactly when the stream does), and leaves the reader at the
-- bytes that follow.
pub read_frame-Agrees :
    (chunks : Chunks) → Agrees (read_frame (deliver chunks)) (next_frame (contents chunks))
unfolding read_frame
read_frame-Agrees chunks = read_from-Agrees [] chunks (unfold position in refl) (omega arith)
