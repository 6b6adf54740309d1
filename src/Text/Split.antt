-- ===== src/Text/Split.antt =====
-- Splitting a text: `str::split_once`, `str::split` and `str::lines`.
use Prim.Native.Char.{Char, code}
use Prim.Native.String.{[], ◌∷◌}
use redis_driver_for_per_wor.Prelude.{ℕ, List, Option, none, some, String, eqb, if◌then◌else◌}

abbrev extend_first : Char → Option (String × String) → Option (String × String)
extend_first c none = none
extend_first c (some (a, b)) = some (c ∷ a, b)

-- `str::split_once` at one character.
unfoldable pub split_once : ℕ → String → Option (String × String)
split_once at [] = none
split_once at (c ∷ s) = if eqb (code c) at then some ([], s) else extend_first c (split_once at s)

abbrev extend_head : Char → List String → List String
extend_head c List.[] = List.◌∷◌ (c ∷ []) List.[]
extend_head c (List.◌∷◌ s parts) = List.◌∷◌ (c ∷ s) parts

-- `str::split` at one character: a text without it is one part.
unfoldable pub split : ℕ → String → List String
split at [] = List.◌∷◌ [] List.[]
split at (c ∷ s) =
    let parts = split at s in if eqb (code c) at then List.◌∷◌ [] parts else extend_head c parts

-- A final `\r` of a line goes with its `\n`.
strip_return : String → String
strip_return [] = []
strip_return (c ∷ []) = if eqb (code c) 13 then [] else c ∷ []
strip_return (c ∷ d ∷ s) = c ∷ strip_return (d ∷ s)

-- The text after the last newline is a line unless it is empty, and keeps its `\r`.
finish_lines : List String → List String
unfolding strip_return
finish_lines List.[] = List.[]
finish_lines (List.◌∷◌ [] List.[]) = List.[]
finish_lines (List.◌∷◌ (c ∷ s) List.[]) = List.◌∷◌ (c ∷ s) List.[]
finish_lines (List.◌∷◌ line (List.◌∷◌ next rest)) =
    List.◌∷◌ (strip_return line) (finish_lines (List.◌∷◌ next rest))

-- `str::lines`
unfoldable pub lines : String → List String
unfolding split finish_lines
lines s = finish_lines (split 10 s)
