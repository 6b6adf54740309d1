-- ===== src/Statement/Written.antt =====
-- The text of `select_statement` of src/redis_service.rs, as words with spaces between them.
use Prim.Native.String.{◌++◌}
use text.Mathlib.TextLemmas.{append_assoc, append-nil}
use redis_driver_for_per_wor.Prelude.{
  ℕ, ◌≡◌, refl, sym, ap, ◌∙◌, true, false, List, [], ◌∷◌, none, some, String, ltb, map, All, inl,
  inr, Bool-cases,
}
use redis_driver_for_per_wor.Text.Decimal.{show}
use redis_driver_for_per_wor.Text.Words.{join_words}
use redis_driver_for_per_wor.Statement.{select_statement}
use redis_driver_for_per_wor.Statement.Shell.{Piece, plain, quoted, render, IsPiece, show-IsPiece}

-- The text up to the clauses, from its words.
from_keys :
    (x : String)
    → "SELECT" ++ (" " ++ ("*" ++ (" " ++ ("FROM" ++ (" " ++ ("\"keys\"" ++ x))))))
      ≡ "SELECT * FROM \"keys\"" ++ x
from_keys x =
    sym (append_assoc "SELECT" " " ("*" ++ (" " ++ ("FROM" ++ (" " ++ ("\"keys\"" ++ x))))))
    ∙ sym (append_assoc "SELECT " "*" (" " ++ ("FROM" ++ (" " ++ ("\"keys\"" ++ x)))))
    ∙ sym (append_assoc "SELECT *" " " ("FROM" ++ (" " ++ ("\"keys\"" ++ x))))
    ∙ sym (append_assoc "SELECT * " "FROM" (" " ++ ("\"keys\"" ++ x)))
    ∙ sym (append_assoc "SELECT * FROM" " " ("\"keys\"" ++ x))
    ∙ sym (append_assoc "SELECT * FROM " "\"keys\"" x)

-- A clause from its words.
limit_clause : (x : String) → " " ++ ("LIMIT" ++ (" " ++ x)) ≡ " LIMIT " ++ x
limit_clause x = sym (append_assoc " " "LIMIT" (" " ++ x)) ∙ sym (append_assoc " LIMIT" " " x)

offset_clause : (x : String) → " " ++ ("OFFSET" ++ (" " ++ x)) ≡ " OFFSET " ++ x
offset_clause x = sym (append_assoc " " "OFFSET" (" " ++ x)) ∙ sym (append_assoc " OFFSET" " " x)

-- The words as they are written, and what makes them ones that the splitter leaves as they are.
abbrev pub base_pieces : List Piece → List Piece
base_pieces rest = plain "SELECT" ∷ plain "*" ∷ plain "FROM" ∷ quoted "keys" ∷ rest

abbrev pub limit_pieces : ℕ → List Piece → List Piece
limit_pieces n rest = plain "LIMIT" ∷ plain (show n) ∷ rest

abbrev pub offset_pieces : ℕ → List Piece
offset_pieces n = plain "OFFSET" ∷ plain (show n) ∷ []

pub base_pieces-IsPiece : (rest : List Piece) → All IsPiece rest → All IsPiece (base_pieces rest)
base_pieces-IsPiece rest h = ((tt, refl), ((tt, refl), ((tt, refl), (refl, h))))

pub limit_pieces-IsPiece :
    (n : ℕ) (rest : List Piece) → All IsPiece rest → All IsPiece (limit_pieces n rest)
limit_pieces-IsPiece n rest h = ((tt, refl), (show-IsPiece n, h))

pub offset_pieces-IsPiece : (n : ℕ) → All IsPiece (offset_pieces n)
offset_pieces-IsPiece n = ((tt, refl), (show-IsPiece n, tt))

pub select_statement-first :
    (offset : ℕ)
    → ltb 0 offset ≡ false
    → select_statement offset none ≡ join_words (map render (base_pieces []))
unfolding select_statement
select_statement-first offset first = rw (select_statement, first) refl

pub select_statement-none :
    (offset : ℕ)
    → ltb 0 offset ≡ true
    → select_statement offset none ≡ join_words (map render (base_pieces (offset_pieces offset)))
unfolding select_statement
select_statement-none offset positive =
    rw (select_statement, positive)
      (ap (λ x. "SELECT * FROM \"keys\"" ++ (" OFFSET " ++ x)) (append-nil (show offset))
        ∙ ap (λ x. "SELECT * FROM \"keys\"" ++ x) (sym (offset_clause (show offset)))
        ∙ sym (from_keys (" " ++ ("OFFSET" ++ (" " ++ show offset)))))

pub select_statement-some :
    (offset n : ℕ)
    → select_statement offset (some n)
      ≡ join_words (map render (base_pieces (limit_pieces n (offset_pieces offset))))
unfolding select_statement
select_statement-some offset n = elim (Bool-cases (ltb 0 offset)) [
  | inl positive ↦ rw (select_statement, positive) same
  | inr first ↦ rw (select_statement, first) same
]
  where
    from : String
    from = "SELECT * FROM \"keys\""

    after : String
    after = " OFFSET " ++ show offset

    same :
        (from ++ (" LIMIT " ++ (show n ++ ""))) ++ (" OFFSET " ++ (show offset ++ ""))
        ≡ join_words (map render (base_pieces (limit_pieces n (offset_pieces offset))))
    same =
        ap (λ x. (from ++ (" LIMIT " ++ x)) ++ (" OFFSET " ++ (show offset ++ "")))
          (append-nil (show n))
        ∙ ap (λ x. (from ++ (" LIMIT " ++ show n)) ++ (" OFFSET " ++ x)) (append-nil (show offset))
        ∙ append_assoc from (" LIMIT " ++ show n) after
        ∙ ap (λ x. from ++ x) (append_assoc " LIMIT " (show n) after)
        ∙ ap (λ x. from ++ (" LIMIT " ++ (show n ++ x))) (sym (offset_clause (show offset)))
        ∙ ap (λ x. from ++ x)
            (sym (limit_clause (show n ++ (" " ++ ("OFFSET" ++ (" " ++ show offset))))))
        ∙ sym (
            from_keys (
              " " ++ ("LIMIT" ++ (" " ++ (show n ++ (" " ++ ("OFFSET" ++ (" " ++ show offset))))))))
