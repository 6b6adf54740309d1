-- ===== src/Reply/Rows.antt =====
-- The table of a reply, `reply_rows` of src/redis_service.rs.
use redis_driver_for_per_wor.Prelude.{
  ℕ, zero, suc, ◌+◌, ◌≡◌, refl, ap, ◌∙◌, List, [], ◌∷◌, some, arith, length, get_elem?, All,
}
use redis_driver_for_per_wor.Text.Decimal.{show}
use redis_driver_for_per_wor.Dto.Result.{Cell}
use redis_driver_for_per_wor.Reply.Value.{
  Reply, Replies, Pairs, Printers, no_replies, reply, no_pairs, pair, array, to_list, cell,
  index_rows, key_rows, reply_rows,
}

module _ (p : Printers) where
  abbrev Pairwise : List (List Cell) → Type 0
  Pairwise = All (λ row. length row ≡ 2)

  index_rows-Pairwise : (i : ℕ) (items : Replies) → Pairwise (index_rows p i items)
  unfolding index_rows
  index_rows-Pairwise i no_replies = tt
  index_rows-Pairwise i (reply v rest) = (refl, index_rows-Pairwise (i + 1) rest)

  key_rows-Pairwise : (pairs : Pairs) → Pairwise (key_rows p pairs)
  unfolding key_rows
  key_rows-Pairwise no_pairs = tt
  key_rows-Pairwise (pair k v rest) = (refl, key_rows-Pairwise rest)

  -- Every row of a reply's table has one cell for each column.
  pub reply_rows-IsTable :
      (v : Reply) → All (λ row. length row ≡ length (reply_rows p v).0) (reply_rows p v).1
  unfolding reply_rows
  reply_rows-IsTable (Reply.array items) = index_rows-Pairwise 0 items
  reply_rows-IsTable (Reply.set items) = index_rows-Pairwise 0 items
  reply_rows-IsTable (Reply.push kind items) = index_rows-Pairwise 0 items
  reply_rows-IsTable (Reply.map pairs) = key_rows-Pairwise pairs
  reply_rows-IsTable (Reply.attribute v attributes) = reply_rows-IsTable v
  reply_rows-IsTable Reply.nil = (refl, tt)
  reply_rows-IsTable _ = (refl, tt)

  index_rows-get_elem? :
      (start i : ℕ) (items : Replies) (v : Reply)
      → get_elem? (to_list items) i ≡ some v
      → get_elem? (index_rows p start items) i ≡ some (some (show (start + i)) ∷ cell p v ∷ [])
  unfolding index_rows
  index_rows-get_elem? start i no_replies v h = cc
  index_rows-get_elem? start zero (reply w rest) v h =
      let same : w ≡ v = ground arith in let here : start ≡ start + 0 = omega arith in ground arith
  index_rows-get_elem? start (suc i) (reply w rest) v h =
      index_rows-get_elem? (start + 1) i rest v h
      ∙ ap (λ n. some (some (show n) ∷ cell p v ∷ [])) (omega arith)

  length-index_rows :
      (start : ℕ) (items : Replies) → length (index_rows p start items) ≡ length (to_list items)
  unfolding index_rows
  length-index_rows start no_replies = refl
  length-index_rows start (reply v rest) = ap suc (length-index_rows (start + 1) rest)

  -- An array reply has one row for each element, and the row of element `i` holds `i` and the
  -- element's cell.
  pub reply_rows-array :
      (items : Replies) (i : ℕ) (v : Reply)
      → get_elem? (to_list items) i ≡ some v
      → (length (reply_rows p (array items)).1 ≡ length (to_list items))
        × (get_elem? (reply_rows p (array items)).1 i ≡ some (some (show i) ∷ cell p v ∷ []))
  unfolding reply_rows
  reply_rows-array items i v h = (
    length-index_rows 0 items,
    index_rows-get_elem? 0 i items v h
        ∙ ap (λ n. some (some (show n) ∷ cell p v ∷ [])) (omega arith),
  )
