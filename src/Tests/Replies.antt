-- ===== src/Tests/Replies.antt =====
-- Replies of src/redis_service.rs as tables.
use redis_driver_for_per_wor.Prelude.{
  ◌≡◌, refl, false, List, [], ◌∷◌, none, some, All, arith, get_elem?, length, pos,
}
use redis_driver_for_per_wor.Text.Decimal.{show}
use redis_driver_for_per_wor.Dto.Result.{Cell}
use redis_driver_for_per_wor.Reply.{finalize}
use redis_driver_for_per_wor.Reply.Bounds.{IsBounded, finalize-IsBounded, finalize_within}
use redis_driver_for_per_wor.Reply.Rows.{reply_rows-IsTable, reply_rows-array}
use redis_driver_for_per_wor.Reply.Value.{
  Printers, Replies, array, cell, int, no_replies, reply, reply_rows, to_list,
}

abbrev rows : List (List Cell)
rows = (some "0" ∷ none ∷ []) ∷ (some "1" ∷ some "v" ∷ []) ∷ []

finalize-IsBounded_example :
    IsBounded rows (finalize ("index" ∷ "value" ∷ []) rows 0 false none none)
finalize-IsBounded_example = finalize-IsBounded ("index" ∷ "value" ∷ []) rows 0 false none none

finalize_within_example :
    ((finalize ("index" ∷ "value" ∷ []) rows 0 false none none).rows ≡ rows)
    × ((finalize ("index" ∷ "value" ∷ []) rows 0 false none none).truncated ≡ false)
finalize_within_example =
    finalize_within ("index" ∷ "value" ∷ []) rows 0 false none none (omega arith)
      ((omega arith, (tt, tt)), ((omega arith, (omega arith, tt)), tt))

abbrev printers : Printers
printers = record {
  from_utf8_lossy = λ bytes. "text";
  show_f64 = λ f. f;
  from_f64 = λ f. none;
  json_to_string = λ v. "{}";
}

abbrev items : Replies
items = reply (int (pos 4)) (reply (int (pos 5)) no_replies)

reply_rows-IsTable_example :
    All
      (λ row. length row ≡ length (reply_rows printers (array items)).0)
      (reply_rows printers (array items)).1
reply_rows-IsTable_example = reply_rows-IsTable printers (array items)

reply_rows-array_example :
    (length (reply_rows printers (array items)).1 ≡ length (to_list items))
    × (get_elem? (reply_rows printers (array items)).1 1
        ≡ some (some (show 1) ∷ cell printers (int (pos 5)) ∷ []))
reply_rows-array_example = reply_rows-array printers items 1 (int (pos 5)) refl
