-- ===== src/Statement/Grammar.antt =====
-- `parse_select` of src/redis_service.rs accepts exactly the virtual-table grammar.
use redis_driver_for_per_wor.Prelude.{
  ℕ, ◌≡◌, ◌≢◌, ◌↔◌, refl, true, false, List, [], ◌∷◌, Option, none, some, String, ◌==◌, eq_iff,
  arith, drop, get_elem?, ok, inl, inr, Bool-cases, Option-cases, >>=-ok, Result-cases,
}
use redis_driver_for_per_wor.Text.{upper, eq_ignore_case}
use redis_driver_for_per_wor.Text.Decimal.{usize_limit, parse_unsigned}
use redis_driver_for_per_wor.Statement.{
  Paging, unpaged, apply_clause, clauses, select_tokens, parse_select, strip_terminator,
  select_keys,
}
use redis_driver_for_per_wor.Statement.Terminator.{
  Terminated, Terminated-strip_terminator, strip_terminator-Terminated,
}

-- The clause list of the grammar: each of LIMIT and OFFSET at most once, in any letter case and
-- order, each with an unsigned 64-bit number, and at most one `;`, at the end.
pub data Clauses : Paging → List String → Paging → Type 0 where
  done : {p : Paging} → Clauses p [] p
  terminated : {p : Paging} {t : String} → t ≡ ";" → Clauses p (t ∷ []) p
  limited :
      {p q : Paging} {t v : String} {rest : List String} (n : ℕ)
      → t ≢ ";"
      → upper t ≡ "LIMIT"
      → parse_unsigned usize_limit v ≡ some n
      → p.limit ≡ none
      → Clauses (record p { limit = some n }) rest q
      → Clauses p (t ∷ v ∷ rest) q
  shifted :
      {p q : Paging} {t v : String} {rest : List String} (n : ℕ)
      → t ≢ ";"
      → upper t ≡ "OFFSET"
      → parse_unsigned usize_limit v ≡ some n
      → p.offset_seen ≡ false
      → Clauses (record p { offset = n; offset_seen = true }) rest q
      → Clauses p (t ∷ v ∷ rest) q

-- What one clause word with its value does.
data Applies (w v : String) (p q : Paging) : Type 0 where
  limits :
      (n : ℕ)
      → w ≡ "LIMIT"
      → parse_unsigned usize_limit v ≡ some n
      → p.limit ≡ none
      → q ≡ record p { limit = some n }
      → Applies w v p q
  shifts :
      (n : ℕ)
      → w ≡ "OFFSET"
      → parse_unsigned usize_limit v ≡ some n
      → p.offset_seen ≡ false
      → q ≡ record p { offset = n; offset_seen = true }
      → Applies w v p q

apply_clause-Applies :
    (w v : String) (p q : Paging) → apply_clause w (some v) p ≡ ok q → Applies w v p q
unfolding apply_clause
apply_clause-Applies w v p q h = elim (Bool-cases (w == "LIMIT")) [
  | inl word ↦ elim (Option-cases (parse_unsigned usize_limit v)) [
    | inl bad ↦ absurd (ground arith)
    | inr (n, e) ↦ elim (Option-cases p.limit) [
      | inl fresh ↦ limits n ((eq_iff w "LIMIT").0 word) e fresh (ground arith)
      | inr (m, again) ↦ absurd (ground arith)
    ]
  ]
  | inr other ↦ elim (Bool-cases (w == "OFFSET")) [
    | inr neither ↦ absurd (ground arith)
    | inl word ↦ elim (Option-cases (parse_unsigned usize_limit v)) [
      | inl bad ↦ absurd (ground arith)
      | inr (n, e) ↦ elim (Bool-cases p.offset_seen) [
        | inl again ↦ absurd (ground arith)
        | inr fresh ↦ shifts n ((eq_iff w "OFFSET").0 word) e fresh (ground arith)
      ]
    ]
  ]
]

apply_clause-none : (w : String) (p q : Paging) → ¬ (apply_clause w none p ≡ ok q)
unfolding apply_clause
apply_clause-none w p q h = ground arith

clauses_sound : (p q : Paging) (tokens : List String) → clauses tokens p ≡ ok q → Clauses p tokens q
unfolding clauses
clauses_sound p q [] h = let e : p ≡ q = cc in rw (← e) done
clauses_sound p q (t ∷ []) h = elim (Bool-cases (t == ";")) [
  | inl semi ↦ let e : p ≡ q = ground arith in rw (← e) (terminated ((eq_iff t ";").0 semi))
  | inr other ↦ absurd (apply_clause-none (upper t) p q (rw other at h))
]
clauses_sound p q (t ∷ v ∷ rest) h = elim (Bool-cases (t == ";")) [
  | inl semi ↦ absurd (ground arith)
  | inr other ↦
      let (m, applied, later) =
        >>=-ok (clauses rest) (apply_clause (upper t) (some v) p) (rw other at h) in
      go other (apply_clause-Applies (upper t) v p m applied) (clauses_sound m q rest later)
]
  where
    go :
        {m : Paging}
        → (t == ";") ≡ false
        → Applies (upper t) v p m
        → Clauses m rest q
        → Clauses p (t ∷ v ∷ rest) q
    go other (limits n word e fresh same) tail =
        limited n (ground (arith, eq_iff t ";")) word e fresh (rw same at tail)
    go other (shifts n word e fresh same) tail =
        shifted n (ground (arith, eq_iff t ";")) word e fresh (rw same at tail)

apply_clause_limit :
    (w v : String) (n : ℕ) (p : Paging)
    → w ≡ "LIMIT"
    → parse_unsigned usize_limit v ≡ some n
    → p.limit ≡ none
    → apply_clause w (some v) p ≡ ok (record p { limit = some n })
unfolding apply_clause
apply_clause_limit w v n p word e fresh = rw word (ground arith)

apply_clause_offset :
    (w v : String) (n : ℕ) (p : Paging)
    → w ≡ "OFFSET"
    → parse_unsigned usize_limit v ≡ some n
    → p.offset_seen ≡ false
    → apply_clause w (some v) p ≡ ok (record p { offset = n; offset_seen = true })
unfolding apply_clause
apply_clause_offset w v n p word e fresh = rw word (ground arith)

clauses_complete :
    {p q : Paging} {tokens : List String} → Clauses p tokens q → clauses tokens p ≡ ok q
unfolding clauses
clauses_complete done = refl
clauses_complete (terminated {p} {t} semi) = rw semi
clauses_complete (limited {p} {t = t} {v = v} n other word e fresh tail) =
    ground
      (arith, eq_iff t ";", apply_clause_limit (upper t) v n p word e fresh, clauses_complete tail)
clauses_complete (shifted {p} {t = t} {v = v} n other word e fresh tail) =
    ground
      (arith, eq_iff t ";", apply_clause_offset (upper t) v n p word e fresh, clauses_complete tail)

-- What the grammar demands of the words, after the first two.
pub record IsSelect (tokens : List String) (offset : ℕ) (limit : Option ℕ) : Type 0 where
  pub from : String
  pub table : String
  pub has_from : get_elem? tokens 2 ≡ some from
  pub is_from : upper from ≡ "FROM"
  pub has_table : get_elem? tokens 3 ≡ some table
  pub is_keys : upper table ≡ "KEYS"
  pub paging : Paging
  pub tail : Clauses unpaged (drop 4 tokens) paging
  pub same_offset : paging.offset ≡ offset
  pub same_limit : paging.limit ≡ limit

select_tokens_sound :
    (tokens : List String) (offset : ℕ) (limit : Option ℕ)
    → select_tokens tokens ≡ ok (select_keys offset limit)
    → IsSelect tokens offset limit
unfolding select_tokens eq_ignore_case
select_tokens_sound tokens offset limit h = elim (Option-cases (get_elem? tokens 2)) [
  | inl missing ↦ absurd (ground arith)
  | inr (from, has_from) ↦ elim (Option-cases (get_elem? tokens 3)) [
    | inl missing ↦ absurd (ground arith)
    | inr (table, has_table) ↦ elim (Result-cases (clauses (drop 4 tokens) unpaged)) [
      | inr (e, failed) ↦ absurd (ground arith)
      | inl (p, ran) ↦ record {
        from = from;
        table = table;
        has_from = has_from;
        is_from = ground (arith, eq_iff (upper from) "FROM");
        has_table = has_table;
        is_keys = ground (arith, eq_iff (upper table) "KEYS");
        paging = p;
        tail = clauses_sound unpaged p (drop 4 tokens) ran;
        same_offset = ground arith;
        same_limit = ground arith;
      }
    ]
  ]
]

select_tokens_complete :
    (tokens : List String) (offset : ℕ) (limit : Option ℕ)
    → IsSelect tokens offset limit
    → select_tokens tokens ≡ ok (select_keys offset limit)
unfolding select_tokens eq_ignore_case
select_tokens_complete tokens offset limit s =
    ground
      (arith, eq_iff (upper s.from) "FROM", eq_iff (upper s.table) "KEYS", clauses_complete s.tail)

-- `parse_select` accepts exactly the tokens that, without a `;` glued to the last one, have FROM as
-- their third and the `keys` table as their fourth, in any letter case, followed by a clause list of
-- the grammar, and it returns the page that the clauses name.
pub parse_select_iff :
    (tokens : List String) (offset : ℕ) (limit : Option ℕ)
    → (parse_select tokens ≡ ok (select_keys offset limit))
      ↔ ((words : List String) × Terminated tokens words × IsSelect words offset limit)
unfolding parse_select
parse_select_iff tokens offset limit = (
  λ h. (
    strip_terminator tokens,
    strip_terminator-Terminated tokens,
    select_tokens_sound (strip_terminator tokens) offset limit h,
  ),
  λ (words, ended, s).
      rw (parse_select, Terminated-strip_terminator ended)
        (select_tokens_complete words offset limit s),
)
