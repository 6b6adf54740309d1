-- ===== src/Redis/Target/RoundTrip.antt =====
-- A target that src/redis_service.rs builds from a form is one that it opens, on the same database.
use Prim.Native.Char.{Char, code}
use Prim.Native.String.{◌++◌}
use Prim.Native.String
use text.Mathlib.TextLemmas.{append-nil, cons-append, nil-append}
use redis_driver_for_per_wor.Prelude.{
  ℕ, ◌+◌, ◌-◌, ◌*◌, suc, ◌≡◌, refl, ◌∙◌, ◌<◌, ℤ, pos, negsuc, true, false, [], ◌∷◌, Option, none,
  some, String, ◌==◌, ◌&&◌, not, Result, ok, err, eqb, inl, inr, Option-cases, Bool-cases, arith,
}
use redis_driver_for_per_wor.Text.{format, strip_prefix, trim, is_whitespace}
use redis_driver_for_per_wor.Text.Decimal.{IsCons, scan, scan-show, show, show-IsCons}
use redis_driver_for_per_wor.Text.Prefix.{
  StartsPlain, strip_prefix-append, strip_prefix_common, trim-append_left,
}
use redis_driver_for_per_wor.Text.Signed.{
  i64_limit, parse_i64, parse_i64-lt, parse_i64-show, scan-cons,
}
use redis_driver_for_per_wor.Text.Trim.{cons-ne-empty}
use redis_driver_for_per_wor.Dto.Capabilities.{FormValues}
use redis_driver_for_per_wor.Redis.Errors.{contains}
use redis_driver_for_per_wor.Redis.Target.{
  UrlCrate, and_then, bracketed, nonblank, build_redis_uri, build_target, build_url, database_of,
  filled, normalize_target, not_negative, parse_database, parse_form_database, parse_port,
  read_target, set_filled, slashless_cons, starts_with, to_option, trim_end_slashes, trim_slashes,
  trim_start_slashes, unwrap_or,
}

-- The path of a database.
abbrev pub database_path : ℕ → String
database_path n = format ("/" ∷ show n ∷ [])

module _ {U : Type 0} (url : UrlCrate U) where
  open url use {
    parse, set_host, set_port, set_username, set_password, set_path, to_string, scheme, query_pairs,
    path,
  }

  -- A plain URL of the scheme.
  abbrev pub IsPlain : U → Type 0
  IsPlain u = (scheme u ≡ "redis") × (query_pairs u ≡ [])

  -- The URLs that setters make of the base: a host that is not empty, a port, the credentials, and
  -- the path of a database.
  pub data Built : U → Type 0 where
    base : {u : U} → parse "redis://localhost/" ≡ ok u → Built u
    hosted :
        {u v : U} (host : String)
        → (host == "") ≡ false
        → set_host host u ≡ some v
        → Built u
        → Built v
    ported : {u v : U} (port : ℕ) → set_port port u ≡ some v → Built u → Built v
    named : {u v : U} (user : String) → set_username user u ≡ some v → Built u → Built v
    secured : {u v : U} (pass : String) → set_password pass u ≡ some v → Built u → Built v
    pathed : {u : U} (n : ℕ) → Built u → Built (set_path (database_path n) u)

  -- What is documented of the url crate. Setters keep the scheme and the query. A URL that setters
  -- made of the base has a host, so the path that is set is its path, and its text begins with
  -- `redis://`, has no white space around it, and is read back as the URL.
  pub record Laws : Type 0 where
    pub parse_base : (u : U) → parse "redis://localhost/" ≡ ok u → IsPlain u
    pub set_host_plain : (s : String) (u v : U) → IsPlain u → set_host s u ≡ some v → IsPlain v
    pub set_port_plain : (n : ℕ) (u v : U) → IsPlain u → set_port n u ≡ some v → IsPlain v
    pub set_username_plain :
        (s : String) (u v : U) → IsPlain u → set_username s u ≡ some v → IsPlain v
    pub set_password_plain :
        (s : String) (u v : U) → IsPlain u → set_password s u ≡ some v → IsPlain v
    pub set_path_plain : (n : ℕ) (u : U) → IsPlain u → IsPlain (set_path (database_path n) u)
    pub path_set :
        (n : ℕ) (u : U)
        → n < i64_limit
        → Built u
        → path (set_path (database_path n) u) ≡ database_path n
    pub printed : (u : U) → Built u → (rest : String) × (to_string u ≡ "redis://" ++ rest)
    pub printed_trim : (u : U) → Built u → trim (to_string u) ≡ to_string u
    pub parse_printed : (u : U) → Built u → parse (to_string u) ≡ ok u

and_then-some :
    {A D : Type 0} (o : Option A) (f : A → Option D) (d : D)
    → and_then o f ≡ some d
    → (a : A) × (o ≡ some a) × (f a ≡ some d)
and_then-some none f d h = cc
and_then-some (some a) f d h = (a, refl, h)

-- Digits have no slash to trim.
trim_end_slashes-scan :
    (limit a n : ℕ) (s : String) → scan limit s a ≡ some n → trim_end_slashes s ≡ s
unfolding trim_end_slashes
trim_end_slashes-scan limit a n String.[] h = refl
trim_end_slashes-scan limit a n (String.◌∷◌ c s) h =
    let (low, high, next, rest) = scan-cons limit c s a n h in
    let digit : eqb (code c) b'/' ≡ false = ground (arith, low) in
    rw (trim_end_slashes-scan limit (a * 10 + (code c - b'0')) n s rest) (slashless c s digit)
  where
    slashless :
        (c : Char) (s : String) → eqb (code c) b'/' ≡ false → slashless_cons c s ≡ String.◌∷◌ c s
    slashless c String.[] digit = rw digit refl
    slashless c (String.◌∷◌ d s) digit = refl

trim_start_slashes-scan :
    (limit a n : ℕ) (s : String) → scan limit s a ≡ some n → trim_start_slashes s ≡ s
unfolding trim_start_slashes
trim_start_slashes-scan limit a n String.[] h = refl
trim_start_slashes-scan limit a n (String.◌∷◌ c s) h =
    let (low, high, next, rest) = scan-cons limit c s a n h in
    let digit : eqb (code c) b'/' ≡ false = ground (arith, low) in rw digit refl

pub trim_slashes-database_path : (n : ℕ) → trim_slashes (database_path n) ≡ show n
unfolding trim_start_slashes
trim_slashes-database_path n =
    rw
      (
        append-nil (show n),
        cons-append (String.char_at "/" 0) String.[] (show n),
        nil-append (show n),
      )
      (rw (trim_start_slashes-scan (suc n) 0 n (show n) (scan-show n))
        (trim_end_slashes-scan (suc n) 0 n (show n) (scan-show n)))

IsCons-ne-empty : (s : String) → IsCons s → (s == "") ≡ false
IsCons-ne-empty String.[] h = absurd h
IsCons-ne-empty (String.◌∷◌ c s) h = cons-ne-empty c s

-- The database of a form is one that a path can name.
form_database-lt : (s : String) (n : ℕ) → parse_form_database s ≡ some n → n < i64_limit
unfolding parse_form_database
form_database-lt s n h =
    let (i, read, kept) = and_then-some (parse_i64 s) not_negative n h in natural i kept read
  where
    natural : (i : ℤ) → not_negative i ≡ some n → parse_i64 s ≡ some i → n < i64_limit
    natural (pos m) kept read = let same : m ≡ n = cc in rw (← same) (parse_i64-lt m s read)
    natural (negsuc m) kept read = cc

nonblank-ne-empty : (s t : String) → nonblank s ≡ some t → (t == "") ≡ false
nonblank-ne-empty s t h = elim (Bool-cases (s == "")) [
  | inl blank ↦ absurd (ground arith)
  | inr full ↦ let same : s ≡ t = ground arith in rw (← same) full
]

-- The host that is set is never empty.
host-ne-empty : (field : Option String) → (unwrap_or (filled field) "127.0.0.1" == "") ≡ false
host-ne-empty none = refl
host-ne-empty (some s) = elim (Option-cases (nonblank (trim s))) [
  | inl blank ↦ rw blank refl
  | inr (t, full) ↦ rw full (nonblank-ne-empty (trim s) t full)
]

bracketed-ne-empty : (host : String) → (host == "") ≡ false → (bracketed host == "") ≡ false
bracketed-ne-empty host full = elim (Bool-cases (contains host ":" && not (starts_with host "["))) [
  | inl wraps ↦
      rw (wraps, cons-append (String.char_at "[" 0) "" (format (host ∷ "]" ∷ [])))
        (cons-ne-empty (String.char_at "[" 0) ("" ++ format (host ∷ "]" ∷ [])))
  | inr keeps ↦ rw keeps full
]

database_of-show : (n : ℕ) → n < i64_limit → database_of (show n) ≡ ok (pos n)
unfolding database_of parse_form_database
database_of-show n h = rw (IsCons-ne-empty (show n) (show-IsCons n), parse_i64-show n h) refl

module _ {U : Type 0} (url : UrlCrate U) (laws : Laws url) where
  open url use {
    parse, set_host, set_port, set_username, set_password, set_path, to_string, path, scheme,
    query_pairs,
  }

  -- A field of the form, when it is filled, is set with what each URL that is made keeps.
  set_filled_keeps :
      (P : U → Type 0) (set : String → U → Option U) (field : Option String) (u v : U)
      → ((s : String) → set s u ≡ some v → P v)
      → P u
      → set_filled set field u ≡ some v
      → P v
  set_filled_keeps P set none u v keeps p h = let same : u ≡ v = cc in rw (← same) p
  set_filled_keeps P set (some s) u v keeps p h = keeps s h

  to_option-ok : {E A : Type 0} (r : Result E A) (a : A) → to_option r ≡ some a → r ≡ ok a
  to_option-ok (ok b) a h = cc
  to_option-ok (err e) a h = cc

  abbrev IsMade : U → Type 0
  IsMade u = IsPlain url u × Built url u

  -- What was built is a plain URL that setters made of the base, with the path of the database.
  build_url-IsMade :
      (values : FormValues) (port database : ℕ) (u : U)
      → build_url url values port database ≡ some u
      → (v : U) × IsMade v × (u ≡ set_path (database_path database) v)
  unfolding build_url
  build_url-IsMade values port database u h =
      let host = bracketed (unwrap_or (filled values.host) "127.0.0.1") in
      let (base_url, parses, h1) = and_then-some (to_option (parse "redis://localhost/")) _ u h in
      let (with_host, hosts, h2) = and_then-some (set_host host base_url) _ u h1 in
      let (with_port, ports, h3) = and_then-some (set_port port with_host) _ u h2 in
      let (with_user, names, h4) =
        and_then-some (set_filled set_username (filled values.user) with_port) _ u h3 in
      let (with_pass, secures, h5) =
        and_then-some (set_filled set_password (filled values.pass) with_user) _ u h4 in
      let parsed = to_option-ok _ base_url parses in
      let made_host : IsMade with_host = (
        laws.set_host_plain host base_url with_host (laws.parse_base base_url parsed) hosts,
        hosted host (bracketed-ne-empty _ (host-ne-empty values.host)) hosts (base parsed),
      ) in
      let made_port : IsMade with_port = (
        laws.set_port_plain port with_host with_port made_host.0 ports,
        ported port ports made_host.1,
      ) in
      let made_user : IsMade with_user =
        set_filled_keeps IsMade set_username (filled values.user) with_port with_user
          (λ s e.
            (laws.set_username_plain s with_port with_user made_port.0 e, named s e made_port.1))
          made_port names in
      let made_pass : IsMade with_pass =
        set_filled_keeps IsMade set_password (filled values.pass) with_user with_pass
          (λ s e.
            (laws.set_password_plain s with_user with_pass made_user.0 e, secured s e made_user.1))
          made_user secures in
      (with_pass, made_pass, cc h5)

  AfterLabel : String → Type 0
  AfterLabel uri = StartsPlain uri × (strip_prefix uri "//" ≡ none) × ((uri == "") ≡ false)

  format-AfterLabel : (rest : String) → AfterLabel ("redis://" ++ rest)
  unfolding AfterLabel is_whitespace strip_prefix
  format-AfterLabel rest =
      rw (cons-append (String.char_at "r" 0) "edis://" rest)
        (refl, refl, cons-ne-empty (String.char_at "r" 0) ("edis://" ++ rest))

  normalize_target-label :
      (uri : String) → AfterLabel uri → trim uri ≡ uri → normalize_target ("redis:" ++ uri) ≡ ok uri
  unfolding normalize_target AfterLabel is_whitespace
  normalize_target-label uri (starts, other, nonempty) trimmed =
      let label : trim ("redis:" ++ uri) ≡ "redis:" ++ uri =
        trim-append_left "redis:" uri refl starts trimmed in
      let passed : strip_prefix ("redis:" ++ uri) "redis://" ≡ none =
        strip_prefix_common "redis:" uri "//" ∙ other in
      let unprefixed : starts_with ("redis:" ++ uri) "redis://" ≡ false =
        rw (starts_with, passed) refl in
      rw (label, unprefixed, strip_prefix-append "redis:" uri, trimmed, nonempty) refl

  to_string-AfterLabel : (u : U) → Built url u → AfterLabel (to_string u)
  to_string-AfterLabel u made =
      let (rest, starts) = laws.printed u made in rw starts (format-AfterLabel rest)

  read_target-label :
      (u : U) (n : ℕ)
      → IsMade u
      → path u ≡ database_path n
      → n < i64_limit
      → read_target url ("redis:" ++ to_string u) ≡ ok (to_string u, pos n)
  unfolding read_target parse_database
  read_target-label u n (plain, made) at_path small =
      rw
        (
          normalize_target-label (to_string u) (to_string-AfterLabel u made)
              (laws.printed_trim u made),
          laws.parse_printed u made,
          plain.0,
          plain.1,
          at_path,
          trim_slashes-database_path n,
          database_of-show n small,
        )
        refl

  -- When the form gives a target, `open` accepts it: it reads the target as the URI that was built,
  -- without its label, and the database as the one of the form, which is 0 when the field is blank.
  pub read_target-build_target :
      (values : FormValues)
      → (build_target url values).ok ≡ true
      → (uri : String) × (database : ℕ) × (build_redis_uri url values ≡ some uri)
        × (parse_form_database (unwrap_or (filled values.database) "0") ≡ some database)
        × (read_target url (build_target url values).target ≡ ok (uri, pos database))
  unfolding build_target build_redis_uri
  read_target-build_target values h = elim (Option-cases (build_redis_uri url values)) [
    | inl missing ↦
        let refused : (build_target url values).ok ≡ false = rw missing refl in
        absurd (cc (refused, h))
    | inr (uri, found) ↦
        let (port, ports, h1) =
          and_then-some (parse_port (unwrap_or (filled values.port) "6379")) _ uri found in
        let (n, database, h2) =
          and_then-some (parse_form_database (unwrap_or (filled values.database) "0")) _ uri h1 in
        let (u, builds, h3) = and_then-some (build_url url values port n) _ uri h2 in
        let (v, (plain, kept), made) = build_url-IsMade values port n u builds in
        let small : n < i64_limit =
          form_database-lt (unwrap_or (filled values.database) "0") n database in
        let made_u : IsMade u = rw made (laws.set_path_plain n v plain, pathed n kept) in
        let at_path : path u ≡ database_path n = rw made (laws.path_set n v small kept) in
        let printed : to_string u ≡ uri = cc h3 in
        let target : (build_target url values).target ≡ "redis:" ++ to_string u =
          rw (found, append-nil uri, printed) refl in
        (
          uri,
          n,
          found,
          database,
          rw (target, ← printed) (read_target-label u n made_u at_path small),
        )
  ]
