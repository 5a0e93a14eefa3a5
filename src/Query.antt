-- ===== src/Query.antt =====
-- crates/esmail/src/search_query.rs: the search query grammar. A string is the list of its code
-- points; the date libraries are the parameters of `message_filters` and `matches`.
pub mod Quoting
pub mod Terms
pub mod Fields
pub mod Filters
use esmail.Prelude.{
  ℕ, Bool, true, false, not, ◌&&◌, ◌||◌, Option, none, some, List, [], ◌∷◌, ◌++◌, map, Str, codes,
  str_eq, is_empty, is_some, is_none, is_whitespace, strip_prefix, join, ◌==◌, if◌then◌else◌,
  get_elem?, is_just, nat_eq,
}
use esmail.Prelude.Int.{ℤ, pos, ltb_ℤ}

pub record ParsedQuery : Type 0 where
  pub text : List Str
  pub from : List Str
  pub to : List Str
  pub subject : List Str
  pub body : List Str
  pub since : Option Str
  pub before : Option Str
  pub is_unread : Bool
  pub has_attachment : Bool

abbrev pub empty : ParsedQuery
empty = record {
  text = [];
  from = [];
  to = [];
  subject = [];
  body = [];
  since = none;
  before = none;
  is_unread = false;
  has_attachment = false;
}

-- A token is pushed if it is not empty.
abbrev pub flush : Str → List Str → List Str
flush [] rest = rest
flush (c ∷ cs) rest = (c ∷ cs) ∷ rest

-- The loop of `tokenize`: `skip` says that the next character was consumed by `chars.next()` in the
-- branch of a doubled quote, and `s` is what `chars` has left, which `peek` looks into.
unfoldable pub tokens_from : Bool → Bool → Str → Str → List Str
tokens_from skip in_quotes current [] = flush current []
tokens_from skip in_quotes current (c ∷ s) =
    let skipped = tokens_from false in_quotes current s in
    let escaped = tokens_from true in_quotes (current ++ b'"' ∷ []) s in
    let toggled = tokens_from false (not in_quotes) current s in
    let split = flush current (tokens_from false in_quotes [] s) in
    let pushed = tokens_from false in_quotes (current ++ c ∷ []) s in
    if skip
    then skipped
    else if c == b'"' && in_quotes && is_just nat_eq (get_elem? s 0) b'"'
    then escaped
    else if c == b'"'
    then toggled
    else if is_whitespace c && not in_quotes
    then split
    else pushed

unfoldable pub tokenize : Str → List Str
unfolding tokens_from
tokenize input = tokens_from false false [] input

abbrev pub non_empty : Option Str → Option Str
non_empty none = none
non_empty (some []) = none
non_empty (some (c ∷ cs)) = some (c ∷ cs)

unfoldable pub non_empty_suffix : Str → Str → Option Str
non_empty_suffix token prefix = non_empty (strip_prefix token prefix)

-- The body of the loop of `parse`.
unfoldable pub add_token : Str → ParsedQuery → ParsedQuery
unfolding non_empty_suffix
add_token token q = elim (non_empty_suffix token (codes "from:")) [
  | some rest ↦ record q { from = q.from ++ rest ∷ [] }
  | none ↦ elim (non_empty_suffix token (codes "to:")) [
    | some rest ↦ record q { to = q.to ++ rest ∷ [] }
    | none ↦ elim (non_empty_suffix token (codes "subject:")) [
      | some rest ↦ record q { subject = q.subject ++ rest ∷ [] }
      | none ↦ elim (non_empty_suffix token (codes "body:")) [
        | some rest ↦ record q { body = q.body ++ rest ∷ [] }
        | none ↦ elim (non_empty_suffix token (codes "since:")) [
          | some rest ↦ record q { since = some rest }
          | none ↦ elim (non_empty_suffix token (codes "before:")) [
            | some rest ↦ record q { before = some rest }
            | none ↦
                if str_eq token (codes "is:unread")
                then record q { is_unread = true }
                else if str_eq token (codes "has:attachment")
                then record q { has_attachment = true }
                else if not (is_empty token)
                then record q { text = q.text ++ token ∷ [] }
                else q
          ]
        ]
      ]
    ]
  ]
]

unfoldable pub add_tokens : List Str → ParsedQuery → ParsedQuery
unfolding add_token
add_tokens [] q = q
add_tokens (token ∷ rest) q = add_tokens rest (add_token token q)

unfoldable pub parse : Str → ParsedQuery
unfolding add_tokens tokenize
parse input = add_tokens (tokenize input) empty

unfoldable pub is_fts_empty : ParsedQuery → Bool
is_fts_empty q =
    is_empty q.text && is_empty q.from && is_empty q.to && is_empty q.subject && is_empty q.body

unfoldable pub query_is_empty : ParsedQuery → Bool
unfolding is_fts_empty
query_is_empty q = is_fts_empty q && is_none q.since && is_none q.before && not q.is_unread

-- `term.replace('"', "\"\"")`.
unfoldable pub double_quotes : Str → Str
double_quotes [] = []
double_quotes (c ∷ s) =
    let rest = double_quotes s in if c == b'"' then b'"' ∷ b'"' ∷ rest else c ∷ rest

unfoldable pub fts_quote : Str → Str
unfolding double_quotes
fts_quote term = b'"' ∷ (double_quotes term ++ b'"' ∷ [])

field_clause : Str → Str → Str
field_clause column term = column ++ fts_quote term

text_clause : Str → Str
text_clause term =
    let q = fts_quote term in
    codes "(subject:"
    ++ (q ++ (codes " OR from_addr:" ++ (q ++ (codes " OR body:" ++ (q ++ codes ")")))))

unfoldable pub to_fts_match : ParsedQuery → Option Str
unfolding is_fts_empty field_clause text_clause
to_fts_match q =
    if is_fts_empty q
    then none
    else some (
        join
          (map (field_clause (codes "from_addr:")) q.from
            ++ (map (field_clause (codes "to_addr:")) q.to
                ++ (map (field_clause (codes "subject:")) q.subject
                    ++ (map (field_clause (codes "body:")) q.body ++ map text_clause q.text))))
          (codes " AND "))

pub record MessageFilters : Type 0 where
  pub since : Option ℤ
  pub before : Option ℤ
  pub unread_only : Bool

abbrev pub and_then {ℓ κ} : {A : Type ℓ} {B : Type κ} → Option A → (A → Option B) → Option B
and_then none f = none
and_then (some a) f = f a

-- `parse_date` is the calendar library's reading of `YYYY-MM-DD` as seconds at 00:00 UTC.
unfoldable pub message_filters : (Str → Option ℤ) → ParsedQuery → MessageFilters
message_filters parse_date q = record {
  since = and_then q.since parse_date;
  before = and_then q.before parse_date;
  unread_only = q.is_unread;
}

-- `dateparse` is the mail library's reading of a `Date` header.
unfoldable pub message_timestamp : (Str → Option ℤ) → Str → Option ℤ
message_timestamp dateparse s =
    and_then (dateparse s) (λ t. if ltb_ℤ (pos 0) t then some t else none)

abbrev pub is_some_and {ℓ} : {A : Type ℓ} → Option A → (A → Bool) → Bool
is_some_and none p = false
is_some_and (some a) p = p a

in_range : MessageFilters → Option ℤ → Bool
in_range f none = false
in_range f (some ts) =
    if is_some_and f.since (λ since. ltb_ℤ ts since)
    then false
    else if is_some_and f.before (λ before. not (ltb_ℤ ts before))
    then false
    else true

unfoldable pub matches : (Str → Option ℤ) → MessageFilters → Str → Bool → Bool
unfolding message_timestamp in_range
matches dateparse f date is_seen =
    if f.unread_only && is_seen
    then false
    else if is_some f.since || is_some f.before
    then in_range f (message_timestamp dateparse date)
    else true
