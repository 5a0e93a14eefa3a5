-- ===== src/Query/Filters.antt =====
-- Which messages the filters of a query let through.
use esmail.Prelude.{
  ◌≡◌, Bool, true, false, ◌&&◌, ◌||◌, Option, none, some, Str, arith, is_some, ◌↔◌,
}
use esmail.Prelude.Int.{ℤ, ltb_ℤ}
use esmail.Query.{
  ParsedQuery, MessageFilters, message_filters, message_timestamp, matches, in_range,
  query_is_empty, to_fts_match,
}

-- A query that `is_empty` reports gives SQLite nothing to match and lets every message through.
query_is_empty-matches :
    (parse_date dateparse : Str → Option ℤ) (q : ParsedQuery) (date : Str) (is_seen : Bool)
    → query_is_empty q ≡ true
    → (to_fts_match q ≡ none)
      × (matches dateparse (message_filters parse_date q) date is_seen ≡ true)
unfolding query_is_empty to_fts_match matches message_filters
query_is_empty-matches parse_date dateparse q date is_seen e = ground arith

-- The time is not before the bound, and it is before the bound, where there is one.
abbrev pub IsFrom : ℤ → Option ℤ → Type 0
IsFrom t none = true ≡ true
IsFrom t (some since) = ltb_ℤ t since ≡ false

abbrev pub IsBefore : ℤ → Option ℤ → Type 0
IsBefore t none = true ≡ true
IsBefore t (some before) = ltb_ℤ t before ≡ true

-- With a date in the query, a message whose date can be read passes exactly if this is not before
-- `since` and is before `before`, and if it is unread where the query asks for that.
matches-in_range :
    (dateparse : Str → Option ℤ) (f : MessageFilters) (date : Str) (is_seen : Bool) (t : ℤ)
    → (is_some f.since || is_some f.before) ≡ true
    → message_timestamp dateparse date ≡ some t
    → (matches dateparse f date is_seen ≡ true)
      ↔ (((f.unread_only && is_seen) ≡ false) × IsFrom t f.since × IsBefore t f.before)
unfolding matches in_range
matches-in_range dateparse f date is_seen t e et = ground (arith, et)
