-- ===== src/Cache/Search.antt =====
-- crates/esmail/src/db.rs and its child cached.rs: what is read from the cache for a search and for
-- a folder that is shown before the server answers. SQLite's full-text index and the date libraries
-- are parameters.
pub mod Newest
pub mod Hits
use esmail.Prelude.{
  ℕ, Bool, true, false, not, ◌&&◌, ◌||◌, Option, none, some, List, [], ◌∷◌, map, Str, str_eq, leb,
  ltb, ◌==◌, if◌then◌else◌, keep, take, sort_by,
}
use esmail.Prelude.Int.{ℤ, ltb_ℤ}
use esmail.Mail.{MailHeader, is_seen}
use esmail.Query.{
  ParsedQuery, to_fts_match, query_is_empty, message_filters, matches, message_timestamp,
}
use esmail.Folders.{str_leb}
use esmail.Table.{Key, Row, is_in, row_at}
use esmail.Cache.{Message, FtsText, Cache}
use esmail.Cache.Index.{header_of}

-- `(?1 IS NULL OR column = ?1)`.
abbrev pub is_null_or : Option Str → Str → Bool
is_null_or none column = true
is_null_or (some x) column = str_eq column x

abbrev pub in_scope : Option Str → Option Str → Key → Bool
in_scope account_id mailbox k = is_null_or account_id k.account_id && is_null_or mailbox k.mailbox

pub record SearchHit : Type 0 where
  pub account_id : Str
  pub mailbox : Str
  pub header : MailHeader

abbrev pub hit_of : Key → Message → SearchHit
hit_of k m = record { account_id = k.account_id; mailbox = k.mailbox; header = header_of k m }

abbrev pub joined_hit : Key → Option Message → List SearchHit → List SearchHit
joined_hit k none rest = rest
joined_hit k (some m) rest = hit_of k m ∷ rest

-- The join of the index rows with the messages.
unfoldable pub joined_hits : List (Row Message) → List (Row FtsText) → List SearchHit
joined_hits messages [] = []
joined_hits messages (f ∷ fs) = joined_hit f.key (row_at f.key messages) (joined_hits messages fs)

-- What the libraries do: `fts_match` gives the rows of the index that match, in the order of their
-- rank.
pub record SearchLibraries : Type 0 where
  pub fts_match : Str → List (Row FtsText) → List (Row FtsText)
  pub parse_date : Str → Option ℤ
  pub dateparse : Str → Option ℤ

-- `Reverse` of an optional time: a later one first, none last.
unfoldable pub is_newer : Option ℤ → Option ℤ → Bool
is_newer none none = true
is_newer none (some u) = false
is_newer (some t) none = true
is_newer (some t) (some u) = not (ltb_ℤ t u)

abbrev pub newest_first : (Str → Option ℤ) → SearchHit → SearchHit → Bool
newest_first dateparse g h =
    is_newer (message_timestamp dateparse g.header.date) (message_timestamp dateparse h.header.date)

unfoldable pub passes : SearchLibraries → ParsedQuery → SearchHit → Bool
passes lib q hit =
    matches lib.dateparse (message_filters lib.parse_date q) hit.header.date (is_seen hit.header)

unfoldable pub text_hits : SearchLibraries → Option Str → Option Str → Str → Cache → List SearchHit
unfolding joined_hits
text_hits lib account_id mailbox text c = joined_hits c.messages (
    keep (λ (r : Row FtsText). in_scope account_id mailbox r.key)
      (lib.fts_match text c.messages_fts))

unfoldable pub scoped_hits : Option Str → Option Str → Cache → List SearchHit
scoped_hits account_id mailbox c =
    map (λ (r : Row Message). hit_of r.key r.columns)
      (keep (λ (r : Row Message). in_scope account_id mailbox r.key) c.messages)

unfoldable pub search :
    SearchLibraries → Option Str → ParsedQuery → Option Str → Cache → List SearchHit
unfolding text_hits scoped_hits passes is_newer
search lib account_id q mailbox c = elim (to_fts_match q) [
  | some text ↦ keep (passes lib q) (text_hits lib account_id mailbox text c)
  | none ↦
      if query_is_empty q
      then []
      else sort_by (newest_first lib.dateparse)
          (keep (passes lib q) (scoped_hits account_id mailbox c))
]

-- `ORDER BY uid DESC`.
abbrev pub higher_uid : Row Message → Row Message → Bool
higher_uid r s = leb s.key.uid r.key.uid

unfoldable pub newest : Str → Str → ℕ → Cache → List MailHeader
newest account_id mailbox limit c =
    map (λ (r : Row Message). header_of r.key r.columns)
      (take limit (
        sort_by higher_uid (keep (λ (r : Row Message). is_in account_id mailbox r.key) c.messages)))

-- `SELECT DISTINCT`, of names in order: a name is left out if the next is the same.
unfoldable pub distinct : List Str → List Str
distinct [] = []
distinct (s ∷ []) = s ∷ []
distinct (s ∷ t ∷ rest) = let later = distinct (t ∷ rest) in if str_eq s t then later else s ∷ later

unfoldable pub mailboxes : Str → Cache → List Str
unfolding distinct
mailboxes account_id c = distinct (
    sort_by str_leb (
      map (λ (r : Row Message). r.key.mailbox)
        (keep (λ (r : Row Message). str_eq r.key.account_id account_id) c.messages)))
