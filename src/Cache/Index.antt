-- ===== src/Cache/Index.antt =====
-- crates/esmail/src/db.rs and its child cached.rs: the statements that fill the tables of messages,
-- of bodies and of the full-text index. The JSON and base64 libraries are parameters; of the rows
-- cached at the same time, the one that was inserted first counts as the oldest.
pub mod Evicted
pub mod Stored
use esmail.Prelude.{
  ℕ, suc, zero, ◌-◌, Bool, true, false, Option, none, some, List, [], ◌∷◌, ◌++◌, map, Str, codes,
  Bytes, as_bytes, length, leb, all, is_some, if◌then◌else◌, join, split_whitespace,
}
use esmail.Mail.{MailHeader}
use esmail.Table.{Key, Row, row_at, upsert_row, delete_row}
use esmail.Cache.{Message, Body, FtsText, Cache}

pub record Attachment : Type 0 where
  pub filename : Str
  pub mime_type : Str
  pub «data» : Bytes

pub record CachedAttachment : Type 0 where
  pub filename : Str
  pub mime_type : Str
  pub «data» : Str

pub record Codecs : Type 0 where
  pub to_json : List CachedAttachment → Option Str
  pub from_json : Str → Option (List CachedAttachment)
  pub encode : Bytes → Str
  pub decode : Str → Option Bytes

abbrev pub max_cached_bodies : ℕ
max_cached_bodies = 2000

unfoldable pub flags_column : MailHeader → Str
flags_column header = join header.flags (codes " ")

unfoldable pub parse_flags_column : Str → List Str
parse_flags_column s = split_whitespace s

abbrev pub cached_attachment : (Bytes → Str) → Attachment → CachedAttachment
cached_attachment encode a = record {
  filename = a.filename;
  mime_type = a.mime_type;
  «data» = encode a.«data»;
}

unfoldable pub attachments_column : Codecs → List Attachment → Option Str
attachments_column lib attachments = lib.to_json (map (cached_attachment lib.encode) attachments)

-- The `filter_map`: an attachment that base64 cannot read is left out.
unfoldable pub decoded : (Str → Option Bytes) → List CachedAttachment → List Attachment
decoded decode [] = []
decoded decode (c ∷ cs) =
    let rest = decoded decode cs in
    elim (decode c.«data») [
      | none ↦ rest
      | some bytes ↦
          record { filename = c.filename; mime_type = c.mime_type; «data» = bytes } ∷ rest
    ]

unfoldable pub parse_attachments_column : Codecs → Str → List Attachment
unfolding decoded
parse_attachments_column lib s = elim (lib.from_json s) [
  | none ↦ []
  | some cached ↦ decoded lib.decode cached
]

-- `ORDER BY cached_at ASC LIMIT 1`: the oldest of the rows, and the others.
unfoldable pub split_oldest : Row Body → List (Row Body) → Row Body × List (Row Body)
split_oldest r [] = (r, [])
split_oldest r (s ∷ rs) =
    let later = split_oldest s rs in
    elim (leb r.columns.cached_at later.0.columns.cached_at) [
      | true ↦ (r, s ∷ rs)
      | false ↦ (later.0, r ∷ later.1)
    ]

unfoldable pub drop_oldest : List (Row Body) → List (Row Body)
unfolding split_oldest
drop_oldest [] = []
drop_oldest (r ∷ rs) = (split_oldest r rs).1

-- The deletion with a `LIMIT`.
unfoldable pub drop_oldest_rows : ℕ → List (Row Body) → List (Row Body)
unfolding drop_oldest
drop_oldest_rows zero rs = rs
drop_oldest_rows (suc limit) rs = drop_oldest_rows limit (drop_oldest rs)

-- `MAX(0, COUNT(*) - ?1)` is the subtraction on ℕ.
unfoldable pub evict_lru_bodies : ℕ → List (Row Body) → List (Row Body)
unfolding drop_oldest_rows
evict_lru_bodies max_rows rs = drop_oldest_rows (length rs - max_rows) rs

abbrev pub key_of : Str → Str → MailHeader → Key
key_of account_id mailbox header = record {
  account_id = account_id;
  mailbox = mailbox;
  uid = header.uid;
}

-- The columns that a header gives, with the size of the row.
abbrev pub message_of : MailHeader → ℕ → Message
message_of header size = record {
  subject = header.subject;
  from_addr = header.from;
  to_addr = header.to;
  date = header.date;
  message_id = header.message_id;
  size = size;
  flags = flags_column header;
}

unfoldable pub index_header : Str → Str → MailHeader → Cache → Cache
index_header account_id mailbox header c = record c {
  messages =
      upsert_row (λ (old : Message). message_of header old.size) (key_of account_id mailbox header)
        (message_of header 0) c.messages;
}

unfoldable pub index_headers : Str → Str → List MailHeader → Cache → Cache
unfolding index_header
index_headers account_id mailbox [] c = c
index_headers account_id mailbox (header ∷ headers) c =
    index_headers account_id mailbox headers (index_header account_id mailbox header c)

abbrev pub fts_text : MailHeader → Str → FtsText
fts_text header body = record {
  subject = header.subject;
  from_addr = header.from;
  to_addr = header.to;
  body = body;
}

-- The statements of `index_mail` after `attachments_column`, with its result.
unfoldable pub index_body : Key → MailHeader → Str → Str → ℕ → Cache → Cache
unfolding evict_lru_bodies
index_body k header body attachments now c =
    let new : Body = record { body = body; attachments = attachments; cached_at = now } in
    record c {
      bodies = evict_lru_bodies max_cached_bodies (upsert_row (λ old. new) k new c.bodies);
      messages_fts =
          delete_row k c.messages_fts ++ record { key = k; columns = fts_text header body } ∷ [];
    }

-- The message is written before `attachments_column` can fail. The result is whether all succeeded.
unfoldable pub index_mail :
    Codecs → Str → Str → MailHeader → Str → List Attachment → ℕ → Cache → Cache × Bool
unfolding index_body
index_mail lib account_id mailbox header body attachments now c =
    let k = key_of account_id mailbox header in
    let new = message_of header (length (as_bytes body)) in
    let stored = record c { messages = upsert_row (λ old. new) k new c.messages } in
    elim (attachments_column lib attachments) [
      | none ↦ (stored, false)
      | some json ↦ (index_body k header body json now stored, true)
    ]

-- The body of the loop of `index_headers_searchable`.
unfoldable pub index_header_searchable : Str → Str → MailHeader → Cache → Cache
index_header_searchable account_id mailbox header c =
    let k = key_of account_id mailbox header in
    let indexed = index_header account_id mailbox header c in
    elim (row_at k c.messages) [
      | some known ↦ indexed
      | none ↦ record indexed {
        messages_fts =
            indexed.messages_fts ++ record { key = k; columns = fts_text header [] } ∷ [];
      }
    ]

unfoldable pub index_headers_searchable : Str → Str → List MailHeader → Cache → Cache
unfolding index_header_searchable
index_headers_searchable account_id mailbox [] c = c
index_headers_searchable account_id mailbox (header ∷ headers) c =
    index_headers_searchable account_id mailbox headers
      (index_header_searchable account_id mailbox header c)

pub record CachedMail : Type 0 where
  pub header : MailHeader
  pub body : Str
  pub attachments : List Attachment

abbrev pub header_of : Key → Message → MailHeader
header_of k m = record {
  uid = k.uid;
  subject = m.subject;
  from = m.from_addr;
  to = m.to_addr;
  date = m.date;
  message_id = m.message_id;
  flags = parse_flags_column m.flags;
}

unfoldable pub joined_mail : Codecs → Key → Option Message → Option Body → Option CachedMail
joined_mail lib k none b = none
joined_mail lib k (some m) none = none
joined_mail lib k (some m) (some b) = some (record {
  header = header_of k m;
  body = b.body;
  attachments = parse_attachments_column lib b.attachments;
})

-- The join of the message with its body; no row is the error.
unfoldable pub fetch_mail : Codecs → Key → Cache → Option CachedMail
unfolding joined_mail
fetch_mail lib k c = joined_mail lib k (row_at k c.messages) (row_at k c.bodies)
