-- ===== src/Cache/Sound.antt =====
-- What holds of the tables of the cache between the operations.
use esmail.Prelude.{
  ℕ, ◌≤◌, ◌≡◌, Bool, true, false, not, List, [], ◌∷◌, ◌++◌, Str, arith, str_eq, join, codes,
  All-append, All-keep, length, length-keep, keep, Option-cases, inl, inr, as_bytes,
}
use esmail.Mail.{MailHeader}
use esmail.Table.{
  Key, Row, is_in, key_eq, row_at, upsert_row, update_row, delete_row, delete_mailbox,
  delete_account, has_key,
}
use esmail.Table.Keys.{
  key_eq_refl, IsUnique, IsUnique-keep, IsUnique-upsert_row, IsUnique-update_row,
  has_key-upsert_row, has_key-update_row,
}
use esmail.Table.Within.{
  has_key-row_at, has_key-delete_row, IsUnique-push, IsWithin, IsWithin-grown, IsWithin-keep_by,
  IsWithin-absent, IsWithin-upserted,
}
use esmail.Cache.{
  SyncPlan, up_to_date, resync, fetch_from, Message, Body, FtsText, Cache, wipe,
  report_mailbox_state, update_flags, remove_account, remove_message, sync_decision, stored_state,
}
use esmail.Cache.Index.{
  Attachment, Codecs, max_cached_bodies, message_of, fts_text, key_of, evict_lru_bodies,
  index_header, index_headers, index_body, index_mail, attachments_column, index_header_searchable,
  index_headers_searchable,
}
use esmail.Cache.Index.Evicted.{
  All-evict_lru_bodies, IsUnique-evict_lru_bodies, evict_lru_bodies-oldest,
}

-- No message has two rows in a table, every body and every row of the index is that of a message,
-- and there are no more bodies than the cap.
abbrev pub IsSound : Cache → Type 0
IsSound c =
    IsUnique c.messages
    × IsUnique c.bodies
    × IsUnique c.messages_fts
    × IsWithin c.bodies c.messages
    × IsWithin c.messages_fts c.messages
    × (length c.bodies ≤ max_cached_bodies)

-- Another table of messages that has the keys of the one before.
IsSound-grown :
    (ms : List (Row Message)) (c : Cache)
    → IsUnique ms
    → ((j : Key) → has_key j c.messages ≡ true → has_key j ms ≡ true)
    → IsSound c
    → IsSound (record c { messages = ms })
IsSound-grown ms c unique grown (u, v, w, b, f, n) = (
  unique,
  v,
  w,
  IsWithin-grown c.bodies c.messages ms grown b,
  IsWithin-grown c.messages_fts c.messages ms grown f,
  n,
)

IsSound-upserted :
    (change : Message → Message) (k : Key) (new : Message) (c : Cache)
    → IsSound c
    → IsSound (record c { messages = upsert_row change k new c.messages })
IsSound-upserted change k new c s =
    IsSound-grown (upsert_row change k new c.messages) c
      (IsUnique-upsert_row change k new c.messages s.0)
      (λ j e. ground (arith, has_key-upsert_row change j k new c.messages, e)) s

-- A deletion by the key from the three tables.
kept : (Key → Bool) → Cache → Cache
kept q c = record c {
  messages = keep (λ (r : Row Message). q r.key) c.messages;
  bodies = keep (λ (r : Row Body). q r.key) c.bodies;
  messages_fts = keep (λ (r : Row FtsText). q r.key) c.messages_fts;
}

IsSound-kept : (q : Key → Bool) (c : Cache) → IsSound c → IsSound (kept q c)
unfolding kept
IsSound-kept q c (u, v, w, b, f, n) = (
  IsUnique-keep (λ (r : Row Message). q r.key) c.messages u,
  IsUnique-keep (λ (r : Row Body). q r.key) c.bodies v,
  IsUnique-keep (λ (r : Row FtsText). q r.key) c.messages_fts w,
  IsWithin-keep_by q c.bodies c.messages b,
  IsWithin-keep_by q c.messages_fts c.messages f,
  omega (arith, length-keep (λ (r : Row Body). q r.key) c.bodies, n),
)

pub update_flags-IsSound :
    (k : Key) (flags : List Str) (c : Cache) → IsSound c → IsSound (update_flags k flags c)
unfolding update_flags
update_flags-IsSound k flags c s =
    let change = λ (m : Message). record m { flags = join flags (codes " ") } in
    IsSound-grown (update_row change k c.messages) c (IsUnique-update_row change k c.messages s.0)
      (λ j e. ground (arith, has_key-update_row change j k c.messages, e)) s

pub remove_message-IsSound : (k : Key) (c : Cache) → IsSound c → IsSound (remove_message k c)
unfolding remove_message delete_row kept
remove_message-IsSound k c s = IsSound-kept (λ j. not (key_eq j k)) c s

pub remove_account-IsSound : (a : Str) (c : Cache) → IsSound c → IsSound (remove_account a c)
unfolding remove_account delete_account kept
remove_account-IsSound a c s = IsSound-kept (λ j. not (str_eq j.account_id a)) c s

wipe-IsSound : (plan : SyncPlan) (a m : Str) (c : Cache) → IsSound c → IsSound (wipe plan a m c)
unfolding wipe delete_mailbox kept
wipe-IsSound up_to_date a m c s = s
wipe-IsSound resync a m c s = IsSound-kept (λ j. not (is_in a m j)) c s
wipe-IsSound (fetch_from uid) a m c s = s

pub report_mailbox_state-IsSound :
    (a m : Str) (validity next : ℕ) (c : Cache)
    → IsSound c
    → IsSound (report_mailbox_state a m validity next c).0
unfolding report_mailbox_state
report_mailbox_state-IsSound a m validity next c s =
    wipe-IsSound (sync_decision (stored_state a m c.mailboxes) validity next) a m c s

pub index_headers-IsSound :
    (a m : Str) (headers : List MailHeader) (c : Cache)
    → IsSound c
    → IsSound (index_headers a m headers c)
unfolding index_headers index_header
index_headers-IsSound a m [] c s = s
index_headers-IsSound a m (h ∷ hs) c s = index_headers-IsSound a m hs (index_header a m h c) (
    IsSound-upserted (λ (old : Message). message_of h old.size) (key_of a m h) (message_of h 0) c s)

-- A row of the index is added for a message that has none.
IsSound-pushed :
    (k : Key) (text : FtsText) (fts : List (Row FtsText)) (c : Cache)
    → has_key k fts ≡ false
    → IsUnique fts
    → IsWithin fts c.messages
    → has_key k c.messages ≡ true
    → IsSound c
    → IsSound (record c { messages_fts = fts ++ record { key = k; columns = text } ∷ [] })
IsSound-pushed k text fts c absent unique within known (u, v, w, b, f, n) = (
  u,
  v,
  IsUnique-push k text fts absent unique,
  b,
  All-append (λ (r : Row FtsText). has_key r.key c.messages ≡ true) fts
      (record { key = k; columns = text } ∷ []) within (known, tt),
  n,
)

index_header_searchable-IsSound :
    (a m : Str) (h : MailHeader) (c : Cache) → IsSound c → IsSound (index_header_searchable a m h c)
unfolding index_header_searchable index_header
index_header_searchable-IsSound a m h c s =
    let k = key_of a m h in
    let change = λ (old : Message). message_of h old.size in
    let ms = upsert_row change k (message_of h 0) c.messages in
    let indexed = IsSound-upserted change k (message_of h 0) c s in
    elim (Option-cases (row_at k c.messages)) [
      | inr (known, e) ↦ rw (e, index_header_searchable) indexed
      | inl e ↦
          rw (e, index_header_searchable)
            (IsSound-pushed k (fts_text h []) c.messages_fts (record c { messages = ms })
              (IsWithin-absent k c.messages_fts c.messages s.4 (has_key-row_at k c.messages e)) s.2
              indexed.4
              (ground
                (arith, has_key-upsert_row change k k (message_of h 0) c.messages, key_eq_refl k))
              indexed)
    ]

pub index_headers_searchable-IsSound :
    (a m : Str) (headers : List MailHeader) (c : Cache)
    → IsSound c
    → IsSound (index_headers_searchable a m headers c)
unfolding index_headers_searchable
index_headers_searchable-IsSound a m [] c s = s
index_headers_searchable-IsSound a m (h ∷ hs) c s =
    index_headers_searchable-IsSound a m hs (index_header_searchable a m h c)
      (index_header_searchable-IsSound a m h c s)

index_body-IsSound :
    (k : Key) (header : MailHeader) (body json : Str) (now : ℕ) (c : Cache)
    → has_key k c.messages ≡ true
    → IsSound c
    → IsSound (index_body k header body json now c)
unfolding index_body delete_row
index_body-IsSound k header body json now c known (u, v, w, b, f, n) =
    let new : Body = record { body = body; attachments = json; cached_at = now } in
    let written = upsert_row (λ old. new) k new c.bodies in
    let bodies = evict_lru_bodies max_cached_bodies written in
    let others = λ (r : Row FtsText). not (key_eq r.key k) in
    IsSound-pushed k (fts_text header body) (delete_row k c.messages_fts)
      (record c { bodies = bodies }) (has_key-delete_row k c.messages_fts)
      (IsUnique-keep others c.messages_fts w)
      (All-keep (λ (r : Row FtsText). has_key r.key c.messages ≡ true) others c.messages_fts f)
      known
      (
        u,
        IsUnique-evict_lru_bodies max_cached_bodies written
            (IsUnique-upsert_row (λ old. new) k new c.bodies v),
        w,
        All-evict_lru_bodies (λ (r : Row Body). has_key r.key c.messages ≡ true) max_cached_bodies
            written (IsWithin-upserted (λ old. new) k new c.bodies c.messages known b),
        f,
        omega (arith, (evict_lru_bodies-oldest max_cached_bodies written).0),
      )

pub index_mail-IsSound :
    (lib : Codecs) (a m : Str) (header : MailHeader) (body : Str) (attachments : List Attachment)
    (now : ℕ) (c : Cache)
    → IsSound c
    → IsSound (index_mail lib a m header body attachments now c).0
unfolding index_mail
index_mail-IsSound lib a m header body attachments now c s =
    let k = key_of a m header in
    let new = message_of header (length (as_bytes body)) in
    let stored = IsSound-upserted (λ old. new) k new c s in
    let ms = upsert_row (λ old. new) k new c.messages in
    elim (Option-cases (attachments_column lib attachments)) [
      | inl e ↦ rw (e, index_mail) stored
      | inr (json, e) ↦
          rw (e, index_mail)
            (index_body-IsSound k header body json now (record c { messages = ms })
              (ground (arith, has_key-upsert_row (λ old. new) k k new c.messages, key_eq_refl k))
              stored)
    ]
