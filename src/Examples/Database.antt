-- ===== src/Examples/Database.antt =====
-- Examples of crates/esmail/src/db.rs and its child cached.rs.
use esmail.Prelude.{
  ℕ, ◌≡◌, refl, ap, sym, subst, Bool-cases, inl, inr, Bool, true, ◌&&◌, Option, none, some, List,
  [], ◌∷◌, ◌++◌, Str, codes, arith, str_eq, str_eq→eq, if◌then◌else◌, All, length,
}
use mathlib.Core.List.{Perm}
use esmail.Mail.{MailHeader}
use esmail.Query.{ParsedQuery, empty, to_fts_match}
use esmail.Compose.{ComposeState}
use esmail.Table.{Key, Row, key_eq}
use esmail.Cache.{Message, Body, Cache}
use esmail.Cache.Index.{
  Attachment, CachedAttachment, Codecs, attachments_column, key_of, evict_lru_bodies, index_mail,
  fetch_mail,
}
use esmail.Cache.Index.Evicted.{AreOlder, evict_lru_bodies-oldest}
use esmail.Cache.Index.Stored.{IsCodec, index_mail-fetch_mail}
use esmail.Cache.Search.{search}
use esmail.Cache.Search.Hits.{IsHit, IsOrdered, filtered, search-IsHit}
use esmail.Cache.Drafts.{Drafts, save_draft, load_draft, write_draft}
use esmail.Cache.Drafts.Saved.{save_draft-load_draft}
use esmail.Cache.Sound.{IsSound}
use esmail.Cache.Actor.{
  DbCommand, index_mail_command, fetch_mail_command, remove_account_command,
  index_headers_searchable_command, Database, Libraries, handle, run,
}
use esmail.Cache.Actor.Sound.{run-IsSound}
use esmail.Cache.Actor.Answers.{IsAnswered, handle-IsAnswered}
use esmail.Cache.Actor.Removed.{IsElsewhere, remove_account-IsElsewhere}
use esmail.Cache.{remove_account}

-- A codec of at most one attachment, a text file of the name `a.txt`.
abbrev text_file : Str → CachedAttachment
text_file s = record { filename = codes "a.txt"; mime_type = codes "text/plain"; «data» = s }

abbrev is_text_file : CachedAttachment → Bool
is_text_file a = str_eq a.filename (codes "a.txt") && str_eq a.mime_type (codes "text/plain")

abbrev to_json : List CachedAttachment → Option Str
to_json [] = some []
to_json (a ∷ []) = if is_text_file a then some (b'1' ∷ a.«data») else none
to_json (a ∷ b ∷ more) = none

abbrev from_json : Str → Option (List CachedAttachment)
from_json [] = some []
from_json (c ∷ s) = some (text_file s ∷ [])

abbrev codecs : Codecs
codecs = record { to_json = to_json; from_json = from_json; encode = λ b. b; decode = λ s. some s }

text_file-data : (a : CachedAttachment) → is_text_file a ≡ true → text_file a.«data» ≡ a
text_file-data a e =
    let p : a.filename ≡ codes "a.txt" = str_eq→eq a.filename (codes "a.txt") (ground arith) in
    let q : a.mime_type ≡ codes "text/plain" =
      str_eq→eq a.mime_type (codes "text/plain") (ground arith) in
    sym (λ i. record { filename = p i; mime_type = q i; «data» = a.«data» })

from_json-to_json :
    (xs : List CachedAttachment) (json : Str) → to_json xs ≡ some json → from_json json ≡ some xs
from_json-to_json [] json e =
    let p : [] ≡ json = ground (arith, e) in subst (λ j. from_json j ≡ some []) p refl
from_json-to_json (a ∷ []) json e = elim (Bool-cases (is_text_file a)) [
  | inr f ↦ absurd (ground (arith, f))
  | inl f ↦
      let p : b'1' ∷ a.«data» ≡ json = ground (arith, f) in
      subst (λ j. from_json j ≡ some (a ∷ [])) p (ap (λ x. some (x ∷ [])) (text_file-data a f))
]
from_json-to_json (a ∷ b ∷ more) json e = cc

codecs-IsCodec : IsCodec codecs
codecs-IsCodec = record { from_json-to_json = from_json-to_json; decode-encode = λ bytes. refl }

abbrev draft : Str → ComposeState
draft subject = record {
  to = [];
  cc = [];
  bcc = [];
  subject = subject;
  body = [];
  in_reply_to = none;
  references = none;
  attachments = [];
  account_id = none;
  draft_id = none;
}

abbrev dinner : ParsedQuery
dinner = record empty { text = codes "Dinner" ∷ [] }

abbrev header : ℕ → MailHeader
header uid = record {
  uid = uid;
  subject = codes "Dinner";
  from = codes "al@x.org";
  to = codes "bo@x.org";
  date = codes "Mon, 1 Jan 2026 12:00:00 +0000";
  message_id = codes "<1@x.org>";
  flags = codes "\\Seen" ∷ codes "\\Flagged" ∷ [];
}

abbrev key : ℕ → Key
key uid = key_of (codes "a") (codes "INBOX") (header uid)

abbrev file : Attachment
file = record { filename = codes "a.txt"; mime_type = codes "text/plain"; «data» = 1 ∷ 255 ∷ [] }

abbrev body_row : ℕ → ℕ → Row Body
body_row uid at = record {
  key = key uid;
  columns = record { body = codes "old"; attachments = []; cached_at = at };
}

abbrev message_row : ℕ → Row Message
message_row uid = record {
  key = key uid;
  columns = record {
    subject = codes "Dinner";
    from_addr = codes "al@x.org";
    to_addr = codes "bo@x.org";
    date = codes "Mon, 1 Jan 2026 12:00:00 +0000";
    message_id = [];
    size = 3;
    flags = codes "\\Flagged";
  };
}

abbrev cache : Cache
cache = record {
  messages = message_row 4 ∷ message_row 6 ∷ [];
  bodies = body_row 4 100 ∷ [];
  messages_fts = [];
  mailboxes = [];
}

abbrev indexed : Cache
indexed =
    (index_mail codecs (codes "a") (codes "INBOX") (header 7) (codes "Hi") (file ∷ []) 200 cache).0

index_mail-fetch_mail_example :
    fetch_mail codecs (key 7) indexed
    ≡ some (record { header = header 7; body = codes "Hi"; attachments = file ∷ [] })
unfolding index_mail attachments_column
index_mail-fetch_mail_example =
    index_mail-fetch_mail codecs (codes "a") (codes "INBOX") (header 7) (codes "Hi") (file ∷ []) 200
      cache indexed codecs-IsCodec (omega arith) (omega arith, tt)
      ((refl, refl), ((refl, refl), tt)) refl

evict_lru_bodies-oldest_example :
    (length (evict_lru_bodies 1 (body_row 4 100 ∷ body_row 5 90 ∷ body_row 6 110 ∷ [])) ≡ 1)
    × ((gone : List (Row Body)) × Perm
          (gone ++ evict_lru_bodies 1 (body_row 4 100 ∷ body_row 5 90 ∷ body_row 6 110 ∷ []))
          (body_row 4 100 ∷ body_row 5 90 ∷ body_row 6 110 ∷ [])
        × AreOlder gone (evict_lru_bodies 1 (body_row 4 100 ∷ body_row 5 90 ∷ body_row 6 110 ∷ [])))
evict_lru_bodies-oldest_example =
    evict_lru_bodies-oldest 1 (body_row 4 100 ∷ body_row 5 90 ∷ body_row 6 110 ∷ [])

abbrev lib : Libraries
lib = record {
  codecs = codecs;
  searching = record {
    fts_match = λ text rows. rows;
    parse_date = λ s. none;
    dateparse = λ s. none;
  };
  json = record { to_json = λ s. some s.subject; from_json = λ s. some (draft s) };
}

abbrev unread : ParsedQuery
unread = record empty { is_unread = true }

search-IsHit_example :
    All
      (IsHit lib.searching unread (some (codes "a")) none cache)
      (search lib.searching (some (codes "a")) unread none cache)
    × IsOrdered lib.searching
        (to_fts_match unread)
        (filtered lib.searching (some (codes "a")) unread none cache)
        (search lib.searching (some (codes "a")) unread none cache)
unfolding key_eq
search-IsHit_example =
    search-IsHit lib.searching (some (codes "a")) unread none cache (refl, (refl, refl))

abbrev database : Database
database = record {
  cache = record { messages = []; bodies = []; messages_fts = []; mailboxes = [] };
  outbox = record { rows = []; last_id = 0 };
  drafts = record { rows = []; last_id = 0 };
}

abbrev commands : List (ℕ × DbCommand)
commands =
    (100, index_headers_searchable_command (codes "a") (codes "INBOX") (header 7 ∷ header 8 ∷ []))
    ∷ (101, index_mail_command (codes "a") (codes "INBOX") (header 7) (codes "Hi") (file ∷ []))
    ∷ (102, remove_account_command (codes "b"))
    ∷ []

run-IsSound_example : IsSound (run lib commands database).0.cache
run-IsSound_example = run-IsSound lib commands database (refl, refl, refl, tt, tt, omega arith)

handle-IsAnswered_example :
    IsAnswered (fetch_mail_command (key 7)) (handle lib 100 (fetch_mail_command (key 7)) database).1
handle-IsAnswered_example = handle-IsAnswered lib 100 (fetch_mail_command (key 7)) database

remove_account-IsElsewhere_example :
    All
      (IsElsewhere (codes "a"))
      (search lib.searching none dinner none (remove_account (codes "a") cache))
    × (fetch_mail codecs (key 4) (remove_account (codes "a") cache) ≡ none)
remove_account-IsElsewhere_example =
    remove_account-IsElsewhere lib.searching codecs (codes "a") none none dinner (key 4) cache

abbrev drafts : Drafts
drafts = record {
  rows = record { id = 1; account_id = none; compose_json = codes "Lunch"; updated_at = 90 } ∷ [];
  last_id = 2;
}

abbrev saved : Drafts
saved = (write_draft none none (codes "Dinner") 100 drafts).0

save_draft-load_draft_example :
    (load_draft lib.json 3 saved ≡ some (draft (codes "Dinner")))
    × (load_draft lib.json 1 saved ≡ load_draft lib.json 1 drafts)
unfolding save_draft write_draft
save_draft-load_draft_example =
    save_draft-load_draft lib.json none none (draft (codes "Dinner")) 100 3 1 drafts saved
      (λ json e. ap (λ o. elim o [ none ↦ none | some s ↦ some (draft s) ]) (sym e))
      (omega arith, tt) refl refl refl
