-- ===== src/Cache.antt =====
-- crates/esmail/src/db.rs: what the local cache holds of each mailbox. The SQL statements succeed.
pub mod Sync
pub mod Sound
pub mod Index
pub mod Search
pub mod Drafts
pub mod Actor
use esmail.Table.{Key, Row, update_row, delete_row, delete_mailbox, delete_account}
use esmail.Prelude.{
  ℕ, Bool, not, ◌&&◌, Option, none, some, List, [], ◌∷◌, map, Str, codes, str_eq, leb, ltb, ◌==◌,
  if◌then◌else◌, keep, join,
}

pub data SyncPlan : Type 0 where
  up_to_date resync : SyncPlan
  fetch_from : ℕ → SyncPlan  -- first_new_uid

unfoldable pub sync_decision : Option (ℕ × ℕ) → ℕ → ℕ → SyncPlan
sync_decision none server_uid_validity server_uid_next =
    if leb server_uid_next 1 then up_to_date else fetch_from 1
sync_decision (some (prev_validity, prev_uid_next)) server_uid_validity server_uid_next =
    if not (prev_validity == server_uid_validity)
    then resync
    else if ltb prev_uid_next server_uid_next
    then fetch_from prev_uid_next
    else up_to_date

-- The columns of a row besides its key.
pub record Message : Type 0 where
  pub subject : Str
  pub from_addr : Str
  pub to_addr : Str
  pub date : Str
  pub message_id : Str
  pub size : ℕ  -- i64
  pub flags : Str

pub record Body : Type 0 where
  pub body : Str
  pub attachments : Str
  pub cached_at : ℕ  -- i64

pub record FtsText : Type 0 where
  pub subject : Str
  pub from_addr : Str
  pub to_addr : Str
  pub body : Str

pub record MailboxState : Type 0 where
  pub account_id : Str
  pub mailbox : Str
  pub uid_validity : ℕ  -- u32
  pub uid_next : ℕ  -- u32

pub record Cache : Type 0 where
  pub messages : List (Row Message)
  pub bodies : List (Row Body)
  pub messages_fts : List (Row FtsText)
  pub mailboxes : List MailboxState

abbrev pub is_for : Str → Str → MailboxState → Bool
is_for account_id mailbox s = str_eq s.account_id account_id && str_eq s.mailbox mailbox

unfoldable pub stored_state : Str → Str → List MailboxState → Option (ℕ × ℕ)
stored_state account_id mailbox [] = none
stored_state account_id mailbox (s ∷ ss) =
    let rest = stored_state account_id mailbox ss in
    if is_for account_id mailbox s then some (s.uid_validity, s.uid_next) else rest

-- `INSERT ... ON CONFLICT (account_id, mailbox) DO UPDATE`.
unfoldable pub upsert : MailboxState → List MailboxState → List MailboxState
upsert new [] = new ∷ []
upsert new (s ∷ ss) =
    let rest = upsert new ss in
    if is_for new.account_id new.mailbox s
    then record s { uid_validity = new.uid_validity; uid_next = new.uid_next } ∷ ss
    else s ∷ rest

-- The three deletions of a resync.
unfoldable pub wipe : SyncPlan → Str → Str → Cache → Cache
wipe resync account_id mailbox c = record c {
  messages = delete_mailbox account_id mailbox c.messages;
  bodies = delete_mailbox account_id mailbox c.bodies;
  messages_fts = delete_mailbox account_id mailbox c.messages_fts;
}
wipe plan account_id mailbox c = c

unfoldable pub report_mailbox_state : Str → Str → ℕ → ℕ → Cache → Cache × SyncPlan
unfolding sync_decision stored_state upsert wipe
report_mailbox_state account_id mailbox uid_validity uid_next c =
    let plan = sync_decision (stored_state account_id mailbox c.mailboxes) uid_validity uid_next in
    let wiped = wipe plan account_id mailbox c in
    (
      record wiped {
        mailboxes =
            upsert
              (record {
                account_id = account_id;
                mailbox = mailbox;
                uid_validity = uid_validity;
                uid_next = uid_next;
              })
              wiped.mailboxes;
      },
      plan,
    )

-- `UPDATE messages SET flags = ...`, for the row if there is one.
unfoldable pub update_flags : Key → List Str → Cache → Cache
update_flags k flags c = record c {
  messages = update_row (λ (m : Message). record m { flags = join flags (codes " ") }) k c.messages;
}

unfoldable pub remove_account : Str → Cache → Cache
remove_account account_id c = record {
  messages = delete_account account_id c.messages;
  bodies = delete_account account_id c.bodies;
  messages_fts = delete_account account_id c.messages_fts;
  mailboxes = keep (λ (s : MailboxState). not (str_eq s.account_id account_id)) c.mailboxes;
}

unfoldable pub remove_message : Key → Cache → Cache
remove_message k c = record c {
  messages = delete_row k c.messages;
  bodies = delete_row k c.bodies;
  messages_fts = delete_row k c.messages_fts;
}
