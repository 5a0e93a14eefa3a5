-- ===== src/Examples/Glue.antt =====
-- Examples of crates/esmail-win32/src/core_glue: deliveries.rs, folders.rs,
-- account_form.rs and links.rs.
use esmail.Prelude.{
  ℕ, true, ◌↔◌, trim, as_bytes, ◌≡◌, refl, false, not, ◌==◌, Option, none, some, List, [], ◌∷◌, map,
  Bool, Str, codes, arith, keep, All, str_eq, if◌then◌else◌,
}
use esmail.Compose.{ComposeState}
use esmail.Outbox.{OutboxItem}
use esmail.Deliveries.{Deliveries, owned, is_owned, retries}
use esmail.Deliveries.Owned.{IsFresh}
use esmail.Deliveries.Retries.{
  AreNumbered, AreInFlight, message_of, sendable, unknown, retries-once,
}
use esmail.Folders.{MailboxRow}
use esmail.FolderTree.{AccountFolders, folder_hash}
use esmail.FolderTree.Ids.{IsNode, selection-make_id}
use esmail.Config.{AccountConfig, ssl, password}
use esmail.Prelude.Decimal.{parse_below}
use esmail.Config.Accounts.{Config, system, new, rsplit_once, upsert_account}
use esmail.Config.Saved.{account_at, saved_over}
use esmail.AccountForm.{AccountForm, default, to_account}
use esmail.AccountForm.Usable.{IsUsable, id_for, to_account-upsert_account}
use esmail.Links.{browser, classify}
use esmail.Links.Safe.{is_web, classify-is_web}

abbrev message : ComposeState
message = record {
  to = codes "bo@x.org";
  cc = [];
  bcc = [];
  subject = codes "Dinner";
  body = [];
  in_reply_to = none;
  references = none;
  attachments = [];
  account_id = none;
  draft_id = none;
}

abbrev item : ℕ → Str → OutboxItem ComposeState
item id account_id = record {
  id = id;
  account_id = account_id;
  attempts = 1;
  last_error = none;
  compose = message;
}

abbrev account_index : Str → Option ℕ
account_index id = if str_eq id (codes "a") then some 0 else none

-- Row 4 is being sent under the id 2, and the window 1 owns row 5.
abbrev deliveries : Deliveries
deliveries = record {
  last_id = 2;
  in_flight = (2, record { account = 0; state = message }) ∷ [];
  outbox_rows = (2, 4) ∷ (1, 5) ∷ [];
}

abbrev due : List (OutboxItem ComposeState)
due = item 4 (codes "a") ∷ item 5 (codes "a") ∷ item 6 (codes "a") ∷ item 7 (codes "gone") ∷ []

abbrev is_open : ℕ → Bool
is_open id = id == 1

retries-once_example :
    let items = keep (λ i. not (is_owned (owned is_open deliveries) i)) due in
    let (after, started, unsendable) = retries account_index due is_open deliveries in
    (map message_of started ≡ sendable account_index items)
    × (unsendable ≡ unknown account_index items)
    × AreNumbered 2 started
    × AreInFlight after started
    × IsFresh after
    × ((retries account_index due is_open after).1 ≡ [])
retries-once_example =
    retries-once account_index due is_open deliveries (omega arith)
      ((omega arith, tt), (omega arith, (omega arith, tt)))

abbrev row : Str → MailboxRow
row name = record {
  depth = 0;
  label = name;
  full_name = some name;
  special_use = none;
  key = name;
  has_children = false;
}

abbrev folders : AccountFolders
folders = record {
  label = codes "Work";
  rows = row (codes "a") ∷ row (codes "b") ∷ [];
  unread = [];
}

selection-make_id_example : All (IsNode 0 (folders ∷ [])) folders.rows
unfolding folder_hash as_bytes
selection-make_id_example =
    selection-make_id 0 (folders ∷ []) folders (omega arith) refl ((refl, tt), (tt, refl))

abbrev form : AccountForm
form = record default {
  email = codes " al@x.org ";
  password = codes "pw";
  imap_host = codes "imap.x.org";
  smtp_host = codes "smtp.x.org";
}

abbrev account : AccountConfig
account = record {
  id = codes "al@x.org@imap.x.org";
  display_name = codes "al@x.org";
  imap_host = codes "imap.x.org";
  imap_port = 993;
  imap_tls = ssl;
  smtp_host = codes "smtp.x.org";
  smtp_port = 465;
  smtp_tls = ssl;
  username = codes "al@x.org";
  auth = password;
  watch_mailbox = none;
  oauth_token_issued_at = none;
}

abbrev config : Config
config = record {
  accounts = record account { watch_mailbox = some (codes "Work") } ∷ [];
  theme = system;
  image_trusted_senders = [];
  collapsed_folders = [];
}

to_account-upsert_account_example :
    let accounts = (upsert_account account config).accounts in
    let stored = saved_over account (account_at account.id config.accounts) in
    (account.id ≡ id_for form none)
    × IsUsable stored
    × (account_at account.id accounts ≡ some stored)
    × (account_at (codes "b") accounts ≡ account_at (codes "b") config.accounts)
unfolding to_account new rsplit_once parse_below
to_account-upsert_account_example =
    to_account-upsert_account form none account config (codes "b") refl refl

classify-is_web_example :
    (classify (codes " https://x.org/a ") ≡ browser (codes "https://x.org/a")) ↔ (
      (codes "https://x.org/a" ≡ trim (codes " https://x.org/a "))
      × (is_web (trim (codes " https://x.org/a ")) ≡ true))
classify-is_web_example = classify-is_web (codes " https://x.org/a ") (codes "https://x.org/a")
