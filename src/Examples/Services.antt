-- ===== src/Examples/Services.antt =====
-- Examples of crates/esmail/src/watcher.rs and of crates/mail-mock-server/src/store.rs.
use esmail.Prelude.{◌≡◌, refl, none, some, List, [], ◌∷◌, ◌++◌, Str, codes, arith}
use esmail.Config.{AccountConfig, Auth, secret, ssl, password}
use esmail.Watcher.{
  Accounts, ImapEvent, connected_event, mailbox_polled, unread_counts, started, apply_accounts, get,
}
use esmail.Watcher.States.{view, run, follow_run, view-run}
use esmail.Watcher.Accounts.{get-apply_accounts}
use esmail.MockStore.{Mailbox, StoredMessage, Envelope, new_mailbox, append, expunge, store_flags}
use esmail.MockStore.Uids.{Reach, opened, then, appended, stored, expunged}

abbrev config : Str → AccountConfig
config id = record {
  id = id;
  display_name = codes "Work";
  imap_host = codes "imap.x.org";
  imap_port = 993;
  imap_tls = ssl;
  smtp_host = codes "smtp.x.org";
  smtp_port = 465;
  smtp_tls = ssl;
  username = codes "al";
  auth = password;
  watch_mailbox = none;
  oauth_token_issued_at = none;
}

abbrev accounts : Accounts
accounts = (codes "a", started (config (codes "a")) (secret (codes "pw"))) ∷ []

abbrev events : List (Str × ImapEvent)
events =
    (codes "a", connected_event)
    ∷ (codes "a", mailbox_polled (codes "INBOX"))
    ∷ (codes "b", connected_event)
    ∷ (codes "a", unread_counts ((codes "INBOX", 3) ∷ []))
    ∷ []

view-run_example :
    view (codes "a") (run events accounts)
    ≡ follow_run (codes "a") events accounts (view (codes "a") accounts)
view-run_example = view-run (codes "a") events accounts

abbrev first_account : List (AccountConfig × Auth)
first_account = (config (codes "a"), secret (codes "pw")) ∷ []

abbrev desired : List (AccountConfig × Auth)
desired = first_account ++ (config (codes "b"), secret (codes "qw")) ∷ []

get-apply_accounts_example :
    (get (codes "b") (apply_accounts desired accounts)
      ≡ some (started (config (codes "b")) (secret (codes "qw"))))
    × (get (codes "c") (apply_accounts desired accounts) ≡ none)
get-apply_accounts_example =
    get-apply_accounts first_account [] (config (codes "b")) (secret (codes "qw")) (codes "c")
      accounts refl refl refl

abbrev no_envelope : Envelope
no_envelope = record { date = []; subject = []; from = none; to = none; message_id = [] }

abbrev message : StoredMessage
message = record {
  uid = 4;
  raw = [];
  envelope = no_envelope;
  flags = codes "\\Seen" ∷ codes "\\Flagged" ∷ [];
}

abbrev mailbox : Mailbox
mailbox = record { name = codes "INBOX"; messages = message ∷ []; uid_validity = 1; uid_next = 5 }

abbrev inbox : Mailbox
inbox = new_mailbox (codes "INBOX") 1

changes :
    Reach (expunge (store_flags 1 (codes "\\Deleted" ∷ []) [] (append [] no_envelope inbox).0).0).0
unfolding new_mailbox
changes =
    then (store_flags 1 (codes "\\Deleted" ∷ []) [] (append [] no_envelope inbox).0).0
      (expunge (store_flags 1 (codes "\\Deleted" ∷ []) [] (append [] no_envelope inbox).0).0).0
      (then (append [] no_envelope inbox).0
        (store_flags 1 (codes "\\Deleted" ∷ []) [] (append [] no_envelope inbox).0).0
        (then inbox (append [] no_envelope inbox).0 (opened (codes "INBOX") 1)
          (appended inbox [] no_envelope (omega arith)))
        (stored (append [] no_envelope inbox).0 1 (codes "\\Deleted" ∷ []) []))
      (expunged (store_flags 1 (codes "\\Deleted" ∷ []) [] (append [] no_envelope inbox).0).0)
