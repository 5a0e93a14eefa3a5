-- ===== src/Lib.antt =====
-- Models of the core of esMail, a mail client, and theorems about them.
--
-- The crate esmail holds the mail logic: the folder tree and the message headers that the IMAP
-- actor reports (imap.rs), the search grammar (search_query.rs), the decision when to announce
-- new mail (notify.rs), the background listener (watcher.rs), the local database with the
-- cache, the outbox and the drafts (db.rs), the start of a reply or a forward (compose.rs),
-- the suggestions for its recipients (contacts.rs) and the sign-in with its tokens (oauth.rs).
-- The crate esmail-win32 shows it: an open folder gathers pages and refreshes of headers into
-- rows (core_glue/mailbox.rs), the selection follows the edits of these rows (selection.rs),
-- the body loads decide which message is fetched and shown (core_glue/loads.rs), the folders
-- are nodes of a tree whose ids name them (core_glue/folders.rs), and the deliveries tie a
-- message on its way to its row of the outbox (core_glue/deliveries.rs). The crate mail-mock-
-- server holds the mailboxes that the integration tests run against (store.rs), behind an IMAP
-- server (imap_server.rs) and an SMTP server (smtp_server.rs), which deliver to that store.
--
-- Which file models which part:
--   Prelude     texts as lists of code points, machine words, lists, options, Boolean tests
--   Loads       crates/esmail-win32/src/core_glue/loads.rs: Latest (begin, is_current) and
--               BodyLoads (want, cancel, finished, start_wanted)
--   Selection   crates/esmail-win32/src/selection.rs: Selection with its operations, nav_target
--               and navigate
--   Mail        crates/esmail/src/imap.rs: MailHeader; crates/esmail/src/view_model.rs: RowModel
--   Mailbox     crates/esmail-win32/src/core_glue/mailbox.rs: OpenFolder with its operations
--   Query       crates/esmail/src/search_query.rs: tokenize, parse, to_fts_match and the filters
--   Folders     crates/esmail/src/imap.rs: mailbox_tree, flatten_tree, visible_rows, descendants
--   Notify      crates/esmail/src/notify.rs: update_watermark and the text of a toast
--   Watcher     crates/esmail/src/watcher.rs: apply_accounts, restart_account and handle
--   Config      crates/esmail/src/config.rs: AccountConfig; crates/esmail/src/auth.rs: Auth; the
--               settings of the providers and the changes of Config (Accounts)
--   AccountForm crates/esmail-win32/src/core_glue/account_form.rs: AccountForm, detect and
--               to_account
--   Outbox      crates/esmail/src/db.rs: the retry queue (enqueue_outbox, due_outbox,
--               mark_outbox_failed, delete_outbox)
--   Table       crates/esmail/src/db.rs: the tables with the key (account_id, mailbox, uid) and
--               the statements on their rows
--   Cache       crates/esmail/src/db.rs: sync_decision, report_mailbox_state, update_flags and
--               the removals; what indexes a message, the cap on the bodies and fetch_mail
--               (Index); search (Search) and the drafts (Drafts); the commands and events of
--               DbActor with its loop (Actor). crates/esmail/src/db/cached.rs:
--               index_headers_searchable (Index), newest and mailboxes (Search)
--   Deliveries  crates/esmail-win32/src/core_glue/deliveries.rs: Deliveries with its operations
--   FolderTree  crates/esmail-win32/src/core_glue/folders.rs: FolderTree with its operations
--   SearchResults crates/esmail-win32/src/core_glue/results.rs: SearchResults
--   Links       crates/esmail-win32/src/core_glue/links.rs: classify, and the links that the
--               application writes itself
--   MockStore   crates/mail-mock-server/src/store.rs: Mailbox and Store
--   ImapServer  crates/mail-mock-server/src/imap_server.rs: tokenize and the responses (Syntax),
--               the session (State), the arms of handle_connection (Access, Fetch, Change), its
--               loop as a step on lines, literals, deliveries and the end of the stream
--               (Connection)
--   SmtpServer  crates/mail-mock-server/src/smtp_server.rs: handle_connection as a step on lines,
--               and read_dot_terminated_body
--   ViewModel   crates/esmail/src/view_model.rs: progress_label, safe_attachment_filename and
--               find_special_use_mailbox
--   Compose     crates/esmail/src/compose.rs: ComposeState with reply, reply_all and forward
--   Contacts    crates/esmail/src/contacts.rs: from_headers, matching, complete_recipient
--   Oauth       crates/esmail/src/oauth.rs: resolve_google_client and await_redirect;
--               parse_token_response and TokenSource (Tokens)
--   Examples    the theorems at concrete inputs
-- An operation that changes its object takes the object as its last argument and returns it, in
-- front of what the source returns. A `Vec` is a list, a map an association list, and a panic
-- past the end of a slice is `none`. A connection of a server is a session with a mode, which
-- says what it waits for; a step takes the session and the store and gives the output and both
-- after it, and the lock on the store makes each step one change.
--
-- Bounds: a u32 or u64 is a number whose addition wraps; where a theorem needs that it does not,
-- the bound is a hypothesis. Row indices are usize of 64 bits. The row ids that SQLite gives out
-- have no bound: past the largest it refuses the insert. Loops are structural recursions.
-- Only the decimal digits of a number use fuel, one more than the number, which has fewer digits.
--
-- Parameters: the mail library's date parser and the calendar's, the display of a date in the
-- local zone, the form encoding of the url library, the JSON of the serde library, the codec
-- of base64, the full-text match of SQLite, the decoder of UTF-8 and the mail parser of the
-- mock servers, the HTML sanitizer of compose, the url library's parser and the requests to
-- the token endpoint.
--
-- Not modelled: the size, range and export formatters of view_model.rs, the file, the schema's
-- migrations and the failures of the local database, the network side of the IMAP and SMTP
-- clients, the listeners and greetings of the mock servers and a lost connection in the middle
-- of a line, the sockets, randomness and clock of a sign-in, the configuration's file, the
-- rendering of message bodies, the HTML view and the windows of the application.
pub mod AccountForm
pub mod Prelude
pub mod Links
pub mod Loads
pub mod SearchResults
pub mod Selection
pub mod Mail
pub mod Mailbox
pub mod Query
pub mod FolderTree
pub mod Folders
pub mod MockStore
pub mod Notify
pub mod Config
pub mod Watcher
pub mod Examples
pub mod Outbox
pub mod Cache
pub mod ImapServer
pub mod SmtpServer
pub mod Table
pub mod Compose
pub mod Contacts
pub mod Deliveries
pub mod Oauth
pub mod ViewModel
