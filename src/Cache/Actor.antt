-- ===== src/Cache/Actor.antt =====
-- crates/esmail/src/db.rs: the loop of DbActor, which runs one command after another and sends what
-- each gives. The time is the argument of each command, and the text of an error is not kept.
pub mod Answers
pub mod Sound
pub mod Removed
use esmail.Prelude.{ℕ, Bool, true, false, Option, none, some, List, [], ◌∷◌, ◌++◌, Str, map}
use esmail.Mail.{MailHeader}
use esmail.Query.{ParsedQuery}
use esmail.Compose.{ComposeState}
use esmail.Table.{Key}
use esmail.Outbox.{
  Outbox, OutboxItem, enqueue_outbox, due_outbox, list_outbox, delete_outbox, mark_outbox_failed,
}
use esmail.Cache.{
  SyncPlan, Cache, report_mailbox_state, update_flags, remove_message, remove_account,
}
use esmail.Cache.Index.{
  Attachment, Codecs, CachedMail, index_mail, index_headers, index_headers_searchable, fetch_mail,
}
use esmail.Cache.Search.{SearchHit, SearchLibraries, search}
use esmail.Cache.Drafts.{
  Drafts, DraftSummary, ComposeJson, save_draft, list_drafts, load_draft, delete_draft,
}

pub data DbCommand : Type 0 where
  index_mail_command : Str → Str → MailHeader → Str → List Attachment → DbCommand
  index_headers_command index_headers_searchable_command : Str → Str → List MailHeader → DbCommand
  search_command : Option Str → ParsedQuery → Option Str → DbCommand
  fetch_mail_command remove_message_command : Key → DbCommand
  report_mailbox_state_command : Str → Str → ℕ → ℕ → DbCommand
  update_flags_command : Key → List Str → DbCommand
  remove_account_command : Str → DbCommand
  enqueue_outbox_command : Option ℕ → ℕ → Str → ComposeState → DbCommand
  due_outbox_command list_outbox_command list_drafts_command : DbCommand
  mark_outbox_sent_command delete_outbox_command : ℕ → DbCommand
  mark_outbox_failed_command : ℕ → Str → DbCommand
  save_draft_command : Option ℕ → ℕ → Option Str → ComposeState → DbCommand
  load_draft_command delete_draft_command : ℕ → DbCommand

pub data DbEvent : Type 0 where
  search_result : List SearchHit → DbEvent
  mail_fetched : CachedMail → DbEvent
  mail_fetch_failed : ℕ → DbEvent  -- uid
  sync_plan : Str → Str → SyncPlan → DbEvent
  outbox_enqueued draft_saved : ℕ → ℕ → DbEvent  -- id, compose_id
  outbox_due outbox_list : List (OutboxItem ComposeState) → DbEvent
  draft_list : List DraftSummary → DbEvent
  draft_loaded : ℕ → ComposeState → DbEvent
  error : DbEvent

pub record Database : Type 0 where
  pub cache : Cache
  pub outbox : Outbox
  pub drafts : Drafts

pub record Libraries : Type 0 where
  pub codecs : Codecs
  pub searching : SearchLibraries
  pub json : ComposeJson

-- `if let Err(e) = ...`, where only an error is sent.
abbrev pub error_unless : Bool → List DbEvent
error_unless true = []
error_unless false = error ∷ []

-- `match ... { Ok => ..., Err => ... }`, where both send an event.
abbrev pub answer {ℓ} : {A : Type ℓ} → (A → DbEvent) → DbEvent → Option A → DbEvent
answer ok failed none = failed
answer ok failed (some a) = ok a

-- An operation that gives the new table and an id.
abbrev pub saved {ℓ} :
    {T : Type ℓ}
    → (T → Database)
    → (ℕ → DbEvent)
    → Database
    → Option (T × ℕ)
    → Database × List DbEvent
saved put ok db none = (db, error ∷ [])
saved put ok db (some (table, id)) = (put table, ok id ∷ [])

abbrev pub marked : Database → Option Outbox → Database × List DbEvent
marked db none = (db, error ∷ [])
marked db (some o) = (record db { outbox = o }, [])

module _ (lib : Libraries) where
  unfoldable pub handle : ℕ → DbCommand → Database → Database × List DbEvent
  handle now (index_mail_command account_id mailbox header body attachments) db =
      let done = index_mail lib.codecs account_id mailbox header body attachments now db.cache in
      (record db { cache = done.0 }, error_unless done.1)
  handle now (index_headers_command account_id mailbox headers) db =
      (record db { cache = index_headers account_id mailbox headers db.cache }, [])
  handle now (index_headers_searchable_command account_id mailbox headers) db =
      (record db { cache = index_headers_searchable account_id mailbox headers db.cache }, [])
  handle now (search_command account_id query mailbox) db =
      (db, search_result (search lib.searching account_id query mailbox db.cache) ∷ [])
  handle now (fetch_mail_command k) db =
      (db, answer mail_fetched (mail_fetch_failed k.uid) (fetch_mail lib.codecs k db.cache) ∷ [])
  handle now (report_mailbox_state_command account_id mailbox uid_validity uid_next) db =
      let (after, plan) = report_mailbox_state account_id mailbox uid_validity uid_next db.cache in
      (record db { cache = after }, sync_plan account_id mailbox plan ∷ [])
  handle now (update_flags_command k flags) db =
      (record db { cache = update_flags k flags db.cache }, [])
  handle now (remove_message_command k) db = (record db { cache = remove_message k db.cache }, [])
  handle now (remove_account_command account_id) db =
      (record db { cache = remove_account account_id db.cache }, [])
  handle now (enqueue_outbox_command id compose_id account_id compose) db =
      saved (λ o. record db { outbox = o }) (λ new. outbox_enqueued new compose_id) db
        (enqueue_outbox lib.json.to_json lib.json.from_json id account_id compose now db.outbox)
  handle now due_outbox_command db = (
    db,
    answer outbox_due error (due_outbox lib.json.to_json lib.json.from_json now db.outbox) ∷ [],
  )
  handle now list_outbox_command db = (
    db,
    answer outbox_list error (list_outbox lib.json.to_json lib.json.from_json db.outbox) ∷ [],
  )
  handle now (mark_outbox_sent_command id) db =
      (record db { outbox = delete_outbox id db.outbox }, [])
  handle now (mark_outbox_failed_command id reason) db =
      marked db (mark_outbox_failed id reason now db.outbox)
  handle now (delete_outbox_command id) db = (record db { outbox = delete_outbox id db.outbox }, [])
  handle now (save_draft_command id compose_id account_id compose) db =
      saved (λ d. record db { drafts = d }) (λ new. draft_saved new compose_id) db
        (save_draft lib.json id account_id compose now db.drafts)
  handle now list_drafts_command db =
      (db, answer draft_list error (list_drafts lib.json db.drafts) ∷ [])
  handle now (load_draft_command id) db =
      (db, answer (draft_loaded id) error (load_draft lib.json id db.drafts) ∷ [])
  handle now (delete_draft_command id) db = (record db { drafts = delete_draft id db.drafts }, [])

  -- The loop, over the commands with the time of each.
  unfoldable pub run : List (ℕ × DbCommand) → Database → Database × List DbEvent
  unfolding handle
  run [] db = (db, [])
  run ((now, command) ∷ commands) db =
      let (after, sent) = handle now command db in
      let (last, rest) = run commands after in (last, sent ++ rest)
