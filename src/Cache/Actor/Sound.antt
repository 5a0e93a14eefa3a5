-- ===== src/Cache/Actor/Sound.antt =====
-- The tables of the cache after any commands.
use esmail.Prelude.{ℕ, List, [], ◌∷◌, Option, none, some}
use esmail.Cache.Sound.{
  IsSound, update_flags-IsSound, remove_message-IsSound, remove_account-IsSound,
  report_mailbox_state-IsSound, index_headers-IsSound, index_headers_searchable-IsSound,
  index_mail-IsSound,
}
use esmail.Outbox.{Outbox, enqueue_outbox, mark_outbox_failed}
use esmail.Cache.Drafts.{save_draft}
use esmail.Cache.Actor.{
  DbCommand, index_mail_command, index_headers_command, index_headers_searchable_command,
  search_command, fetch_mail_command, remove_message_command, report_mailbox_state_command,
  update_flags_command, remove_account_command, enqueue_outbox_command, due_outbox_command,
  list_outbox_command, list_drafts_command, mark_outbox_sent_command, delete_outbox_command,
  mark_outbox_failed_command, save_draft_command, load_draft_command, delete_draft_command, DbEvent,
  Database, Libraries, saved, marked, handle, run,
}

-- Writing the outbox or the drafts leaves the cache.
saved-cache :
    {T : Type 0} (put : T → Database) (ok : ℕ → DbEvent) (db : Database) (r : Option (T × ℕ))
    → ((t : T) → IsSound (put t).cache)
    → IsSound db.cache
    → IsSound (saved put ok db r).0.cache
saved-cache put ok db none put_sound s = s
saved-cache put ok db (some (t, id)) put_sound s = put_sound t

marked-cache :
    (db : Database) (o : Option Outbox) → IsSound db.cache → IsSound (marked db o).0.cache
marked-cache db none s = s
marked-cache db (some o) s = s

module _ (lib : Libraries) where
  handle-IsSound :
      (now : ℕ) (command : DbCommand) (db : Database)
      → IsSound db.cache
      → IsSound (handle lib now command db).0.cache
  unfolding handle
  handle-IsSound now (index_mail_command a m header body attachments) db s =
      index_mail-IsSound lib.codecs a m header body attachments now db.cache s
  handle-IsSound now (index_headers_command a m headers) db s =
      index_headers-IsSound a m headers db.cache s
  handle-IsSound now (index_headers_searchable_command a m headers) db s =
      index_headers_searchable-IsSound a m headers db.cache s
  handle-IsSound now (search_command a q m) db s = s
  handle-IsSound now (fetch_mail_command k) db s = s
  handle-IsSound now (report_mailbox_state_command a m validity next) db s =
      report_mailbox_state-IsSound a m validity next db.cache s
  handle-IsSound now (update_flags_command k flags) db s = update_flags-IsSound k flags db.cache s
  handle-IsSound now (remove_message_command k) db s = remove_message-IsSound k db.cache s
  handle-IsSound now (remove_account_command a) db s = remove_account-IsSound a db.cache s
  handle-IsSound now (enqueue_outbox_command id compose_id a compose) db s =
      saved-cache (λ o. record db { outbox = o }) (λ new. DbEvent.outbox_enqueued new compose_id) db
        (enqueue_outbox lib.json.to_json lib.json.from_json id a compose now db.outbox) (λ o. s) s
  handle-IsSound now due_outbox_command db s = s
  handle-IsSound now list_outbox_command db s = s
  handle-IsSound now (mark_outbox_sent_command id) db s = s
  handle-IsSound now (mark_outbox_failed_command id reason) db s =
      marked-cache db (mark_outbox_failed id reason now db.outbox) s
  handle-IsSound now (delete_outbox_command id) db s = s
  handle-IsSound now (save_draft_command id compose_id a compose) db s =
      saved-cache (λ d. record db { drafts = d }) (λ new. DbEvent.draft_saved new compose_id) db
        (save_draft lib.json id a compose now db.drafts) (λ d. s) s
  handle-IsSound now list_drafts_command db s = s
  handle-IsSound now (load_draft_command id) db s = s
  handle-IsSound now (delete_draft_command id) db s = s

  -- After any commands, from sound tables on, no message has two rows in a table, every body and
  -- every row of the full-text index belongs to a message that is listed, and at most 2,000 bodies
  -- are cached.
  pub run-IsSound :
      (commands : List (ℕ × DbCommand)) (db : Database)
      → IsSound db.cache
      → IsSound (run lib commands db).0.cache
  unfolding run
  run-IsSound [] db s = s
  run-IsSound ((now, command) ∷ commands) db s =
      run-IsSound commands (handle lib now command db).0 (handle-IsSound now command db s)
