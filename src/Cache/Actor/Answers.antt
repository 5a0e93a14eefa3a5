-- ===== src/Cache/Actor/Answers.antt =====
-- What the database sends for each command.
use esmail.Prelude.{
  ℕ, ◌≡◌, refl, Bool, true, false, Option, none, some, List, [], ◌∷◌, Str, unwrap_or, Option-cases,
  inl, inr, arith,
}
use esmail.Query.{ParsedQuery}
use esmail.Compose.{ComposeState}
use esmail.Table.{Key, row_at}
use esmail.Outbox.{
  Outbox, OutboxItem, enqueue_outbox, write_row, due_outbox, list_outbox, mark_outbox_failed,
}
use esmail.Cache.{SyncPlan, Message, Body, report_mailbox_state}
use esmail.Cache.Index.{CachedMail, Codecs, index_mail, fetch_mail, joined_mail}
use esmail.Cache.Search.{SearchHit, search}
use esmail.Cache.Drafts.{Drafts, DraftSummary, save_draft, write_draft, list_drafts, load_draft}
use esmail.Cache.Actor.{
  DbCommand, index_mail_command, index_headers_command, index_headers_searchable_command,
  search_command, fetch_mail_command, remove_message_command, report_mailbox_state_command,
  update_flags_command, remove_account_command, enqueue_outbox_command, due_outbox_command,
  list_outbox_command, list_drafts_command, mark_outbox_sent_command, delete_outbox_command,
  mark_outbox_failed_command, save_draft_command, load_draft_command, delete_draft_command, DbEvent,
  search_result, mail_fetched, mail_fetch_failed, sync_plan, outbox_enqueued, draft_saved,
  outbox_due, outbox_list, draft_list, draft_loaded, error, Database, Libraries, error_unless,
  answer, saved, marked, handle,
}

-- The commands that ask for nothing.
abbrev pub is_quiet : DbCommand → Bool
is_quiet (index_mail_command a m header body attachments) = true
is_quiet (index_headers_command a m headers) = true
is_quiet (index_headers_searchable_command a m headers) = true
is_quiet (remove_message_command k) = true
is_quiet (update_flags_command k flags) = true
is_quiet (remove_account_command a) = true
is_quiet (mark_outbox_sent_command id) = true
is_quiet (delete_outbox_command id) = true
is_quiet (mark_outbox_failed_command id reason) = true
is_quiet (delete_draft_command id) = true
is_quiet _ = false

-- The commands that can give an error which does not say what it is about.
abbrev pub can_fail : DbCommand → Bool
can_fail (index_mail_command a m header body attachments) = true
can_fail (enqueue_outbox_command id compose_id a compose) = true
can_fail due_outbox_command = true
can_fail list_outbox_command = true
can_fail list_drafts_command = true
can_fail (mark_outbox_failed_command id reason) = true
can_fail (save_draft_command id compose_id a compose) = true
can_fail (load_draft_command id) = true
can_fail _ = false

-- The events that answer a command.
pub data IsAnswered : DbCommand → List DbEvent → Type 0 where
  quiet : (command : DbCommand) → is_quiet command ≡ true → IsAnswered command []
  failed : (command : DbCommand) → can_fail command ≡ true → IsAnswered command (error ∷ [])
  found :
      (a m : Option Str) (q : ParsedQuery) (hits : List SearchHit)
      → IsAnswered (search_command a q m) (search_result hits ∷ [])
  fetched :
      (k : Key) (mail : CachedMail)
      → mail.header.uid ≡ k.uid
      → IsAnswered (fetch_mail_command k) (mail_fetched mail ∷ [])
  not_fetched : (k : Key) → IsAnswered (fetch_mail_command k) (mail_fetch_failed k.uid ∷ [])
  planned :
      (a m : Str) (validity next : ℕ) (plan : SyncPlan)
      → IsAnswered (report_mailbox_state_command a m validity next) (sync_plan a m plan ∷ [])
  -- The id of a row that is there stays.
  enqueued :
      (id : Option ℕ) (compose_id new : ℕ) (a : Str) (compose : ComposeState)
      → unwrap_or id new ≡ new
      → IsAnswered
          (enqueue_outbox_command id compose_id a compose)
          (outbox_enqueued new compose_id ∷ [])
  due :
      (items : List (OutboxItem ComposeState))
      → IsAnswered due_outbox_command (outbox_due items ∷ [])
  listed :
      (items : List (OutboxItem ComposeState))
      → IsAnswered list_outbox_command (outbox_list items ∷ [])
  kept :
      (id : Option ℕ) (compose_id new : ℕ) (a : Option Str) (compose : ComposeState)
      → unwrap_or id new ≡ new
      → IsAnswered (save_draft_command id compose_id a compose) (draft_saved new compose_id ∷ [])
  drafts : (items : List DraftSummary) → IsAnswered list_drafts_command (draft_list items ∷ [])
  opened :
      (id : ℕ) (compose : ComposeState)
      → IsAnswered (load_draft_command id) (draft_loaded id compose ∷ [])

-- A read that gives one of two events.
answer-IsAnswered :
    {A : Type 0} (command : DbCommand) (ok : A → DbEvent) (not_ok : DbEvent) (r : Option A)
    → ((x : A) → r ≡ some x → IsAnswered command (ok x ∷ []))
    → IsAnswered command (not_ok ∷ [])
    → IsAnswered command (answer ok not_ok r ∷ [])
answer-IsAnswered command ok not_ok none h n = n
answer-IsAnswered command ok not_ok (some x) h n = h x refl

saved-IsAnswered :
    {T : Type 0} (command : DbCommand) (put : T → Database) (ok : ℕ → DbEvent) (db : Database)
    (r : Option (T × ℕ))
    → ((t : T) (new : ℕ) → r ≡ some (t, new) → IsAnswered command (ok new ∷ []))
    → can_fail command ≡ true
    → IsAnswered command (saved put ok db r).1
saved-IsAnswered command put ok db none h fails = failed command fails
saved-IsAnswered command put ok db (some (t, new)) h fails = h t new refl

error_unless-IsAnswered :
    (command : DbCommand) (done : Bool)
    → is_quiet command ≡ true
    → can_fail command ≡ true
    → IsAnswered command (error_unless done)
error_unless-IsAnswered command true q fails = quiet command q
error_unless-IsAnswered command false q fails = failed command fails

marked-IsAnswered :
    (id : ℕ) (reason : Str) (db : Database) (o : Option Outbox)
    → IsAnswered (mark_outbox_failed_command id reason) (marked db o).1
marked-IsAnswered id reason db none = failed (mark_outbox_failed_command id reason) refl
marked-IsAnswered id reason db (some o) = quiet (mark_outbox_failed_command id reason) refl

joined_mail-uid :
    (lib : Codecs) (k : Key) (m : Option Message) (b : Option Body) (mail : CachedMail)
    → joined_mail lib k m b ≡ some mail
    → mail.header.uid ≡ k.uid
unfolding joined_mail
joined_mail-uid lib k none b mail e = absurd (ground (arith, e))
joined_mail-uid lib k (some m) none mail e = absurd (ground (arith, e))
joined_mail-uid lib k (some m) (some b) mail e = ground (arith, e)

write_row-id :
    (id : Option ℕ) (a json : Str) (now : ℕ) (o p : Outbox) (new : ℕ)
    → write_row id a json now o ≡ (p, new)
    → unwrap_or id new ≡ new
unfolding write_row
write_row-id none a json now o p new e = refl
write_row-id (some id) a json now o p new e = ground (arith, e)

write_draft-id :
    (id : Option ℕ) (a : Option Str) (json : Str) (now : ℕ) (d e : Drafts) (new : ℕ)
    → write_draft id a json now d ≡ (e, new)
    → unwrap_or id new ≡ new
unfolding write_draft
write_draft-id none a json now d e new same = refl
write_draft-id (some id) a json now d e new same = ground (arith, same)

module _ (lib : Libraries) where
  enqueue_outbox-id :
      (id : Option ℕ) (a : Str) (compose : ComposeState) (now : ℕ) (o p : Outbox) (new : ℕ)
      → enqueue_outbox lib.json.to_json lib.json.from_json id a compose now o ≡ some (p, new)
      → unwrap_or id new ≡ new
  unfolding enqueue_outbox
  enqueue_outbox-id id a compose now o p new e = elim (Option-cases (lib.json.to_json compose)) [
    | inl f ↦ absurd (ground (arith, f, e))
    | inr (json, f) ↦ write_row-id id a json now o p new (ground (arith, f, e))
  ]

  save_draft-id :
      (id : Option ℕ) (a : Option Str) (compose : ComposeState) (now : ℕ) (d e : Drafts) (new : ℕ)
      → save_draft lib.json id a compose now d ≡ some (e, new)
      → unwrap_or id new ≡ new
  unfolding save_draft
  save_draft-id id a compose now d e new same = elim (Option-cases (lib.json.to_json compose)) [
    | inl f ↦ absurd (ground (arith, f, same))
    | inr (json, f) ↦ write_draft-id id a json now d e new (ground (arith, f, same))
  ]

  -- Every command that asks for something is answered by exactly one event, which is of its kind and
  -- carries its window, row, uid or mailbox, or is an error; the others send nothing, or an error
  -- where they can fail.
  pub handle-IsAnswered :
      (now : ℕ) (command : DbCommand) (db : Database)
      → IsAnswered command (handle lib now command db).1
  unfolding handle fetch_mail
  handle-IsAnswered now (index_mail_command a m header body attachments) db =
      error_unless-IsAnswered (index_mail_command a m header body attachments)
        (index_mail lib.codecs a m header body attachments now db.cache).1 refl refl
  handle-IsAnswered now (index_headers_command a m headers) db =
      quiet (index_headers_command a m headers) refl
  handle-IsAnswered now (index_headers_searchable_command a m headers) db =
      quiet (index_headers_searchable_command a m headers) refl
  handle-IsAnswered now (search_command a q m) db =
      found a m q (search lib.searching a q m db.cache)
  handle-IsAnswered now (fetch_mail_command k) db =
      let found_message = row_at k db.cache.messages in
      let found_body = row_at k db.cache.bodies in
      answer-IsAnswered (fetch_mail_command k) mail_fetched (mail_fetch_failed k.uid)
        (fetch_mail lib.codecs k db.cache)
        (λ mail e. fetched k mail (joined_mail-uid lib.codecs k found_message found_body mail e))
        (not_fetched k)
  handle-IsAnswered now (report_mailbox_state_command a m validity next) db =
      planned a m validity next (report_mailbox_state a m validity next db.cache).1
  handle-IsAnswered now (update_flags_command k flags) db =
      quiet (update_flags_command k flags) refl
  handle-IsAnswered now (remove_message_command k) db = quiet (remove_message_command k) refl
  handle-IsAnswered now (remove_account_command a) db = quiet (remove_account_command a) refl
  handle-IsAnswered now (enqueue_outbox_command id compose_id a compose) db =
      saved-IsAnswered (enqueue_outbox_command id compose_id a compose)
        (λ o. record db { outbox = o }) (λ new. outbox_enqueued new compose_id) db
        (enqueue_outbox lib.json.to_json lib.json.from_json id a compose now db.outbox)
        (λ o new e.
          enqueued id compose_id new a compose
            (enqueue_outbox-id id a compose now db.outbox o new e))
        refl
  handle-IsAnswered now due_outbox_command db =
      answer-IsAnswered due_outbox_command outbox_due error
        (due_outbox lib.json.to_json lib.json.from_json now db.outbox) (λ items e. due items)
        (failed due_outbox_command refl)
  handle-IsAnswered now list_outbox_command db =
      answer-IsAnswered list_outbox_command outbox_list error
        (list_outbox lib.json.to_json lib.json.from_json db.outbox) (λ items e. listed items)
        (failed list_outbox_command refl)
  handle-IsAnswered now (mark_outbox_sent_command id) db = quiet (mark_outbox_sent_command id) refl
  handle-IsAnswered now (mark_outbox_failed_command id reason) db =
      marked-IsAnswered id reason db (mark_outbox_failed id reason now db.outbox)
  handle-IsAnswered now (delete_outbox_command id) db = quiet (delete_outbox_command id) refl
  handle-IsAnswered now (save_draft_command id compose_id a compose) db =
      saved-IsAnswered (save_draft_command id compose_id a compose) (λ d. record db { drafts = d })
        (λ new. draft_saved new compose_id) db (save_draft lib.json id a compose now db.drafts)
        (λ d new e.
          kept id compose_id new a compose (save_draft-id id a compose now db.drafts d new e))
        refl
  handle-IsAnswered now list_drafts_command db =
      answer-IsAnswered list_drafts_command draft_list error (list_drafts lib.json db.drafts)
        (λ items e. drafts items) (failed list_drafts_command refl)
  handle-IsAnswered now (load_draft_command id) db =
      answer-IsAnswered (load_draft_command id) (draft_loaded id) error
        (load_draft lib.json id db.drafts) (λ compose e. opened id compose)
        (failed (load_draft_command id) refl)
  handle-IsAnswered now (delete_draft_command id) db = quiet (delete_draft_command id) refl
