-- ===== src/Cache/Sync.antt =====
-- What is cached of a mailbox once the server's UIDVALIDITY and UIDNEXT were reported.
use esmail.Prelude.{
  ℕ, ◌≡◌, ◌≢◌, refl, Bool, false, some, List, [], ◌∷◌, Str, arith, str_eq_refl, ltb, any,
  if◌then◌else◌,
}
use esmail.Table.{Row, is_in, delete_mailbox}
use esmail.Cache.{
  up_to_date, resync, fetch_from, sync_decision, MailboxState, Cache, stored_state, upsert, wipe,
  report_mailbox_state,
}

-- Whether a table has a row of the mailbox.
abbrev pub has_row : {A : Type 0} → Str → Str → List (Row A) → Bool
has_row account_id mailbox rs = any (λ r. is_in account_id mailbox r.key) rs

has_row-delete_mailbox :
    {A : Type 0} (a m : Str) (rs : List (Row A)) → has_row a m (delete_mailbox a m rs) ≡ false
unfolding delete_mailbox
has_row-delete_mailbox a m [] = refl
has_row-delete_mailbox a m (r ∷ rs) = ground (arith, has_row-delete_mailbox a m rs)

stored_state-upsert :
    (s : MailboxState) (ss : List MailboxState)
    → stored_state s.account_id s.mailbox (upsert s ss) ≡ some (s.uid_validity, s.uid_next)
unfolding stored_state upsert
stored_state-upsert s [] = ground (arith, str_eq_refl s.account_id, str_eq_refl s.mailbox)
stored_state-upsert s (t ∷ ss) = ground (arith, stored_state-upsert s ss)

-- A report with another UIDVALIDITY than the one stored leaves no message, body or index row of the
-- mailbox, plans a resync and stores the server's numbers.
report_mailbox_state-resync :
    (a m : Str) (v n validity next : ℕ) (c : Cache)
    → stored_state a m c.mailboxes ≡ some (v, n)
    → v ≢ validity
    → let (after, plan) = report_mailbox_state a m validity next c in
      (plan ≡ resync)
      × (stored_state a m after.mailboxes ≡ some (validity, next))
      × (has_row a m after.messages ≡ false)
      × (has_row a m after.bodies ≡ false)
      × (has_row a m after.messages_fts ≡ false)
unfolding report_mailbox_state sync_decision wipe
report_mailbox_state-resync a m v n validity next c e ne =
    let new : MailboxState = record {
      account_id = a;
      mailbox = m;
      uid_validity = validity;
      uid_next = next;
    } in
    rw (e, report_mailbox_state)
      (ground (
        arith,
        stored_state-upsert new c.mailboxes,
        has_row-delete_mailbox a m c.messages,
        has_row-delete_mailbox a m c.bodies,
        has_row-delete_mailbox a m c.messages_fts,
      ))

-- A report with the UIDVALIDITY that is stored keeps all that is cached, stores the server's numbers,
-- and plans to fetch from the stored UIDNEXT on exactly if the server's is greater.
report_mailbox_state-kept :
    (a m : Str) (n validity next : ℕ) (c : Cache)
    → stored_state a m c.mailboxes ≡ some (validity, n)
    → let (after, plan) = report_mailbox_state a m validity next c in
      (plan ≡ (if ltb n next then fetch_from n else up_to_date))
      × (stored_state a m after.mailboxes ≡ some (validity, next))
      × (after.messages ≡ c.messages)
      × (after.bodies ≡ c.bodies)
      × (after.messages_fts ≡ c.messages_fts)
unfolding report_mailbox_state sync_decision wipe
report_mailbox_state-kept a m n validity next c e =
    let new : MailboxState = record {
      account_id = a;
      mailbox = m;
      uid_validity = validity;
      uid_next = next;
    } in
    rw (e, report_mailbox_state) (ground (arith, stored_state-upsert new c.mailboxes))
