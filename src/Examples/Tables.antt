-- ===== src/Examples/Tables.antt =====
-- Examples of the outbox of crates/esmail/src/db.rs.
use esmail.Prelude.{◌<◌, ◌≡◌, refl, true, false, none, some, arith, codes}
use esmail.Outbox.{Outbox, mark_outbox_failed, due_rows, backoff_seconds, write_row, delete_outbox}
use esmail.Outbox.Backoff.{has_id, due_rows-mark_outbox_failed}
use esmail.Outbox.Ids.{IsAscending, created, unchanged, next, enqueued, deleted, Reach-ids}

abbrev one_row : Outbox
one_row = (write_row none (codes "a") (codes "{}") 100 created).0

abbrev two_rows : Outbox
two_rows = (write_row none (codes "b") (codes "{}") 200 one_row).0

-- The table after the second row was deleted.
abbrev shorter : Outbox
shorter = delete_outbox 2 two_rows

Reach-ids_example :
    let (q, id) = write_row none (codes "c") (codes "{}") 300 shorter in
    IsAscending 1 shorter.rows shorter.last_id
    × (shorter.last_id < id)
    × ((write_row none (codes "b") (codes "{}") 200 one_row).1 < id)
    × IsAscending 1 q.rows id
Reach-ids_example =
    Reach-ids one_row shorter (codes "b") (codes "{}") (codes "c") (codes "{}") 200 300
      (next created one_row unchanged (enqueued created none (codes "a") (codes "{}") 100))
      (next two_rows shorter unchanged (deleted two_rows 2))

due_rows-mark_outbox_failed_example :
    (after : Outbox) × (mark_outbox_failed 1 (codes "timeout") 250 two_rows ≡ some after)
    × (has_id 1 (due_rows 270 after) ≡ false)
    × (has_id 2 (due_rows 270 after) ≡ true)
unfolding due_rows backoff_seconds write_row
due_rows-mark_outbox_failed_example =
    due_rows-mark_outbox_failed 1 2 250 270 (codes "timeout") two_rows _ refl (λ e. omega arith)
