-- ===== src/Outbox/Backoff.antt =====
-- When a message of the outbox is due again after an attempt that failed.
use esmail.Prelude.{
  ℕ, zero, suc, ◌+◌, ◌-◌, ◌^◌, ◌≤◌, ◌≡◌, ◌≢◌, ◌∙◌, refl, ap, min, Bool, true, ◌&&◌, some, List, [],
  ◌∷◌, Str, arith, leb, ◌==◌, keep, find, any,
}
use esmail.Outbox.{
  OutboxRow, Outbox, update_rows, due_rows, backoff_seconds, failed_row, mark_outbox_failed,
}

one-pow : (a : ℕ) → 1 ≤ 2 ^ a
one-pow zero = omega arith
one-pow (suc a) = omega (arith, one-pow a)

pow-le : (a b : ℕ) → a ≤ b → 2 ^ a ≤ 2 ^ b
pow-le zero b le = one-pow b
pow-le (suc a) zero le = absurd (omega arith)
pow-le (suc a) (suc b) le = omega (arith, pow-le a b (omega arith))

-- The wait is from half a minute to an hour and does not get shorter with more attempts.
backoff_seconds-bounds :
    (n m : ℕ)
    → n ≤ m
    → (30 ≤ backoff_seconds n)
      × (backoff_seconds n ≤ backoff_seconds m)
      × (backoff_seconds m ≤ 3600)
unfolding backoff_seconds
backoff_seconds-bounds n m le =
    ground (arith, one-pow (min (n - 1) 7), pow-le (min (n - 1) 7) (min (m - 1) 7))

abbrev pub has_id : ℕ → List OutboxRow → Bool
has_id id rs = any (λ r. r.id == id) rs

found-has_id :
    (id : ℕ) (rs : List OutboxRow) (row : OutboxRow)
    → find (λ (r : OutboxRow). r.id == id) rs ≡ some row
    → has_id id rs ≡ true
found-has_id id [] row e = absurd (cc e)
found-has_id id (r ∷ rs) row e = ground (arith, found-has_id id rs row)

due-update_rows :
    (id attempts now t : ℕ) (error : Str) (rs : List OutboxRow)
    → has_id id (
        keep
          (λ (r : OutboxRow). leb r.next_attempt_at t)
          (update_rows (failed_row attempts error now) id rs))
      ≡ (has_id id rs && leb (now + backoff_seconds attempts) t)
unfolding update_rows failed_row
due-update_rows id attempts now t error [] = refl
due-update_rows id attempts now t error (r ∷ rs) =
    ground (arith, due-update_rows id attempts now t error rs)

due-update_rows_other :
    (id k attempts now t : ℕ) (error : Str) (rs : List OutboxRow)
    → k ≢ id
    → has_id k (
        keep
          (λ (r : OutboxRow). leb r.next_attempt_at t)
          (update_rows (failed_row attempts error now) id rs))
      ≡ has_id k (keep (λ (r : OutboxRow). leb r.next_attempt_at t) rs)
unfolding update_rows failed_row
due-update_rows_other id k attempts now t error [] ne = refl
due-update_rows_other id k attempts now t error (r ∷ rs) ne =
    ground (arith, due-update_rows_other id k attempts now t error rs ne)

-- A failed attempt to send a message that is in the outbox is recorded, and then that message is due
-- exactly from the end of its wait on, which is that of one attempt more, and another message is due
-- exactly when it was before.
pub due_rows-mark_outbox_failed :
    (id other now t : ℕ) (error : Str) (o : Outbox) (row : OutboxRow)
    → find (λ (r : OutboxRow). r.id == id) o.rows ≡ some row
    → other ≢ id
    → (after : Outbox) × (mark_outbox_failed id error now o ≡ some after)
      × (has_id id (due_rows t after) ≡ leb (now + backoff_seconds (suc row.attempts)) t)
      × (has_id other (due_rows t after) ≡ has_id other (due_rows t o))
unfolding mark_outbox_failed due_rows
due_rows-mark_outbox_failed id other now t error o row e ne =
    let change = failed_row (suc row.attempts) error now in
    rw (e, mark_outbox_failed)
      (
        record o { rows = update_rows change id o.rows },
        refl,
        (due-update_rows id (suc row.attempts) now t error o.rows
            ∙ ap (λ b. b && leb (now + backoff_seconds (suc row.attempts)) t)
                (found-has_id id o.rows row e)),
        due-update_rows_other id other (suc row.attempts) now t error o.rows ne,
      )
