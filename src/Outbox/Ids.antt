-- ===== src/Outbox/Ids.antt =====
-- The ids of the outbox.
use esmail.Prelude.{
  ℕ, suc, ◌≤◌, ◌<◌, ◌≡◌, refl, Bool, not, Option, none, some, List, [], ◌∷◌, ◌++◌, Str, arith, ◌==◌,
  keep, find, Option-cases, inl, inr,
}
use esmail.Outbox.{
  OutboxRow, Outbox, update_rows, write_row, delete_outbox, failed_row, mark_outbox_failed,
}

-- The ids go up from `low` or more to `high` at most.
abbrev pub IsAscending : ℕ → List OutboxRow → ℕ → Type 0
IsAscending low [] high = low ≤ suc high
IsAscending low (r ∷ rs) high = (low ≤ r.id) × IsAscending (suc r.id) rs high

-- The operations on the table.
pub data Step : Outbox → Outbox → Type 0 where
  enqueued :
      (o : Outbox) (id : Option ℕ) (account_id json : Str) (now : ℕ)
      → Step o (write_row id account_id json now o).0
  deleted : (o : Outbox) (id : ℕ) → Step o (delete_outbox id o)
  failed :
      (o p : Outbox) (id : ℕ) (error : Str) (now : ℕ)
      → mark_outbox_failed id error now o ≡ some p
      → Step o p

-- The second table is one that operations lead to from the first.
pub data Reach (o : Outbox) : Outbox → Type 0 where
  unchanged : Reach o o
  next : (p q : Outbox) → Reach o p → Step p q → Reach o q

abbrev pub created : Outbox
created = record { rows = []; last_id = 0 }

abbrev pub IsSound : Outbox → Type 0
IsSound o = IsAscending 1 o.rows o.last_id

IsAscending-update_rows :
    (change : OutboxRow → OutboxRow) (id low high : ℕ) (rs : List OutboxRow)
    → ((r : OutboxRow) → (change r).id ≡ r.id)
    → IsAscending low rs high
    → IsAscending low (update_rows change id rs) high
unfolding update_rows
IsAscending-update_rows change id low high [] same a = a
IsAscending-update_rows change id low high (r ∷ rs) same a =
    ground (arith, same r, IsAscending-update_rows change id (suc r.id) high rs same a.1)

IsAscending-push :
    (low high : ℕ) (rs : List OutboxRow) (row : OutboxRow)
    → row.id ≡ suc high
    → IsAscending low rs high
    → IsAscending low (rs ++ row ∷ []) (suc high)
IsAscending-push low high [] row e a = ground arith
IsAscending-push low high (r ∷ rs) row e a =
    ground (arith, IsAscending-push (suc r.id) high rs row e a.1)

IsAscending-weaken :
    (low from high : ℕ) (rs : List OutboxRow)
    → low ≤ from
    → IsAscending from rs high
    → IsAscending low rs high
IsAscending-weaken low from high [] le a = omega arith
IsAscending-weaken low from high (r ∷ rs) le a = (omega (arith, a.0), a.1)

IsAscending-keep :
    (p : OutboxRow → Bool) (low high : ℕ) (rs : List OutboxRow)
    → IsAscending low rs high
    → IsAscending low (keep p rs) high
IsAscending-keep p low high [] a = a
IsAscending-keep p low high (r ∷ rs) a =
    let rest = IsAscending-keep p (suc r.id) high rs a.1 in
    ground (arith, rest, IsAscending-weaken low (suc r.id) high (keep p rs))

write_row-IsSound :
    (id : Option ℕ) (account_id json : Str) (now : ℕ) (o : Outbox)
    → IsSound o
    → IsSound (write_row id account_id json now o).0
unfolding write_row
write_row-IsSound (some id) account_id json now o s =
    IsAscending-update_rows
      (λ r. record r {
        account_id = account_id;
        compose_json = json;
        attempts = 0;
        next_attempt_at = now;
        last_error = none;
      })
      id 1 o.last_id o.rows (λ r. refl) s
write_row-IsSound none account_id json now o s =
    IsAscending-push 1 o.last_id o.rows
      (record {
        id = suc o.last_id;
        account_id = account_id;
        compose_json = json;
        created_at = now;
        attempts = 0;
        next_attempt_at = now;
        last_error = none;
      })
      refl s

failed-IsSound :
    (id : ℕ) (error : Str) (now : ℕ) (o p : Outbox)
    → mark_outbox_failed id error now o ≡ some p
    → IsSound o
    → IsSound p
unfolding mark_outbox_failed failed_row
failed-IsSound id error now o p e s =
    elim (Option-cases (find (λ (r : OutboxRow). r.id == id) o.rows)) [
      | inl n ↦ absurd (ground (arith, n))
      | inr (row, f) ↦ ground (
        arith,
        f,
        IsAscending-update_rows (failed_row (suc row.attempts) error now) id 1 o.last_id o.rows
            (λ r. refl) s,
      )
    ]

Step-IsSound : (o p : Outbox) → IsSound o → Step o p → IsSound p
unfolding delete_outbox
Step-IsSound _ _ s (enqueued o id account_id json now) =
    write_row-IsSound id account_id json now o s
Step-IsSound _ _ s (deleted o id) =
    IsAscending-keep (λ (r : OutboxRow). not (r.id == id)) 1 o.last_id o.rows s
Step-IsSound _ _ s (failed o p id error now e) = failed-IsSound id error now o p e s

Reach-IsSound : (o p : Outbox) → IsSound o → Reach o p → IsSound p
Reach-IsSound o _ s unchanged = s
Reach-IsSound o _ s (next p q r step) = Step-IsSound p q (Reach-IsSound o p s r) step

-- The last id given out never goes down.
failed-last_id :
    (id : ℕ) (error : Str) (now : ℕ) (o p : Outbox)
    → mark_outbox_failed id error now o ≡ some p
    → o.last_id ≤ p.last_id
unfolding mark_outbox_failed
failed-last_id id error now o p e =
    elim (Option-cases (find (λ (r : OutboxRow). r.id == id) o.rows)) [
      | inl n ↦ absurd (ground (arith, n))
      | inr (row, f) ↦ ground (arith, f)
    ]

Step-last_id : (o p : Outbox) → Step o p → o.last_id ≤ p.last_id
unfolding write_row delete_outbox
Step-last_id _ _ (enqueued o none account_id json now) = omega arith
Step-last_id _ _ (enqueued o (some id) account_id json now) = omega arith
Step-last_id _ _ (deleted o id) = omega arith
Step-last_id _ _ (failed o p id error now e) = failed-last_id id error now o p e

Reach-last_id : (o p : Outbox) → Reach o p → o.last_id ≤ p.last_id
Reach-last_id o _ unchanged = omega arith
Reach-last_id o _ (next p q r step) = omega (arith, Reach-last_id o p r, Step-last_id p q step)

-- From a new table, after any enqueueing, deletions and failed attempts, a message is enqueued and
-- gets an id, and after any more of them another is. Then the rows stand in the order of their ids,
-- which are all different, and the other gets an id greater than all of those and than the first
-- message's, be that still there or deleted: no id is given out twice.
pub Reach-ids :
    (o p : Outbox) (account_id json account_id' json' : Str) (now now' : ℕ)
    → Reach created o
    → Reach (write_row none account_id json now o).0 p
    → let (q, id) = write_row none account_id' json' now' p in
      IsAscending 1 p.rows p.last_id
      × (p.last_id < id)
      × ((write_row none account_id json now o).1 < id)
      × IsAscending 1 q.rows id
unfolding write_row
Reach-ids o p account_id json account_id' json' now now' before between =
    let added = (write_row none account_id json now o).0 in
    let sound =
      write_row-IsSound none account_id json now o (Reach-IsSound created o (omega arith) before) in
    let later = Reach-IsSound added p sound between in
    (
      later,
      omega arith,
      omega (arith, Reach-last_id added p between),
      write_row-IsSound none account_id' json' now' p later,
    )
