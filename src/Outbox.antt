-- ===== src/Outbox.antt =====
-- crates/esmail/src/db.rs: the outbox, the table of messages that wait for another attempt to send
-- them. The rows stand in the order of their ids, and `last_id` is what AUTOINCREMENT remembers. An
-- SQL error or an unreadable row is `none`; times and counts are not negative. Reading and writing
-- a draft as JSON is the serde library's, a parameter.
pub mod Backoff
pub mod Ids
use esmail.Prelude.{
  ℕ, suc, ◌+◌, ◌-◌, ◌*◌, ◌^◌, min, Bool, not, Option, none, some, List, [], ◌∷◌, ◌++◌, map, Str,
  leb, ◌==◌, if◌then◌else◌, keep, find,
}

pub record OutboxRow : Type 0 where
  pub id : ℕ  -- i64
  pub account_id : Str
  pub compose_json : Str
  pub created_at : ℕ  -- i64
  pub attempts : ℕ  -- i64
  pub next_attempt_at : ℕ  -- i64
  pub last_error : Option Str

pub record Outbox : Type 0 where
  pub rows : List OutboxRow
  pub last_id : ℕ  -- i64

pub record OutboxItem (C : Type 0) : Type 0 where
  pub id : ℕ
  pub account_id : Str
  pub attempts : ℕ
  pub last_error : Option Str
  pub compose : C

-- `UPDATE outbox SET ... WHERE id = ...`.
unfoldable pub update_rows : (OutboxRow → OutboxRow) → ℕ → List OutboxRow → List OutboxRow
update_rows change id [] = []
update_rows change id (r ∷ rs) =
    let rest = update_rows change id rs in if r.id == id then change r ∷ rest else r ∷ rest

-- The two statements of `enqueue_outbox`, with the id that each returns.
unfoldable pub write_row : Option ℕ → Str → Str → ℕ → Outbox → Outbox × ℕ
unfolding update_rows
write_row (some id) account_id json now o = (
  record o {
    rows =
        update_rows
          (λ r. record r {
            account_id = account_id;
            compose_json = json;
            attempts = 0;
            next_attempt_at = now;
            last_error = none;
          })
          id o.rows;
  },
  id,
)
write_row none account_id json now o = (
  record {
    rows =
        o.rows
        ++ record {
          id = suc o.last_id;
          account_id = account_id;
          compose_json = json;
          created_at = now;
          attempts = 0;
          next_attempt_at = now;
          last_error = none;
        }
          ∷ [];
    last_id = suc o.last_id;
  },
  suc o.last_id,
)

unfoldable pub due_rows : ℕ → Outbox → List OutboxRow
due_rows now o = keep (λ (r : OutboxRow). leb r.next_attempt_at now) o.rows

unfoldable pub delete_outbox : ℕ → Outbox → Outbox
delete_outbox id o = record o { rows = keep (λ (r : OutboxRow). not (r.id == id)) o.rows }

unfoldable pub backoff_seconds : ℕ → ℕ
backoff_seconds attempts = let exponent = min (attempts - 1) 7 in min (30 * 2 ^ exponent) 3600

-- The row after an attempt that failed, the `attempts_before` read.
unfoldable pub failed_row : ℕ → Str → ℕ → OutboxRow → OutboxRow
unfolding backoff_seconds
failed_row attempts error now r = record r {
  attempts = attempts;
  last_error = some error;
  next_attempt_at = now + backoff_seconds attempts;
}

unfoldable pub mark_outbox_failed : ℕ → Str → ℕ → Outbox → Option Outbox
unfolding failed_row update_rows
mark_outbox_failed id error now o = elim (find (λ (r : OutboxRow). r.id == id) o.rows) [
  | none ↦ none
  | some r ↦
      some (record o { rows = update_rows (failed_row (suc r.attempts) error now) id o.rows })
]

module _ {C : Type 0} (to_json : C → Option Str) (from_json : Str → Option C) where
  unfoldable pub enqueue_outbox : Option ℕ → Str → C → ℕ → Outbox → Option (Outbox × ℕ)
  unfolding write_row
  enqueue_outbox id account_id compose now o = elim (to_json compose) [
    | none ↦ none
    | some json ↦ some (write_row id account_id json now o)
  ]

  unfoldable pub row_to_outbox_item : OutboxRow → Option (OutboxItem C)
  row_to_outbox_item r = elim (from_json r.compose_json) [
    | none ↦ none
    | some compose ↦ some (record {
      id = r.id;
      account_id = r.account_id;
      attempts = r.attempts;
      last_error = r.last_error;
      compose = compose;
    })
  ]

  -- `rows.collect()`: the first row that cannot be read is the error.
  unfoldable pub collect : List OutboxRow → Option (List (OutboxItem C))
  unfolding row_to_outbox_item
  collect [] = some []
  collect (r ∷ rs) =
      let rest = collect rs in
      elim (row_to_outbox_item r) [
        | none ↦ none
        | some i ↦ elim rest [ none ↦ none | some is ↦ some (i ∷ is) ]
      ]

  unfoldable pub due_outbox : ℕ → Outbox → Option (List (OutboxItem C))
  unfolding collect due_rows
  due_outbox now o = collect (due_rows now o)

  unfoldable pub list_outbox : Outbox → Option (List (OutboxItem C))
  unfolding collect
  list_outbox o = collect o.rows
