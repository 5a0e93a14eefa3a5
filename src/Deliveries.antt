-- ===== src/Deliveries.antt =====
-- crates/esmail-win32/src/core_glue/deliveries.rs: which messages are on their way out. A hash map
-- is the list of its entries, the one that was inserted last in front.
pub mod Maps
pub mod Owned
pub mod Retries
use esmail.Prelude.{
  ℕ, Bool, not, ◌||◌, Option, none, some, List, [], ◌∷◌, map, Str, ◌==◌, any, keep, add_u64,
}
use esmail.Compose.{ComposeState}
use esmail.Outbox.{OutboxItem}
use esmail.Deliveries.Maps.{HashMap, get, insert, remove, contains_key}

pub record Flight : Type 0 where
  pub account : ℕ
  pub state : ComposeState

pub record Delivered : Type 0 where
  pub account : ℕ
  pub outbox_row : Option ℕ

pub data Failure : Type 0 where
  backoff : ℕ → Failure  -- row
  enqueue : ℕ → ComposeState → Failure  -- account, state

pub record Retry : Type 0 where
  pub id : ℕ
  pub account : ℕ
  pub state : ComposeState

pub record Deliveries : Type 0 where
  pub last_id : ℕ  -- u64
  pub in_flight : HashMap Flight
  pub outbox_rows : HashMap ℕ

unfoldable pub next_id : Deliveries → Deliveries × ℕ
next_id d = let id = add_u64 d.last_id 1 in (record d { last_id = id }, id)

unfoldable pub begin : ℕ → ℕ → ComposeState → Deliveries → Deliveries
begin id account state d = record d {
  in_flight = insert id (record { account = account; state = state }) d.in_flight;
}

unfoldable pub cancel : ℕ → Deliveries → Deliveries
cancel id d = record d { in_flight = remove id d.in_flight }

unfoldable pub is_sending : ℕ → Deliveries → Bool
is_sending id d = contains_key id d.in_flight

unfoldable pub outbox_enqueued : ℕ → ℕ → Deliveries → Deliveries
outbox_enqueued id row d = record d { outbox_rows = insert id row d.outbox_rows }

unfoldable pub outbox_row : ℕ → Deliveries → Option ℕ
outbox_row id d = get id d.outbox_rows

unfoldable pub forget : ℕ → Deliveries → Deliveries × Option ℕ
forget id d = (
  record d { in_flight = remove id d.in_flight; outbox_rows = remove id d.outbox_rows },
  get id d.outbox_rows,
)

unfoldable pub delivered : ℕ → Deliveries → Deliveries × Option Delivered
delivered id d = elim (get id d.in_flight) [
  | none ↦ (d, none)
  | some flight ↦ (
    record d { in_flight = remove id d.in_flight; outbox_rows = remove id d.outbox_rows },
    some (record { account = flight.account; outbox_row = get id d.outbox_rows }),
  )
]

abbrev pub failure_of : Flight → Option ℕ → Failure
failure_of flight none = enqueue flight.account flight.state
failure_of flight (some row) = backoff row

unfoldable pub failed : ℕ → Deliveries → Deliveries × Option Failure
failed id d = elim (get id d.in_flight) [
  | none ↦ (d, none)
  | some flight ↦ (
    record d { in_flight = remove id d.in_flight },
    some (failure_of flight (get id d.outbox_rows)),
  )
]

-- The rows that an open window owns or that are being sent.
unfoldable pub owned : (ℕ → Bool) → Deliveries → List ℕ
owned window_open d =
    map (λ (e : ℕ × ℕ). e.1)
      (keep (λ (e : ℕ × ℕ). window_open e.0 || contains_key e.0 d.in_flight) d.outbox_rows)

unfoldable pub is_owned : List ℕ → OutboxItem ComposeState → Bool
is_owned rows item = any (λ row. row == item.id) rows

-- One more message on its way, for the row of an item.
unfoldable pub start_retry : OutboxItem ComposeState → ℕ → Deliveries → Deliveries
start_retry item account d =
    let id = add_u64 d.last_id 1 in
    record {
      last_id = id;
      outbox_rows = insert id item.id d.outbox_rows;
      in_flight = insert id (record { account = account; state = item.compose }) d.in_flight;
    }

module _ (account_index : Str → Option ℕ) where
  -- The body of the loop, and the loop over the items that are not owned.
  unfoldable pub retry_all :
      List (OutboxItem ComposeState)
      → Deliveries
      → Deliveries × List Retry × List (OutboxItem ComposeState)
  unfolding start_retry
  retry_all [] d = (d, [], [])
  retry_all (item ∷ items) d = elim (account_index item.account_id) [
    | none ↦
        let (after, started, unsendable) = retry_all items d in (after, started, item ∷ unsendable)
    | some account ↦
        let (after, started, unsendable) = retry_all items (start_retry item account d) in
        (
          after,
          record { id = add_u64 d.last_id 1; account = account; state = item.compose } ∷ started,
          unsendable,
        )
  ]

  unfoldable pub retries :
      List (OutboxItem ComposeState)
      → (ℕ → Bool)
      → Deliveries
      → Deliveries × List Retry × List (OutboxItem ComposeState)
  unfolding retry_all owned is_owned
  retries due window_open d =
      retry_all (keep (λ item. not (is_owned (owned window_open d) item)) due) d
