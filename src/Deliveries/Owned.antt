-- ===== src/Deliveries/Owned.antt =====
-- The rows of the outbox that are on their way, and one more start, in
-- crates/esmail-win32/src/core_glue/deliveries.rs.
use esmail.Prelude.{
  ℕ, suc, ◌+◌, ◌≡◌, refl, ap₂, ◌∙◌, Bool, true, ◌&&◌, ◌||◌, List, [], ◌∷◌, map, arith, ◌==◌, any,
  keep, length, Bool-cases, inl, inr, ◌<◌, u64_mod, add_u64,
}
use esmail.Compose.{ComposeState}
use esmail.Outbox.{OutboxItem}
use esmail.Deliveries.Maps.{
  HashMap, insert, remove, contains_key, AreKeys, remove-fresh, AreKeys-grown, AreKeys-remove,
}
use esmail.Deliveries.{Flight, Deliveries, owned, is_owned, start_retry}

-- No id is in use that `next_id` has not given out.
abbrev pub IsFresh : Deliveries → Type 0
IsFresh d = AreKeys d.last_id d.in_flight × AreKeys d.last_id d.outbox_rows

abbrev pub Item : Type 0
Item = OutboxItem ComposeState

any-imp :
    {A : Type 0} (p q : A → Bool) (xs : List A)
    → ((x : A) → p x ≡ true → q x ≡ true)
    → any p xs ≡ true
    → any q xs ≡ true
any-imp p q [] h e = e
any-imp p q (x ∷ xs) h e = elim (Bool-cases (p x)) [
  | inl f ↦ ground (arith, h x f)
  | inr f ↦ ground (arith, any-imp p q xs h (ground (arith, f)))
]

-- An entry that owns the row of an item.
abbrev owns : (ℕ → Bool) → HashMap Flight → Item → ℕ × ℕ → Bool
owns w flights item e = (w e.0 || contains_key e.0 flights) && (e.1 == item.id)

is_owned-any :
    (p : ℕ → Bool) (item : Item) (rows : HashMap ℕ)
    → is_owned (map (λ (e : ℕ × ℕ). e.1) (keep (λ (e : ℕ × ℕ). p e.0) rows)) item
      ≡ any (λ (e : ℕ × ℕ). p e.0 && (e.1 == item.id)) rows
unfolding is_owned
is_owned-any p item [] = refl
is_owned-any p item (e ∷ rows) = ground (arith, is_owned-any p item rows)

is_owned-owned :
    (w : ℕ → Bool) (d : Deliveries) (item : Item)
    → is_owned (owned w d) item ≡ any (owns w d.in_flight item) d.outbox_rows
unfolding owned
is_owned-owned w d item =
    is_owned-any (λ id. w id || contains_key id d.in_flight) item d.outbox_rows

pub start_retry-IsFresh :
    (item : Item) (account : ℕ) (d : Deliveries)
    → suc d.last_id < u64_mod
    → IsFresh d
    → IsFresh (start_retry item account d)
unfolding start_retry insert
start_retry-IsFresh item account d small fresh = (
  (
    omega arith,
    AreKeys-grown d.last_id (add_u64 d.last_id 1) (remove (add_u64 d.last_id 1) d.in_flight)
        (omega arith) (AreKeys-remove d.last_id (add_u64 d.last_id 1) d.in_flight fresh.0),
  ),
  (
    omega arith,
    AreKeys-grown d.last_id (add_u64 d.last_id 1) (remove (add_u64 d.last_id 1) d.outbox_rows)
        (omega arith) (AreKeys-remove d.last_id (add_u64 d.last_id 1) d.outbox_rows fresh.1),
  ),
)

pub fewer :
    (item : Item) (account : ℕ) (items : List Item) (d : Deliveries)
    → d.last_id + length (item ∷ items) < u64_mod
    → (start_retry item account d).last_id + length items < u64_mod
unfolding start_retry
fewer item account items d few = omega (arith, few)

module _ (w : ℕ → Bool) where
  -- The entries of the maps after one more start.
  start_retry-any :
      (item other : Item) (account : ℕ) (d : Deliveries)
      → suc d.last_id < u64_mod
      → IsFresh d
      → let flight : Flight = record { account = account; state = item.compose } in
        is_owned (owned w (start_retry item account d)) other
        ≡ any
            (owns w ((add_u64 d.last_id 1, flight) ∷ d.in_flight) other)
            ((add_u64 d.last_id 1, item.id) ∷ d.outbox_rows)
  unfolding start_retry insert
  start_retry-any item other account d small fresh =
      let flights =
        remove-fresh (add_u64 d.last_id 1) d.last_id d.in_flight (omega arith) fresh.0 in
      let rows = remove-fresh (add_u64 d.last_id 1) d.last_id d.outbox_rows (omega arith) fresh.1 in
      let flight : Flight = record { account = account; state = item.compose } in
      is_owned-owned w (start_retry item account d) other
      ∙ ap₂
          (λ fs rs.
            any (owns w ((add_u64 d.last_id 1, flight) ∷ fs) other)
              ((add_u64 d.last_id 1, item.id) ∷ rs))
          flights rows

  pub start_retry-owned :
      (item : Item) (account : ℕ) (d : Deliveries)
      → suc d.last_id < u64_mod
      → IsFresh d
      → is_owned (owned w (start_retry item account d)) item ≡ true
  unfolding contains_key
  start_retry-owned item account d small fresh =
      ground (arith, start_retry-any item item account d small fresh)

  -- What was owned stays so.
  pub start_retry-kept :
      (item other : Item) (account : ℕ) (d : Deliveries)
      → suc d.last_id < u64_mod
      → IsFresh d
      → is_owned (owned w d) other ≡ true
      → is_owned (owned w (start_retry item account d)) other ≡ true
  unfolding contains_key
  start_retry-kept item other account d small fresh e =
      let flight : Flight = record { account = account; state = item.compose } in
      let flights = (add_u64 d.last_id 1, flight) ∷ d.in_flight in
      let before : any (owns w d.in_flight other) d.outbox_rows ≡ true =
        ground (arith, is_owned-owned w d other) in
      let kept : any (owns w flights other) d.outbox_rows ≡ true =
        any-imp (owns w d.in_flight other) (owns w flights other) d.outbox_rows
          (λ entry f. ground arith) before in
      ground (arith, start_retry-any item other account d small fresh, kept)
