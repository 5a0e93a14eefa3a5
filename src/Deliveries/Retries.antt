-- ===== src/Deliveries/Retries.antt =====
-- That no row of the outbox is sent twice at once.
use esmail.Prelude.{
  ◌≤◌, ◌∙◌, ℕ, suc, ◌+◌, ◌≡◌, refl, sym, subst, All-keep_where, All-keep_inv, Bool, true, not,
  Option, none, some, List, [], ◌∷◌, map, Str, arith, keep, All, length, Option-cases, inl, inr,
  ◌⊎◌, ap, ◌<◌, u64_mod, add_u64, length-keep,
}
use esmail.Compose.{ComposeState}
use esmail.Deliveries.Maps.{get, insert, get-insert_other}
use esmail.Deliveries.{Retry, Deliveries, owned, is_owned, start_retry, retry_all, retries}
use esmail.Deliveries.Owned.{
  IsFresh, Item, start_retry-IsFresh, fewer, start_retry-owned, start_retry-kept,
}

abbrev pub message_of : Retry → ℕ × ComposeState
message_of r = (r.account, r.state)

-- The messages are on their way, each under its id.
abbrev pub AreInFlight : Deliveries → List Retry → Type 0
AreInFlight d started =
    All
      (λ (r : Retry). get r.id d.in_flight ≡ some (record { account = r.account; state = r.state }))
      started

-- The ids go up by one from the number.
abbrev pub AreNumbered : ℕ → List Retry → Type 0
AreNumbered last [] = Unit
AreNumbered last (r ∷ rs) = (r.id ≡ suc last) × AreNumbered (suc last) rs

module _ (account_index : Str → Option ℕ) where
  -- An item has no account or its row is owned.
  abbrev IsSettled : (ℕ → Bool) → Deliveries → Item → Type 0
  IsSettled w d item = (account_index item.account_id ≡ none) ⊎ (is_owned (owned w d) item ≡ true)

  retry_all-kept :
      (w : ℕ → Bool) (items : List Item) (other : Item) (d : Deliveries)
      → d.last_id + length items < u64_mod
      → IsFresh d
      → is_owned (owned w d) other ≡ true
      → is_owned (owned w (retry_all account_index items d).0) other ≡ true
  unfolding retry_all
  retry_all-kept w [] other d few fresh e = e
  retry_all-kept w (item ∷ items) other d few fresh e =
      elim (Option-cases (account_index item.account_id)) [
        | inl f ↦ rw (f, retry_all) (retry_all-kept w items other d (omega (arith, few)) fresh e)
        | inr (account, f) ↦
            rw (f, retry_all)
              (retry_all-kept w items other (start_retry item account d)
                (fewer item account items d few)
                (start_retry-IsFresh item account d (omega (arith, few)) fresh)
                (start_retry-kept w item other account d (omega (arith, few)) fresh e))
      ]

  retry_all-IsFresh :
      (items : List Item) (d : Deliveries)
      → d.last_id + length items < u64_mod
      → IsFresh d
      → IsFresh (retry_all account_index items d).0
  unfolding retry_all
  retry_all-IsFresh [] d few fresh = fresh
  retry_all-IsFresh (item ∷ items) d few fresh =
      elim (Option-cases (account_index item.account_id)) [
        | inl f ↦ rw (f, retry_all) (retry_all-IsFresh items d (omega (arith, few)) fresh)
        | inr (account, f) ↦
            rw (f, retry_all)
              (retry_all-IsFresh items (start_retry item account d) (fewer item account items d few)
                (start_retry-IsFresh item account d (omega (arith, few)) fresh))
      ]

  retry_all-IsSettled :
      (w : ℕ → Bool) (items : List Item) (d : Deliveries)
      → d.last_id + length items < u64_mod
      → IsFresh d
      → All (IsSettled w (retry_all account_index items d).0) items
  unfolding retry_all
  retry_all-IsSettled w [] d few fresh = tt
  retry_all-IsSettled w (item ∷ items) d few fresh =
      elim (Option-cases (account_index item.account_id)) [
        | inl f ↦
            let same : (retry_all account_index (item ∷ items) d).0
                ≡ (retry_all account_index items d).0 =
              rw (f, retry_all) refl in
            subst (λ a. All (IsSettled w a) (item ∷ items)) (sym same)
              (inl f, retry_all-IsSettled w items d (omega (arith, few)) fresh)
        | inr (account, f) ↦
            let next = start_retry item account d in
            let next_few = fewer item account items d few in
            let next_fresh = start_retry-IsFresh item account d (omega (arith, few)) fresh in
            let same : (retry_all account_index (item ∷ items) d).0
                ≡ (retry_all account_index items next).0 =
              rw (f, retry_all) refl in
            subst (λ a. All (IsSettled w a) (item ∷ items)) (sym same)
              (
                inr (
                    retry_all-kept w items item next next_few next_fresh
                      (start_retry-owned w item account d (omega (arith, few)) fresh)),
                retry_all-IsSettled w items next next_few next_fresh,
              )
      ]

  retry_all-none :
      (items : List Item) (d : Deliveries)
      → All (λ (item : Item). account_index item.account_id ≡ none) items
      → (retry_all account_index items d).1 ≡ []
  unfolding retry_all
  retry_all-none [] d h = refl
  retry_all-none (item ∷ items) d h = rw (h.0, retry_all) (retry_all-none items d h.1)

  -- Account and message of each item whose account is configured.
  abbrev pub sendable : List Item → List (ℕ × ComposeState)
  sendable [] = []
  sendable (item ∷ items) = elim (account_index item.account_id) [
    | none ↦ sendable items
    | some account ↦ (account, item.compose) ∷ sendable items
  ]

  abbrev pub unknown : List Item → List Item
  unknown [] = []
  unknown (item ∷ items) = elim (account_index item.account_id) [
    | none ↦ item ∷ unknown items
    | some account ↦ unknown items
  ]

  retry_all-started :
      (items : List Item) (d : Deliveries)
      → d.last_id + length items < u64_mod
      → let (after, started, unsendable) = retry_all account_index items d in
        (map message_of started ≡ sendable items)
        × (unsendable ≡ unknown items)
        × AreNumbered d.last_id started
  unfolding retry_all
  retry_all-started [] d few = (refl, refl, tt)
  retry_all-started (item ∷ items) d few = elim (Option-cases (account_index item.account_id)) [
    | inl f ↦
        let (started, left, ids) = retry_all-started items d (omega (arith, few)) in
        rw (f, retry_all, sendable, unknown) (started, ap (λ xs. item ∷ xs) left, ids)
    | inr (account, f) ↦
        let one : add_u64 d.last_id 1 ≡ suc d.last_id = omega (arith, few) in
        let (started, left, ids) =
          retry_all-started items (start_retry item account d) (fewer item account items d few) in
        rw (f, retry_all, sendable, unknown)
          (
            ap (λ xs. (account, item.compose) ∷ xs) started,
            left,
            (
              one,
              subst
                  (λ n.
                    AreNumbered n (retry_all account_index items (start_retry item account d)).1)
                  one ids,
            ),
          )
  ]

  -- What is on its way under an id that was given out before stays so.
  get-retry_all :
      (items : List Item) (d : Deliveries) (k : ℕ)
      → d.last_id + length items < u64_mod
      → k ≤ d.last_id
      → get k (retry_all account_index items d).0.in_flight ≡ get k d.in_flight
  unfolding retry_all
  get-retry_all [] d k few le = refl
  get-retry_all (item ∷ items) d k few le = elim (Option-cases (account_index item.account_id)) [
    | inl f ↦ rw (f, retry_all) (get-retry_all items d k (omega (arith, few)) le)
    | inr (account, f) ↦
        let next = start_retry item account d in
        let other : get k next.in_flight ≡ get k d.in_flight =
          unfold start_retry in
          get-insert_other k (add_u64 d.last_id 1) _ d.in_flight (ground (arith, few, le)) in
        let low : k ≤ next.last_id = unfold start_retry in omega (arith, few, le) in
        rw (f, retry_all) (get-retry_all items next k (fewer item account items d few) low ∙ other)
  ]

  retry_all-AreInFlight :
      (items : List Item) (d : Deliveries)
      → d.last_id + length items < u64_mod
      → let (after, started, unsendable) = retry_all account_index items d in
        AreInFlight after started
  unfolding retry_all
  retry_all-AreInFlight [] d few = tt
  retry_all-AreInFlight (item ∷ items) d few = elim (Option-cases (account_index item.account_id)) [
    | inl f ↦ rw (f, retry_all) (retry_all-AreInFlight items d (omega (arith, few)))
    | inr (account, f) ↦
        let next = start_retry item account d in
        let few_next = fewer item account items d few in
        let here : get (add_u64 d.last_id 1) next.in_flight
            ≡ some (record { account = account; state = item.compose }) =
          unfold start_retry insert get in ground arith in
        rw (f, retry_all)
          (
            get-retry_all items next (add_u64 d.last_id 1) few_next
                  (unfold start_retry in omega arith)
                ∙ here,
            retry_all-AreInFlight items next few_next,
          )
  ]

  -- Of the due items, the ones whose rows are owned by `d` or settled after it.
  due-settled :
      (w : ℕ → Bool) (rows : List ℕ) (after : Deliveries) (due : List Item)
      → ((item : Item) → is_owned rows item ≡ true → is_owned (owned w after) item ≡ true)
      → All (IsSettled w after) (keep (λ item. not (is_owned rows item)) due)
      → All
          (λ (item : Item). account_index item.account_id ≡ none)
          (keep (λ item. not (is_owned (owned w after) item)) due)
  due-settled w rows after due stays h =
      All-keep_where (λ (item : Item). account_index item.account_id ≡ none)
        (λ item. not (is_owned (owned w after) item)) due (λ item s e. ground (arith, stays item))
        (All-keep_inv (IsSettled w after) (λ item. not (is_owned rows item)) due h)

  -- Where no id in use is above the last one given out, and the ids left are enough for the due
  -- messages: of the due messages that no open window owns and that are not on their way, those
  -- whose account is configured are started, each once and in order, with that account, its own
  -- message and the next id, under which they are then on their way, and exactly the others are
  -- returned; and as long as nothing comes back, asking again for the same due messages starts
  -- nothing.
  pub retries-once :
      (due : List Item) (w : ℕ → Bool) (d : Deliveries)
      → d.last_id + length due < u64_mod
      → IsFresh d
      → let items = keep (λ item. not (is_owned (owned w d) item)) due in
        let (after, started, unsendable) = retries account_index due w d in
        (map message_of started ≡ sendable items)
        × (unsendable ≡ unknown items)
        × AreNumbered d.last_id started
        × AreInFlight after started
        × IsFresh after
        × ((retries account_index due w after).1 ≡ [])
  unfolding retries
  retries-once due w d few fresh =
      let items = keep (λ item. not (is_owned (owned w d) item)) due in
      let few_items : d.last_id + length items < u64_mod =
        omega (arith, few, length-keep (λ item. not (is_owned (owned w d) item)) due) in
      let after = (retry_all account_index items d).0 in
      let (started, left, ids) = retry_all-started items d few_items in
      (
        started,
        left,
        ids,
        retry_all-AreInFlight items d few_items,
        retry_all-IsFresh items d few_items fresh,
        retry_all-none (keep (λ item. not (is_owned (owned w after) item)) due) after (
            due-settled w (owned w d) after due
              (λ item. retry_all-kept w items item d few_items fresh)
              (retry_all-IsSettled w items d few_items fresh)),
      )
